-- ===== src/Tracker/Endpoints.antt =====
-- The endpoints of internal/handler/initiative.go, each as it is composed there: the membership
-- check, the caller's rights, the body, then the change under `mutateWithRetry`. A body is `none`
-- where `decodeJSON` fails; the reads of other stores are given by their results.
use rolebook_backend.Common.{ℕ, String, Bool, not, ◌&&◌, Option, none, some, List, ◌==◌}
use rolebook_backend.Http.{
  Fetched, fetched, failed, Checked, pass, deny, deny_if, ◌>>=◌, ◌>>◌, Reply, json, error, bare,
  internal_error,
}
use rolebook_backend.Access.{Campaign, CampaignMembership, resolve_campaign_membership}
use rolebook_backend.Hub.{publish}
use rolebook_backend.Initiative.{InitiativeCall}
use rolebook_backend.Tracker.Calls.{CallCollection, get, start_replace, resolve}
use rolebook_backend.Tracker.Changes.{
  Caller, SubmitInitiativeRequest, EnemyInitiativeRequest, submit_change, enemy_change,
  end_turn_change, resort_change, skip_change, remove_enemy_change,
}
use rolebook_backend.Tracker.Start.{RosterPlayer, start_call}
use rolebook_backend.Tracker.Loop.{World, Round, mutate_with_retry, wire_call}

-- A request: the authenticated user, the campaign, and what the campaign store read for it.
pub record Request : Type 0 where
  pub user : String
  pub campaign_id : String
  pub campaign : Fetched (Option Campaign)

abbrev pub membership : Request → Checked CampaignMembership
membership r = resolve_campaign_membership r.user r.campaign

abbrev pub dm_only : Request → Checked CampaignMembership
dm_only r = do s ← membership r; deny_if (not s.is_dm) 403 "forbidden" "FORBIDDEN"; pass s

abbrev pub caller : CampaignMembership → Caller
caller s = record { is_dm = s.is_dm; player_id = s.player_id }

abbrev pub submit_body : Option SubmitInitiativeRequest → Checked SubmitInitiativeRequest
submit_body none = deny 400 "playerId required" "BAD_REQUEST"
submit_body (some b) = do deny_if (b.player_id == "") 400 "playerId required" "BAD_REQUEST"; pass b

abbrev pub enemy_body : Option EnemyInitiativeRequest → Checked EnemyInitiativeRequest
enemy_body none = deny 400 "name required" "BAD_REQUEST"
enemy_body (some b) = do deny_if (b.name == "") 400 "name required" "BAD_REQUEST"; pass b

abbrev pub skip_body : Option Bool → Checked Bool
skip_body none = deny 400 "skipped flag required" "BAD_REQUEST"
skip_body (some b) = pass b

unfoldable pub submit_checked :
    Request
    → Option SubmitInitiativeRequest
    → Checked (CampaignMembership × SubmitInitiativeRequest)
submit_checked r body = do
  s ← membership r
  b ← submit_body body
  deny_if (not s.is_dm && not (b.player_id == s.player_id)) 403 "forbidden" "FORBIDDEN"
  pass (s, b)

unfoldable pub enemy_checked :
    Request → Option EnemyInitiativeRequest → Checked (CampaignMembership × EnemyInitiativeRequest)
enemy_checked r body = do s ← dm_only r; b ← enemy_body body; pass (s, b)

unfoldable pub skip_checked : Request → Option Bool → Checked (CampaignMembership × Bool)
skip_checked r body = do s ← dm_only r; b ← skip_body body; pass (s, b)

module _ (m : CallCollection) (avatars : Option (String → String)) (rounds : ℕ → Round m) where
  -- A handler goes on with what was checked, or has written the error.
  abbrev pub after_check {ℓ} :
      {A : Type ℓ}
      → Checked A
      → (A → World m → Reply InitiativeCall × World m)
      → World m
      → Reply InitiativeCall × World m
  after_check (deny status message code) go w = (error status message code, w)
  after_check (pass a) go w = go a w

  abbrev pub change :
      Request
      → (ℕ → InitiativeCall → Checked InitiativeCall)
      → World m
      → Reply InitiativeCall × World m
  change r mutate w = mutate_with_retry m avatars r.campaign_id rounds mutate w

  unfoldable pub submit :
      Request → Option SubmitInitiativeRequest → (ℕ → ℕ) → World m → Reply InitiativeCall × World m
  submit r body clock =
      after_check (submit_checked r body)
        λ (s, b). change r (λ n. submit_change b (clock n) (caller s))

  unfoldable pub enemy :
      Request
      → Option EnemyInitiativeRequest
      → (ℕ → ℕ)
      → (ℕ → String)
      → World m
      → Reply InitiativeCall × World m
  enemy r body clock uuids =
      after_check (enemy_checked r body)
        λ (s, b). change r (λ n. enemy_change b (clock n) (uuids n) (caller s))

  unfoldable pub end_turn : Request → World m → Reply InitiativeCall × World m
  end_turn r = after_check (membership r) λ s. change r (λ n. end_turn_change (caller s))

  unfoldable pub resort_order : Request → World m → Reply InitiativeCall × World m
  resort_order r = after_check (dm_only r) λ s. change r (λ n. resort_change)

  unfoldable pub skip : Request → String → Option Bool → World m → Reply InitiativeCall × World m
  skip r id body =
      after_check (skip_checked r body) λ (s, skipped). change r (λ n. skip_change id skipped)

  unfoldable pub remove_enemy : Request → String → World m → Reply InitiativeCall × World m
  remove_enemy r id = after_check (dm_only r) λ s. change r (λ n. remove_enemy_change id)

  abbrev pub publish_call : Request → InitiativeCall → World m → Reply InitiativeCall × World m
  publish_call r c w = (
    json 200 (wire_call avatars c),
    record w { hub = publish r.campaign_id (wire_call avatars c) w.hub },
  )

  abbrev pub start_stored :
      Request → InitiativeCall → Fetched (Unit {0}) → World m → Reply InitiativeCall × World m
  start_stored r c failed w = (internal_error, w)
  start_stored r c (fetched _) w = publish_call r (record c { version = 1; resolved_at = none }) w

  abbrev pub start_with :
      Request
      → CampaignMembership
      → String
      → ℕ
      → Fetched (List RosterPlayer)
      → World m
      → Reply InitiativeCall × World m
  start_with r s uuid now failed w = (internal_error, w)
  start_with r s uuid now (fetched players) w =
      let c = start_call r.campaign_id uuid now s.player_id players in
      let (o, db) = start_replace m c w.db in start_stored r c o (record w { db = db })

  unfoldable pub start :
      Request → Fetched (List RosterPlayer) → String → ℕ → World m → Reply InitiativeCall × World m
  start r players uuid now = after_check (dm_only r) λ s. start_with r s uuid now players

  abbrev pub resolved_with :
      Request → Fetched (Option InitiativeCall) → World m → Reply InitiativeCall × World m
  resolved_with r failed w = (internal_error, w)
  resolved_with r (fetched none) w = (error 404 "no initiative call" "NOT_FOUND", w)
  resolved_with r (fetched (some c)) w = publish_call r c w

  unfoldable pub resolve_call : Request → ℕ → World m → Reply InitiativeCall × World m
  resolve_call r now = after_check (dm_only r) λ s w.
      let (o, db) = resolve m r.campaign_id now w.db in resolved_with r o (record w { db = db })

  abbrev pub got : Fetched (Option InitiativeCall) → World m → Reply InitiativeCall × World m
  got failed w = (internal_error, w)
  got (fetched none) w = (bare 204, w)
  got (fetched (some c)) w = (json 200 (wire_call avatars c), w)

  unfoldable pub get_call : Request → World m → Reply InitiativeCall × World m
  get_call r = after_check (membership r) λ s w. got (get m r.campaign_id w.db) w
