-- ===== src/Tracker/Guarded.antt =====
-- Who may reach the endpoints of internal/handler/initiative.go.
use rolebook_backend.Common.{
  ℕ, String, ◌≡◌, ◌≢◌, ◌⊎◌, refl, ap, Bool, true, false, not, ◌&&◌, Option, none, some, List, ◌==◌,
  eq_iff, arith,
}
use rolebook_backend.Http.{
  Fetched, Checked, pass, deny, deny_if, ◌>>=◌, ◌>>◌, >>=-eq-pass, >>-eq-pass, Reply, json, error,
}
use rolebook_backend.Access.{CampaignMembership}
use rolebook_backend.Initiative.{InitiativeCall}
use rolebook_backend.Tracker.Calls.{CallCollection}
use rolebook_backend.Tracker.Changes.{SubmitInitiativeRequest, EnemyInitiativeRequest}
use rolebook_backend.Tracker.Start.{RosterPlayer}
use rolebook_backend.Tracker.Loop.{World, Round}
use rolebook_backend.Tracker.Endpoints.{
  Request, membership, dm_only, enemy_checked, skip_checked, enemy, resort_order, skip,
  remove_enemy, start, resolve_call, after_check, submit, submit_body, submit_checked,
}

-- The DM's requests, each with what it reads besides the campaign.
pub data DmRequest : Type 0 where
  to_roll_enemy : Option EnemyInitiativeRequest → (ℕ → ℕ) → (ℕ → String) → DmRequest
  to_resort : DmRequest
  to_skip : String → Option Bool → DmRequest
  to_remove : String → DmRequest
  to_start : Fetched (List RosterPlayer) → String → ℕ → DmRequest
  to_resolve : ℕ → DmRequest

abbrev IsDenied : {A : Type 0} → Checked A → Type 0
IsDenied {A = A} x =
    (status : ℕ) × (message : String) × (code : String) × (x ≡ deny status message code)

-- The caller is no DM of the campaign.
abbrev pub IsNoDm : Request → Type 0
IsNoDm r = (s : CampaignMembership) → membership r ≡ pass s → s.is_dm ≡ false

-- A membership that is no DM's is turned away.
denied :
    (x : Checked CampaignMembership)
    → ((s : CampaignMembership) → x ≡ pass s → s.is_dm ≡ false)
    → IsDenied (x >>= λ s. deny_if (not s.is_dm) 403 "forbidden" "FORBIDDEN" >> pass s)
denied (deny status message code) h = (status, message, code, refl)
denied (pass s) h = rw (h s refl) (403, "forbidden", "FORBIDDEN", refl)

dm_only-IsDenied : (r : Request) → IsNoDm r → IsDenied (dm_only r)
dm_only-IsDenied r h = denied (membership r) h

module _ (m : CallCollection) (avatars : Option (String → String)) (rounds : ℕ → Round m) where
  abbrev pub serve_dm : Request → DmRequest → World m → Reply InitiativeCall × World m
  serve_dm r (to_roll_enemy body clock uuids) w = enemy m avatars rounds r body clock uuids w
  serve_dm r to_resort w = resort_order m avatars rounds r w
  serve_dm r (to_skip id body) w = skip m avatars rounds r id body w
  serve_dm r (to_remove id) w = remove_enemy m avatars rounds r id w
  serve_dm r (to_start players uuid now) w = start m avatars rounds r players uuid now w
  serve_dm r (to_resolve now) w = resolve_call m avatars rounds r now w

  guarded :
      (r : Request) (q : DmRequest) (w : World m) (status : ℕ) (message code : String)
      → dm_only r ≡ deny status message code
      → serve_dm r q w ≡ (error status message code, w)
  unfolding enemy resort_order skip remove_enemy start resolve_call enemy_checked skip_checked
  guarded r (to_roll_enemy body clock uuids) w status message code e = rw e refl
  guarded r to_resort w status message code e = rw e refl
  guarded r (to_skip id body) w status message code e = rw e refl
  guarded r (to_remove id) w status message code e = rw e refl
  guarded r (to_start players uuid now) w status message code e = rw e refl
  guarded r (to_resolve now) w status message code e = rw e refl

  -- Whoever is not the DM of the campaign gets an error from each of the DM's endpoints, and neither
  -- the database nor the hub changes.
  pub serve_dm_guarded :
      (r : Request) (q : DmRequest) (w : World m)
      → IsNoDm r
      → (status : ℕ) × (message : String) × (code : String) × (serve_dm r q w
          ≡ (error status message code, w))
  serve_dm_guarded r q w h =
      let (status, message, code, e) = dm_only-IsDenied r h in
      (status, message, code, guarded r q w status message code e)

checked_json :
    (m : CallCollection) (avatars : Option (String → String)) (rounds : ℕ → Round m) {A : Type 0}
    (x : Checked A) (go : A → World m → Reply InitiativeCall × World m) (w w' : World m)
    (status : ℕ) (wire : InitiativeCall)
    → after_check m avatars rounds x go w ≡ (json status wire, w')
    → (a : A) × (x ≡ pass a)
checked_json m avatars rounds (deny s message code) go w w' status wire e = cc
checked_json m avatars rounds (pass a) go w w' status wire e = (a, refl)

-- The DM may submit for anyone; a player for themselves.
abbrev pub MaySubmit : CampaignMembership → SubmitInitiativeRequest → Type 0
MaySubmit s b = (s.is_dm ≡ true) ⊎ (b.player_id ≡ s.player_id)

submit_body_sound :
    (body : Option SubmitInitiativeRequest) (b : SubmitInitiativeRequest)
    → submit_body body ≡ pass b
    → (body ≡ some b) × (b.player_id ≢ "")
submit_body_sound none b e = cc
submit_body_sound (some d) b e =
    let (there, same) = >>-eq-pass (d.player_id == "") _ _ _ _ e in
    let is_d : d ≡ b = inner same in
    (
      ap some is_d,
      λ h.
          ground (
            arith,
            eq_iff d.player_id "",
            h,
            ap (λ (x : SubmitInitiativeRequest). x.player_id) is_d,
          ),
    )
  where
    inner : {d b : SubmitInitiativeRequest} → pass d ≡ pass b → d ≡ b
    inner h = cc

-- Whoever is answered a submission is a member of the campaign that was read, named a player, and is
-- the DM or that player.
pub submit_guarded :
    (m : CallCollection) (avatars : Option (String → String)) (rounds : ℕ → Round m) (r : Request)
    (body : Option SubmitInitiativeRequest) (clock : ℕ → ℕ) (w w' : World m) (status : ℕ)
    (wire : InitiativeCall)
    → submit m avatars rounds r body clock w ≡ (json status wire, w')
    → (s : CampaignMembership) × (b : SubmitInitiativeRequest) × (membership r ≡ pass s)
      × (body ≡ some b)
      × (b.player_id ≢ "")
      × MaySubmit s b
unfolding submit submit_checked
submit_guarded m avatars rounds r body clock w w' status wire e =
    let ((s0, b0), e0) = checked_json m avatars rounds _ _ w w' status wire e in
    let (s, e1, h1) = >>=-eq-pass (membership r) _ e0 in
    let (b, e2, h2) = >>=-eq-pass (submit_body body) _ h1 in
    let (free, _) = >>-eq-pass (not s.is_dm && not (b.player_id == s.player_id)) _ _ _ _ h2 in
    let (there, named) = submit_body_sound body b e2 in
    (s, b, e1, there, named, may_submit s b free)
  where
    may_submit :
        (s : CampaignMembership) (b : SubmitInitiativeRequest)
        → not s.is_dm && not (b.player_id == s.player_id) ≡ false
        → MaySubmit s b
    may_submit s b free = ground (arith, eq_iff b.player_id s.player_id)
