-- ===== src/Scenarios/Writes.antt =====
-- Writes of a small fight over the collection in memory.
use rolebook_backend.Common.{
  ℕ, ◌<◌, String, ◌≡◌, ◌≢◌, refl, ap, true, none, some, List, [], ◌∷◌, arith, ◌==◌, if◌then◌else◌,
}
use rolebook_backend.Http.{fetched, Checked, pass, Reply, json, error}
use rolebook_backend.Access.{player, resolve_campaign_membership, find_member}
use rolebook_backend.Hub.{new, subscribe}
use rolebook_backend.Hub.Invariant.{Event, subscribes, run, step, times}
use rolebook_backend.Initiative.{InitiativeCall, resort}
use rolebook_backend.Tracker.Calls.{
  updated, conflict, set_fields, update_with_version, resolve, start_replace,
}
use rolebook_backend.Tracker.Changes.{resort_change}
use rolebook_backend.Tracker.Loop.{wire_call, World, Round, mutate_with_retry}
use rolebook_backend.Tracker.Endpoints.{Request}
use rolebook_backend.Tracker.Guarded.{to_resolve, IsNoDm, serve_dm, serve_dm_guarded}
use rolebook_backend.Tracker.Committed.{Committed, written, mutate_with_retry-Committed}
use rolebook_backend.Tracker.Published.{heard, mutate_with_retry-published}
use rolebook_backend.Tracker.Races.{
  resolution, beside_resolve, beside_start, mutate_with_retry_timely, mutate_with_retry-resolve,
  mutate_with_retry-start_replace,
}
use rolebook_backend.Scenarios.Memory.{memory, memory-IsUp, fight, fight_db}
use rolebook_backend.Common.Int.{pos}
use rolebook_backend.Common.{Option}
use rolebook_backend.Http.{bare}
use rolebook_backend.Access.{CampaignMembership}
use rolebook_backend.Tracker.Changes.{
  SubmitInitiativeRequest, submit_change, submit_all, any_of_player,
}
use rolebook_backend.Tracker.Calls.{get}
use rolebook_backend.Initiative.{sync_turn_state}
use rolebook_backend.Tracker.Loop.{attempts, attempt}
use rolebook_backend.Tracker.Endpoints.{submit, submit_checked, membership}
use rolebook_backend.Tracker.Guarded.{MaySubmit, submit_guarded}

abbrev calm : Round memory
calm = record { before_read = λ db. db; before_write = λ db. db; updated_at = 20 }

abbrev world : World memory
world = record { db = fight_db; hub = new }

abbrev resorts_it : ℕ → InitiativeCall → Checked InitiativeCall
resorts_it n = resort_change

abbrev fight_again : InitiativeCall
fight_again = record fight { version = 2 }

write_succeeds : (update_with_version memory fight 1 fight_db).0 ≡ updated fight_again
unfolding update_with_version
write_succeeds = refl

write_conflicts : (update_with_version memory fight 7 fight_db).0 ≡ conflict
unfolding update_with_version
write_conflicts = refl

abbrev retried : Reply InitiativeCall × World memory
retried = mutate_with_retry memory none "camp" (λ _. calm) resorts_it world

abbrev watched : List (Event InitiativeCall)
watched = subscribes "camp" ∷ subscribes "other" ∷ []

camp_watched : 0 < times (run new watched) "camp" 0
unfolding run step new subscribe
camp_watched = omega arith

mutate_with_retry-published_example :
    (mutate_with_retry memory none "camp"
        (λ _. calm)
        resorts_it
        (record { db = fight_db; hub = run new watched })).1.hub.chans
      0
    ≡ heard true
        (mutate_with_retry memory none "camp"
          (λ _. calm)
          resorts_it
          (record { db = fight_db; hub = run new watched })).0
        ((run new watched).chans 0)
mutate_with_retry-published_example =
    mutate_with_retry-published memory none "camp" (λ _. calm) resorts_it fight_db watched "camp" 0
      camp_watched

abbrev resorted : InitiativeCall
resorted = record fight { turn_order_participant_ids = [] }

accepted : resort_change fight ≡ pass resorted
unfolding resort_change resort
accepted = refl

mutate_with_retry_timely_example :
    (retried.0 ≡ json 200 (wire_call none (written memory calm fight resorted)))
    × ((k : String)
        → retried.1.db k
          ≡ (if k == "camp" then some (written memory calm fight resorted) else fight_db k))
mutate_with_retry_timely_example =
    mutate_with_retry_timely memory memory-IsUp none "camp" (λ _. calm) resorts_it world fight
      resorted fight refl refl accepted refl refl refl

abbrev answered : InitiativeCall
answered = wire_call none (written memory calm fight resorted)

retried_json : retried ≡ (json 200 answered, retried.1)
retried_json =
    ap (λ (reply : Reply InitiativeCall). (reply, retried.1)) mutate_with_retry_timely_example.0

mutate_with_retry-Committed_example :
    ((let status : ℕ = 200 in status) ≡ 200)
    × ((i : ℕ) × (before : memory.Db) × (i < 3)
        × Committed memory none "camp" calm (resorts_it i) before answered retried.1.db)
mutate_with_retry-Committed_example =
    mutate_with_retry-Committed memory none "camp" (λ _. calm) resorts_it world retried.1 200
      answered retried_json

mutate_with_retry-resolve_example :
    ((resolve memory "camp" 30 fight_db).0 ≡ fetched (some (set_fields (resolution 30) fight)))
    × ((after : InitiativeCall) × ((mutate_with_retry memory none "camp"
              (λ _. beside_resolve memory "camp" 30 31)
              resorts_it
              world).1.db
            "camp"
          ≡ some after)
        × (after.status ≡ "open")
        × (after.resolved_at ≡ none))
mutate_with_retry-resolve_example =
    mutate_with_retry-resolve memory memory-IsUp none "camp" resorts_it world fight resorted 30 31
      refl refl accepted refl refl refl

abbrev next_fight : InitiativeCall
next_fight = record fight { id = "next"; participants = []; version = 0 }

start_succeeds : (start_replace memory next_fight fight_db).0 ≡ fetched tt
unfolding start_replace
start_succeeds = refl

mutate_with_retry-start_replace_example :
    (after : InitiativeCall) × ((mutate_with_retry memory none "camp"
          (λ _. beside_start memory next_fight 31)
          resorts_it
          world).1.db
        "camp"
      ≡ some after)
    × (after.id ≡ "call")
    × (after.version ≡ 2)
mutate_with_retry-start_replace_example =
    mutate_with_retry-start_replace memory memory-IsUp none "camp" resorts_it world fight resorted
      next_fight 31 refl refl refl accepted refl refl start_succeeds

abbrev by_player : Request
by_player = record {
  user = "u1";
  campaign_id = "camp";
  campaign = fetched (
      some (record {
        id = "camp";
        members =
            record { user_id = "u1"; player_id = "ana"; role = player; is_active = true } ∷ [];
      }));
}

player-IsNoDm : IsNoDm by_player
unfolding resolve_campaign_membership find_member
player-IsNoDm s e = cc

serve_dm_guarded_example :
    (status : ℕ) × (message : String) × (code : String) × (serve_dm memory none
        (λ _. calm)
        by_player
        (to_resolve 30)
        world
      ≡ (error status message code, world))
serve_dm_guarded_example =
    serve_dm_guarded memory none (λ _. calm) by_player (to_resolve 30) world player-IsNoDm

abbrev ana_rolls : SubmitInitiativeRequest
ana_rolls = record { player_id = "ana"; initiative = pos 11 }

abbrev submitted : Reply InitiativeCall × World memory
submitted = submit memory none (λ _. calm) by_player (some ana_rolls) (λ n. 40) world

abbrev call_of : Reply InitiativeCall → InitiativeCall
call_of (json status c) = c
call_of (error status message code) = fight
call_of (bare status) = fight

submission_answered : submitted ≡ (json 200 (call_of submitted.0), submitted.1)
unfolding submit submit_checked submit_change submit_all any_of_player resolve_campaign_membership
    find_member mutate_with_retry attempts attempt get update_with_version sync_turn_state
submission_answered = refl

submit_guarded_example :
    (s : CampaignMembership) × (b : SubmitInitiativeRequest) × (membership by_player ≡ pass s)
    × ((let body : Option SubmitInitiativeRequest = some ana_rolls in body) ≡ some b)
    × (b.player_id ≢ "")
    × MaySubmit s b
submit_guarded_example =
    submit_guarded memory none (λ _. calm) by_player (some ana_rolls) (λ n. 40) world submitted.1
      200 (call_of submitted.0) submission_answered
