-- ===== src/Scenarios/Rooms.antt =====
-- Subscribers and members at concrete inputs.
use rolebook_backend.Common.{
  ℕ, ◌<◌, ◌≡◌, ◌↔◌, ◌⊎◌, refl, true, ◌&&◌, some, List, [], ◌∷◌, ◌++◌, ◌==◌, if◌then◌else◌, length,
  ltb, arith,
}
use rolebook_backend.Http.{fetched, pass}
use rolebook_backend.Access.{
  dm, player, CampaignMember, Campaign, CampaignMembership, PlayerRef, PlayerAccess,
  resolve_campaign_membership, resolve_player_access, find_member,
}
use rolebook_backend.Access.Laws.{IsDm, resolve_player_access_iff}
use rolebook_backend.Hub.{new, subscribe, publish, sub_buffer_size, receive}
use rolebook_backend.Hub.Invariant.{
  Event, subscribes, publishes, receives, step, run, times, Inv, run-new-Inv, publish_isolated,
}

-- Two watch "north", one watches "south", and two snapshots of "north" go out.
abbrev history : List (Event ℕ)
history =
    subscribes "north"
    ∷ subscribes "south"
    ∷ publishes "north" 7
    ∷ subscribes "north"
    ∷ publishes "north" 8
    ∷ receives 0
    ∷ []

watches : 0 < times (run new history) "north" 0
unfolding run step new subscribe publish receive
watches = omega arith

run-new-Inv_example : Inv (run new history)
run-new-Inv_example = run-new-Inv history

publish_isolated_example : (publish "south" 9 (run new history)).chans 0 ≡ (
    if ("north" == "south") && ltb (length ((run new history).chans 0)) sub_buffer_size
    then (run new history).chans 0 ++ 9 ∷ []
    else (run new history).chans 0)
publish_isolated_example = publish_isolated history "north" "south" 0 9 watches

abbrev ana : CampaignMember
ana = record { user_id = "u1"; player_id = "ana"; role = player; is_active = true }

abbrev master : CampaignMember
master = record { user_id = "u2"; player_id = "dm"; role = dm; is_active = true }

abbrev camp : Campaign
camp = record { id = "camp"; members = ana ∷ master ∷ [] }

abbrev master_of_camp : CampaignMembership
master_of_camp = record {
  campaign = camp;
  is_dm = true;
  is_member = true;
  user_id = "u2";
  player_id = "dm";
}

master_passes : resolve_campaign_membership "u2" (fetched (some camp)) ≡ pass master_of_camp
unfolding resolve_campaign_membership find_member
master_passes = refl

abbrev sheet : PlayerRef
sheet = record { id = "ana"; campaign_id = "camp"; linked_user_id = "u1" }

resolve_player_access_iff_example :
    (((a : PlayerAccess) × (resolve_player_access "u2"
            (fetched (some sheet))
            (λ k. fetched (some camp))
          ≡ pass a))
      ↔ (IsDm "u2" (some camp) ⊎ (sheet.linked_user_id ≡ "u2")))
    × ((a : PlayerAccess)
        → resolve_player_access "u2" (fetched (some sheet)) (λ k. fetched (some camp)) ≡ pass a
        → (a.player ≡ sheet) × ((a.is_dm ≡ true) ↔ IsDm "u2" (some camp)))
resolve_player_access_iff_example =
    resolve_player_access_iff "u2" sheet (λ k. fetched (some camp)) (some camp) refl
