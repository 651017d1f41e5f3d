-- ===== src/Scenarios/Queues.antt =====
-- Proposals, decisions and custom entries at concrete inputs.
use rolebook_backend.Common.{
  ℕ, String, ◌≡◌, refl, sym, ap, Bool, true, false, Option, none, some, [], ◌∷◌, ◌==◌,
  if◌then◌else◌, nat_eq,
}
use rolebook_backend.Common.Int.{pos}
use rolebook_backend.Http.{Fetched, fetched, pass}
use rolebook_backend.Access.{Role, Campaign, CampaignMembership, resolve_campaign_membership}
use rolebook_backend.Documents.{Collection}
use rolebook_backend.Sharing.{
  allowed_player_ids_for_cascade, can_player_see_entry, normalize_visibility_mode,
  is_valid_visibility_mode,
}
use rolebook_backend.Catalog.{CustomEquipment, allocate_id}
use rolebook_backend.Catalog.Stores.{
  InventoryItem, PlayerSheet, carries, remove_equipment_from_players_except,
  list_inventory_summaries, visible_to_player,
}
use rolebook_backend.Catalog.Cascade.{cascade_sees, visible_to_player-can_player_see_entry}
use rolebook_backend.Requests.{
  ContentRequest, resolved, can_resolve_request, is_edit_request, is_valid_request_target,
  is_valid_request_kind, resolve_request, Collections, Desk,
}
use rolebook_backend.Requests.Propose.{
  check_proposal, check_edit_target, proposal_name, stamped, scrub_payload_for_proposal, proposal,
  insert_proposal, create_proposal, name_among,
}
use rolebook_backend.Requests.Decide.{ApproveBody, approve_checked, deny_checked, materialise}
use rolebook_backend.Requests.Runs.{
  approve_call, withdraw_call, serve, serve_all, serve-Moved, serve_all_decided,
}
use rolebook_backend.Requests.Queue.{Moved}
use rolebook_backend.Requests.Approvals.{
  AnswersUpdates, IsLive, deny_checked_overrides, approve_checked-IsLive,
}
use rolebook_backend.Requests.Proposals.{IsComplete, create_proposal-IsComplete}
use rolebook_backend.Scenarios.Shelves.{shelf}

abbrev pub sword : CustomEquipment
sword = record {
  id = "";
  campaign_id = "";
  created_by = "";
  created_at = 0;
  updated_at = 0;
  name = "Moon Sword";
  category = "weapon";
  tags = [];
  notes = "";
  image_uri = "";
  visibility_mode = "";
  visible_player_ids = [];
  damage = "1d8";
  damage_type = "slashing";
  weapon_type = "martial";
  properties = [];
  attack_roll_bonus = none;
  weight = none;
  armor_class = none;
  armor_bonus = none;
  shield_bonus = none;
  armor_type = "";
  strength_requirement = none;
  stealth_disadvantage = none;
  compatible_with = none;
  effect_summary = "";
  cost = none;
  currency = "";
}

abbrev wish : ContentRequest
wish = record {
  id = "r1";
  campaign_id = "camp";
  target_type = "item";
  kind = "create";
  status = "pending";
  proposed_by_user_id = "u1";
  suggested_visibility_mode = "campaign";
  suggested_visible_player_ids = [];
  item_payload = some sword;
  spell_payload = none;
  result_id = "";
  created_at = 3;
  resolved_at = none;
  resolved_by_user_id = "";
}

abbrev pub member : Bool → String → String → CampaignMembership
member is_dm user player = record {
  campaign = record { id = "camp"; members = [] };
  is_dm = is_dm;
  is_member = true;
  user_id = user;
  player_id = player;
}

abbrev pub master : CampaignMembership
master = member true "u9" "master"

abbrev pub ana : CampaignMembership
ana = member false "u1" "ana"

abbrev camps : String → Fetched (Option Campaign)
camps k = fetched (
    some (record {
      id = "camp";
      members =
          record { user_id = "u1"; player_id = "ana"; role = Role.player; is_active = true }
          ∷ record { user_id = "u9"; player_id = "master"; role = Role.dm; is_active = true }
          ∷ [];
    }))

abbrev desk : Collections
desk = record {
  requests = shelf ("r1" ∷ []);
  equipment = shelf [];
  spells = shelf [];
  players = shelf [];
}

abbrev holding : ContentRequest → Desk desk
holding r = record {
  requests = λ k. if k == "r1" then some r else none;
  equipment = λ k. none;
  spells = λ k. none;
  players = λ k. none;
}

abbrev same_text : String → String
same_text s = s

abbrev named : String → ℕ → Option String
named name n = some "custom-moon-sword-a0b1c2"

abbrev for_all : ApproveBody
for_all = record { visibility_mode = "campaign"; visible_player_ids = [] }

abbrev denied_wish : ContentRequest
denied_wish = record wish { status = "denied"; resolved_at = some 5; resolved_by_user_id = "u9" }

serve-Moved_example :
    Moved desk (resolve_campaign_membership "u9" (camps "camp")) "camp" (holding wish) (
      serve desk same_text same_text named
        (approve_call 9 camps "u9" "camp" "r1" (some for_all))
        (holding wish))
serve-Moved_example =
    serve-Moved desk same_text same_text named
      (approve_call 9 camps "u9" "camp" "r1" (some for_all)) (holding wish)

still_denied : can_resolve_request denied_wish.status ≡ false
unfolding can_resolve_request
still_denied = refl

serve_all_decided_example :
    desk.requests.stored
      (serve_all desk same_text same_text named
        (approve_call 9 camps "u9" "camp" "r1" (some for_all)
          ∷ withdraw_call camps "u1" "camp" "r1"
          ∷ [])
        (holding denied_wish)).requests
      "r1"
    ≡ some denied_wish
serve_all_decided_example =
    serve_all_decided desk same_text same_text named
      (approve_call 9 camps "u9" "camp" "r1" (some for_all)
        ∷ withdraw_call camps "u1" "camp" "r1"
        ∷ [])
      (holding denied_wish) "r1" denied_wish refl still_denied

-- The denial's checks passed before the approval that it finds.
abbrev approved_wish : ContentRequest
approved_wish = record wish {
  status = "approved";
  resolved_at = some 8;
  resolved_by_user_id = "u9";
  result_id = "custom-moon-sword-a0b1c2";
}

updates_answered : AnswersUpdates desk.requests
updates_answered id test f db = (_, refl)

deny_checked_overrides_example :
    (q : ContentRequest) × (name : String) × ((deny_checked desk same_text named 9 "camp" "r1"
        (pass (master, wish))
        (holding approved_wish)).0
      ≡ pass (q, name))
    × (desk.requests.stored
          (deny_checked desk same_text named 9 "camp" "r1"
            (pass (master, wish))
            (holding approved_wish)).1.requests
          "r1"
        ≡ some q)
    × (q.status ≡ "denied")
    × (q.resolved_by_user_id ≡ "u9")
    × (q.result_id ≡ "custom-moon-sword-a0b1c2")
deny_checked_overrides_example =
    deny_checked_overrides desk same_text named 9 "camp" "r1" master wish approved_wish
      (holding approved_wish) updates_answered refl refl refl refl

abbrev approved_now : ContentRequest
approved_now = record approved_wish { resolved_at = some 9 }

approval_done :
    (approve_checked desk same_text named 9 "camp" "r1"
      (pass (master, wish, for_all))
      (holding wish)).0
    ≡ pass (approved_now, "")
unfolding resolved approve_checked materialise allocate_id is_edit_request resolve_request
    list_inventory_summaries name_among
approval_done = refl

not_an_edit : is_edit_request "create" ≡ false
unfolding is_edit_request
not_an_edit = refl

generated_named : (s : String) (i : ℕ) (new : String) → named s i ≡ some new → (new == "") ≡ false
generated_named s i new e = ap is_empty (sym e)
  where
    is_empty : Option String → Bool
    is_empty none = false
    is_empty (some x) = x == ""

approve_checked-IsLive_example :
    (new : String) × (x : CustomEquipment) × (desk.equipment.stored (holding wish).equipment new
      ≡ none)
    × (desk.equipment.stored
          (approve_checked desk same_text named 9 "camp" "r1"
            (pass (master, wish, for_all))
            (holding wish)).1.equipment
          new
        ≡ some x)
    × IsLive desk same_text named 9 "camp" wish for_all (holding wish) sword new x
    × (desk.requests.stored
          (approve_checked desk same_text named 9 "camp" "r1"
            (pass (master, wish, for_all))
            (holding wish)).1.requests
          "r1"
        ≡ some approved_now)
    × (approved_now.status ≡ "approved")
    × (approved_now.resolved_by_user_id ≡ "u9")
    × (approved_now.result_id ≡ new)
approve_checked-IsLive_example =
    approve_checked-IsLive desk same_text named 9 "camp" wish for_all (holding wish) "r1" master
      sword approved_now "" generated_named not_an_edit refl refl approval_done

abbrev sent : ContentRequest
sent = record wish { id = "x"; kind = ""; status = "approved"; proposed_by_user_id = "u9" }

abbrev empty_desk : Desk desk
empty_desk = record (holding wish) { requests = λ k. none }

abbrev entered : ContentRequest
entered = record wish { id = "custom-moon-sword-a0b1c2"; created_at = 3 }

proposal_done :
    (create_proposal desk same_text 3 named (pass ana) "camp" (some sent) empty_desk).0
    ≡ pass (entered, "")
unfolding create_proposal proposal check_proposal check_edit_target proposal_name allocate_id
    stamped scrub_payload_for_proposal insert_proposal is_valid_request_target is_valid_request_kind
    is_edit_request normalize_visibility_mode is_valid_visibility_mode list_inventory_summaries
    name_among
proposal_done = refl

create_proposal-IsComplete_example :
    IsComplete entered
    × (entered.status ≡ "pending")
    × (entered.campaign_id ≡ "camp")
    × (desk.requests.stored empty_desk.requests entered.id ≡ none)
    × (desk.requests.stored
          (create_proposal desk same_text 3 named
            (pass ana)
            "camp"
            (some sent)
            empty_desk).1.requests
          entered.id
        ≡ some entered)
create_proposal-IsComplete_example =
    create_proposal-IsComplete desk same_text 3 named (pass ana) "camp" (some sent) empty_desk
      entered "" proposal_done

abbrev taken_first : ℕ → Option String
taken_first n = if nat_eq n 2 then some "taken" else some "free"

abbrev one_taken : String → Fetched (Option ContentRequest)
one_taken id = if id == "taken" then fetched (some wish) else fetched none

second_free : allocate_id taken_first one_taken 3 ≡ some "free"
unfolding allocate_id
second_free = refl

abbrev torch : InventoryItem
torch = record { equipment_id = "e1"; name = "Torch"; quantity = pos 1 }

abbrev sheet : String → PlayerSheet
sheet id = record {
  id = id;
  campaign_id = "camp";
  name = id;
  linked_user_id = "u1";
  kind = "pc";
  inventory = torch ∷ [];
  spells = [];
  updated_at = 0;
}

abbrev sheets : String → Option PlayerSheet
sheets k = if k == "ana" then some (sheet "ana") else if k == "bo" then some (sheet "bo") else none

abbrev party : Collection PlayerSheet
party = shelf ("ana" ∷ "bo" ∷ [])

only_ana : allowed_player_ids_for_cascade same_text "players" ("ana" ∷ []) ≡ some ("ana" ∷ [])
unfolding allowed_player_ids_for_cascade normalize_visibility_mode
only_ana = refl

pulled :
    (remove_equipment_from_players_except party 9 "camp" "e1" ("ana" ∷ []) sheets).0 ≡ fetched 0
unfolding remove_equipment_from_players_except
pulled = refl

ana_keeps :
    party.stored
      (remove_equipment_from_players_except party 9 "camp" "e1" ("ana" ∷ []) sheets).1
      "ana"
    ≡ some (sheet "ana")
unfolding remove_equipment_from_players_except carries
ana_keeps = refl

ana_carries : carries "e1" (sheet "ana").inventory ≡ true
unfolding carries
ana_carries = refl

cascade_sees_example :
    can_player_see_entry same_text "players" ("ana" ∷ []) (sheet "ana").id false ≡ true
cascade_sees_example =
    cascade_sees party same_text 9 "camp" "e1" "players" ("ana" ∷ []) ("ana" ∷ []) sheets 0 only_ana
      pulled "ana" (sheet "ana") ana_keeps refl ana_carries

visible_to_player-can_player_see_entry_example :
    visible_to_player "camp" "bo" false (record sword { campaign_id = "camp" })
    ≡ can_player_see_entry same_text "" [] "bo" false
visible_to_player-can_player_see_entry_example =
    visible_to_player-can_player_see_entry same_text "camp" "bo" false
      (record sword { campaign_id = "camp" }) refl refl
