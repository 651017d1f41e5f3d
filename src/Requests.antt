-- ===== src/Requests.antt =====
-- internal/model/content_request.go and internal/store/content_request.go: what players propose, and
-- the queue it waits in. A display name is not stored, so it is no field of a request.
pub mod Propose
pub mod Decide
pub mod Manage
pub mod Moves
pub mod Steps
pub mod Queue
pub mod Runs
pub mod Settled
pub mod Approvals
pub mod Proposals
use rolebook_backend.Common.{
  ℕ, String, Bool, true, false, not, ◌&&◌, ◌||◌, Option, none, some, List, [], ◌∷◌, ◌==◌,
  if◌then◌else◌,
}
use rolebook_backend.Http.{Fetched, fetched, failed}
use rolebook_backend.Documents.{Collection, Inserted}
use rolebook_backend.Catalog.{CustomEquipment, CustomSpell}
use rolebook_backend.Catalog.Stores.{PlayerSheet}

pub record ContentRequest : Type 0 where
  pub id : String
  pub campaign_id : String
  pub target_type : String
  pub kind : String
  pub status : String
  pub proposed_by_user_id : String
  pub suggested_visibility_mode : String
  pub suggested_visible_player_ids : List String
  pub item_payload : Option CustomEquipment
  pub spell_payload : Option CustomSpell
  pub result_id : String
  pub created_at : ℕ
  pub resolved_at : Option ℕ
  pub resolved_by_user_id : String

unfoldable pub can_resolve_request : String → Bool
can_resolve_request status = status == "pending"

unfoldable pub can_withdraw_request : String → Bool
can_withdraw_request status = status == "pending"

unfoldable pub is_valid_request_target : String → Bool
is_valid_request_target target = target == "item" || target == "spell"

unfoldable pub is_valid_request_kind : String → Bool
is_valid_request_kind kind = kind == "create" || kind == "edit"

unfoldable pub is_edit_request : String → Bool
is_edit_request kind = kind == "edit"

abbrev pub in_campaign : String → ContentRequest → Bool
in_campaign campaign r = r.campaign_id == campaign

-- `$set` of `Resolve`.
unfoldable pub resolved : (now : ℕ) → String → String → String → ContentRequest → ContentRequest
resolved now status user result r = record r {
  status = status;
  resolved_at = some now;
  resolved_by_user_id = user;
  result_id = if result == "" then r.result_id else result;
}

-- The fields that `EditPending` puts into its update.
pub record PendingEdit : Type 0 where
  pub item : Option CustomEquipment
  pub spell : Option CustomSpell
  pub visibility : Option (String × List String)

abbrev replaced : {A : Type 0} → Option A → Option A → Option A
replaced none old = old
replaced (some new) old = some new

abbrev edited_mode : Option (String × List String) → String → String
edited_mode none old = old
edited_mode (some (mode, ids)) old = mode

abbrev edited_ids : Option (String × List String) → List String → List String
edited_ids none old = old
edited_ids (some (mode, ids)) old = ids

unfoldable pub edited : PendingEdit → ContentRequest → ContentRequest
edited fields r = record r {
  item_payload = replaced fields.item r.item_payload;
  spell_payload = replaced fields.spell r.spell_payload;
  suggested_visibility_mode = edited_mode fields.visibility r.suggested_visibility_mode;
  suggested_visible_player_ids = edited_ids fields.visibility r.suggested_visible_player_ids;
}

module _ (requests : Collection ContentRequest) where
  open requests use {
    Db, find_one, find_all, count_where, insert_one, find_one_and_update, delete_one,
  }

  abbrev pub create_request : ContentRequest → Db → Inserted × Db
  create_request r db = insert_one r.id r db

  abbrev pub get_request : String → String → Db → Fetched (Option ContentRequest)
  get_request campaign id db = find_one id (in_campaign campaign) db

  -- The order of the listed requests is left out.
  unfoldable pub list_pending : String → Db → Fetched (List ContentRequest)
  list_pending campaign db = find_all (λ r. in_campaign campaign r && r.status == "pending") db

  unfoldable pub count_pending : String → Db → Fetched ℕ
  count_pending campaign db = count_where (λ r. in_campaign campaign r && r.status == "pending") db

  unfoldable pub list_by_proposer : String → String → Db → Fetched (List ContentRequest)
  list_by_proposer campaign user db =
      find_all (λ r. in_campaign campaign r && r.proposed_by_user_id == user) db

  unfoldable pub resolve_request :
      (now : ℕ)
      → (campaign id status user result : String) → Db
      → Fetched (Option ContentRequest) × Db
  resolve_request now campaign id status user result db =
      find_one_and_update id (in_campaign campaign) (resolved now status user result) db

  unfoldable pub remove_request : (campaign id : String) → Db → Fetched Bool × Db
  remove_request campaign id db = delete_one id (in_campaign campaign) db

  unfoldable pub update_payload :
      (campaign id : String) → PendingEdit → Db → Fetched (Option ContentRequest) × Db
  update_payload campaign id fields db =
      find_one_and_update id (in_campaign campaign) (edited fields) db

-- The collections that the handlers share.
pub record Collections : Type 1 where
  pub requests : Collection ContentRequest
  pub equipment : Collection CustomEquipment
  pub spells : Collection CustomSpell
  pub players : Collection PlayerSheet

pub record Desk (c : Collections) : Type 0 where
  pub requests : c.requests.Db
  pub equipment : c.equipment.Db
  pub spells : c.spells.Db
  pub players : c.players.Db
