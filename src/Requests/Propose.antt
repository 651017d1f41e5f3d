-- ===== src/Requests/Propose.antt =====
-- `Create` of internal/handler/content_request.go with its helpers. The body is `none` where it does
-- not decode; `generated` gives the results of `GenerateID`, and `clean` lowers and trims a mode.
use rolebook_backend.Common.{
  ℕ, String, Bool, true, not, ◌&&◌, Option, none, some, List, [], ◌∷◌, ◌==◌, if◌then◌else◌,
}
use rolebook_backend.Http.{
  Fetched, fetched, failed, Checked, pass, deny, deny_if, deny_internal, ◌>>=◌, ◌>>◌,
}
use rolebook_backend.Access.{CampaignMembership}
use rolebook_backend.Sharing.{
  normalize_visibility_mode, is_valid_visibility_mode, can_player_see_entry,
}
use rolebook_backend.Documents.{Inserted, inserted, duplicate, insert_failed}
use rolebook_backend.Catalog.{CustomEquipment, CustomSpell, allocate_id, max_attempts}
use rolebook_backend.Catalog.Stores.{
  get_equipment, get_spell, PlayerSheet, list_inventory_summaries,
}
use rolebook_backend.Requests.{
  ContentRequest, is_valid_request_target, is_valid_request_kind, is_edit_request, create_request,
  get_request, Collections, Desk,
}

-- `payload == nil || payload.Name == ""`, and an item's category, of a payload that is there.
abbrev pub item_unnamed : Option CustomEquipment → Bool
item_unnamed none = true
item_unnamed (some e) = e.name == ""

abbrev pub item_uncategorized : Option CustomEquipment → Bool
item_uncategorized none = true
item_uncategorized (some e) = e.category == ""

abbrev pub spell_unnamed : Option CustomSpell → Bool
spell_unnamed none = true
spell_unnamed (some s) = s.name == ""

abbrev pub decoded {ℓ} : {A : Type ℓ} → Option A → Checked A
decoded none = deny 400 "invalid request body" "BAD_REQUEST"
decoded (some body) = pass body

unfoldable pub proposal_name : ContentRequest → String
proposal_name r =
    if r.target_type == "item"
    then (elim r.item_payload [ some e ↦ e.name | none ↦ "request" ])
    else if r.target_type == "spell"
    then (elim r.spell_payload [ some s ↦ s.name | none ↦ "request" ])
    else "request"

abbrev pub scrub_item : CustomEquipment → CustomEquipment
scrub_item e = record e {
  id = "";
  campaign_id = "";
  created_by = "";
  visibility_mode = "";
  visible_player_ids = [];
}

abbrev pub scrub_spell : CustomSpell → CustomSpell
scrub_spell s = record s {
  id = "";
  campaign_id = "";
  created_by = "";
  visibility_mode = "";
  visible_player_ids = [];
}

abbrev pub scrubbed : Option CustomEquipment → Option CustomEquipment
scrubbed none = none
scrubbed (some e) = some (scrub_item e)

abbrev pub scrubbed_spell : Option CustomSpell → Option CustomSpell
scrubbed_spell none = none
scrubbed_spell (some s) = some (scrub_spell s)

unfoldable pub scrub_payload_for_proposal : ContentRequest → ContentRequest
scrub_payload_for_proposal r = record r {
  item_payload = scrubbed r.item_payload;
  spell_payload = scrubbed_spell r.spell_payload;
}

-- `if body.Kind == "" { body.Kind = model.RequestKindCreate }`
abbrev pub kind_of : String → String
kind_of kind = if kind == "" then "create" else kind

-- The body's checks, with the mode and the kind that they settle.
unfoldable pub check_proposal : (String → String) → ContentRequest → Checked ContentRequest
check_proposal clean r = do
  deny_if (not (is_valid_request_target r.target_type)) 400 "targetType must be 'item' or 'spell'"
      "BAD_REQUEST"
  deny_if (r.target_type == "item" && item_unnamed r.item_payload) 400
      "itemPayload with a name is required" "BAD_REQUEST"
  deny_if (r.target_type == "item" && item_uncategorized r.item_payload) 400
      "itemPayload.category is required" "BAD_REQUEST"
  deny_if (r.target_type == "spell" && spell_unnamed r.spell_payload) 400
      "spellPayload with a name is required" "BAD_REQUEST"
  let mode = normalize_visibility_mode clean r.suggested_visibility_mode
  deny_if (not (is_valid_visibility_mode mode)) 400
      "suggestedVisibilityMode must be 'campaign' or 'players'" "BAD_REQUEST"
  deny_if (not (is_valid_request_kind (kind_of r.kind))) 400 "kind must be 'create' or 'edit'"
      "BAD_REQUEST"
  pass (record r { suggested_visibility_mode = mode; kind = kind_of r.kind })

-- The target of an edit: there, and visible to the caller.
abbrev pub check_item_target :
    (String → String) → CampaignMembership → Fetched (Option CustomEquipment) → Checked (Unit {0})
check_item_target clean m failed = deny_internal
check_item_target clean m (fetched none) = deny 404 "custom item not found" "NOT_FOUND"
check_item_target clean m (fetched (some e)) =
    deny_if
      (not (can_player_see_entry clean e.visibility_mode e.visible_player_ids m.player_id m.is_dm))
      404 "custom item not found" "NOT_FOUND"

abbrev pub check_spell_target :
    (String → String) → CampaignMembership → Fetched (Option CustomSpell) → Checked (Unit {0})
check_spell_target clean m failed = deny_internal
check_spell_target clean m (fetched none) = deny 404 "custom spell not found" "NOT_FOUND"
check_spell_target clean m (fetched (some s)) =
    deny_if
      (not (can_player_see_entry clean s.visibility_mode s.visible_player_ids m.player_id m.is_dm))
      404 "custom spell not found" "NOT_FOUND"

abbrev pub allocated : Option String → Checked String
allocated none = deny_internal
allocated (some id) = pass id

-- The fields that the server sets on an accepted proposal.
unfoldable pub stamped : (now : ℕ) → (campaign id user : String) → ContentRequest → ContentRequest
stamped now campaign id user r = scrub_payload_for_proposal (record r {
  id = id;
  campaign_id = campaign;
  status = "pending";
  proposed_by_user_id = user;
  result_id = if not (is_edit_request r.kind) then "" else r.result_id;
  resolved_at = none;
  resolved_by_user_id = "";
  created_at = now;
})

-- `resolveName`: the first of the campaign's players that the user is linked to.
unfoldable pub name_among : String → List PlayerSheet → String
name_among user [] = ""
name_among user (p ∷ ps) =
    let rest = name_among user ps in if p.linked_user_id == user then p.name else rest

abbrev pub resolve_name : String → Fetched (List PlayerSheet) → String
resolve_name user failed = ""
resolve_name user (fetched ps) = name_among user ps

abbrev pub check_created : {A : Type 0} → Inserted → A → Checked A
check_created inserted r = pass r
check_created duplicate r = deny 409 "duplicate request id" "DUPLICATE"
check_created insert_failed r = deny_internal

module _ (c : Collections) (clean : String → String) where
  unfoldable pub check_edit_target :
      CampaignMembership → String → ContentRequest → Desk c → Checked (Unit {0})
  check_edit_target m campaign r w =
      if is_edit_request r.kind
      then deny_if (r.result_id == "") 400 "resultId is required for an edit request" "BAD_REQUEST"
        >> (if r.target_type == "item"
            then check_item_target clean m
                (get_equipment c.equipment campaign r.result_id w.equipment)
            else check_spell_target clean m (get_spell c.spells campaign r.result_id w.spells))
      else pass tt

  -- What `Create` settles before it writes.
  unfoldable pub proposal :
      (now : ℕ)
      → (String → ℕ → Option String)
      → Checked CampaignMembership
      → (campaign : String) → Option ContentRequest
      → Desk c
      → Checked ContentRequest
  proposal now generated membership campaign body w = do
    m ← membership
    sent ← decoded body
    r ← check_proposal clean sent
    check_edit_target m campaign r w
    id ← allocated (
        allocate_id (generated (proposal_name r))
          (λ id. get_request c.requests campaign id w.requests) max_attempts)
    pass (stamped now campaign id m.user_id r)

  unfoldable pub insert_proposal :
      String → Checked ContentRequest → Desk c → Checked (ContentRequest × String) × Desk c
  insert_proposal campaign (deny status message code) w = (deny status message code, w)
  insert_proposal campaign (pass r) w =
      let (reply, db) = create_request c.requests r w.requests in
      let name =
        resolve_name r.proposed_by_user_id
          (list_inventory_summaries c.players campaign w.players) in
      (check_created reply (r, name), record w { requests = db })

  -- `Create`: the request stored, with the proposer's name for the reply.
  unfoldable pub create_proposal :
      (now : ℕ)
      → (String → ℕ → Option String)
      → Checked CampaignMembership
      → (campaign : String) → Option ContentRequest
      → Desk c
      → Checked (ContentRequest × String) × Desk c
  create_proposal now generated membership campaign body w =
      insert_proposal campaign (proposal now generated membership campaign body w) w
