-- ===== src/Requests/Decide.antt =====
-- `Approve` and `Deny` of internal/handler/content_request.go, and what an approval does to the
-- custom catalog: `materialise` and `applyEdit`.
use rolebook_backend.Common.{ℕ, String, not, Option, none, some, List, [], ◌==◌, if◌then◌else◌}
use rolebook_backend.Http.{
  Fetched, fetched, failed, Checked, pass, deny, deny_if, deny_internal, ◌>>=◌, ◌>>◌,
}
use rolebook_backend.Access.{CampaignMembership}
use rolebook_backend.Sharing.{
  normalize_visibility_mode, is_valid_visibility_mode, allowed_player_ids_for_cascade,
}
use rolebook_backend.Documents.{Inserted, inserted, duplicate, insert_failed}
use rolebook_backend.Catalog.{CustomEquipment, CustomSpell, allocate_id, max_attempts}
use rolebook_backend.Catalog.Stores.{
  create_equipment, get_equipment, update_equipment, create_spell, get_spell, update_spell,
  remove_equipment_from_players_except, remove_spell_from_players_except, list_inventory_summaries,
}
use rolebook_backend.Requests.{
  ContentRequest, can_resolve_request, is_edit_request, get_request, resolve_request, Collections,
  Desk,
}
use rolebook_backend.Requests.Propose.{decoded, resolve_name}

-- The DM's decision: the mode, and the players of the mode `players`.
pub record ApproveBody : Type 0 where
  pub visibility_mode : String
  pub visible_player_ids : List String

pub data Outcome : Type 0 where
  live : String → Outcome
  already_exists target_gone broken : Outcome

-- Content is the proposal's; the identity, the owner, the visibility and the fields that a proposal
-- does not show are the entry's.
unfoldable pub content_fields_for_equipment : CustomEquipment → CustomEquipment → CustomEquipment
content_fields_for_equipment p e = record e {
  name = p.name;
  category = p.category;
  tags = p.tags;
  notes = p.notes;
  image_uri = p.image_uri;
  damage = p.damage;
  damage_type = p.damage_type;
  weapon_type = p.weapon_type;
  properties = p.properties;
  attack_roll_bonus = p.attack_roll_bonus;
  weight = p.weight;
  armor_class = p.armor_class;
  armor_bonus = p.armor_bonus;
  shield_bonus = p.shield_bonus;
  armor_type = p.armor_type;
  strength_requirement = p.strength_requirement;
  stealth_disadvantage = p.stealth_disadvantage;
  cost = p.cost;
}

unfoldable pub content_fields_for_spell : CustomSpell → CustomSpell → CustomSpell
content_fields_for_spell p s = record s {
  name = p.name;
  level = p.level;
  school = p.school;
  casting_time = p.casting_time;
  range = p.range;
  components = p.components;
  material = p.material;
  duration = p.duration;
  description = p.description;
  is_ritual = p.is_ritual;
  classes = p.classes;
  concentration = p.concentration;
  damage = p.damage;
  damage_type = p.damage_type;
  saving_throw_ability = p.saving_throw_ability;
  image_uri = p.image_uri;
}

-- The live entry of an approved request; an empty list of tags is the same as none.
unfoldable pub live_item :
    (now : ℕ) → (campaign id creator : String) → ApproveBody → CustomEquipment → CustomEquipment
live_item now campaign id creator body e = record e {
  id = id;
  campaign_id = campaign;
  created_by = creator;
  created_at = now;
  updated_at = now;
  visibility_mode = body.visibility_mode;
  visible_player_ids = body.visible_player_ids;
}

unfoldable pub live_spell :
    (now : ℕ) → (campaign id creator : String) → ApproveBody → CustomSpell → CustomSpell
live_spell now campaign id creator body s = record s {
  id = id;
  campaign_id = campaign;
  created_by = creator;
  created_at = now;
  updated_at = now;
  visibility_mode = body.visibility_mode;
  visible_player_ids = body.visible_player_ids;
}

abbrev pub created : Inserted → String → Outcome
created inserted id = live id
created duplicate id = already_exists
created insert_failed id = broken

-- `body.VisiblePlayerIDs` is kept in the mode `players` only.
abbrev pub listed_players : String → List String → List String
listed_players mode ids = if mode == "players" then ids else []

abbrev pub check_existing : Fetched (Option ContentRequest) → Checked ContentRequest
check_existing failed = deny_internal
check_existing (fetched none) = deny 404 "request not found" "NOT_FOUND"
check_existing (fetched (some r)) = pass r

-- The checks of `Approve`: the request as read, and the decision.
unfoldable pub check_approval :
    (String → String)
    → Checked CampaignMembership
    → Fetched (Option ContentRequest)
    → Option ApproveBody
    → Checked (CampaignMembership × ContentRequest × ApproveBody)
check_approval clean membership existing sent = do
  m ← membership
  deny_if (not m.is_dm) 403 "only the DM can approve requests" "FORBIDDEN"
  r ← check_existing existing
  deny_if (not (can_resolve_request r.status)) 400 "request is already resolved" "BAD_REQUEST"
  body ← decoded sent
  let mode = normalize_visibility_mode clean body.visibility_mode
  deny_if (not (is_valid_visibility_mode mode)) 400 "visibilityMode must be 'campaign' or 'players'"
      "BAD_REQUEST"
  pass (
    m,
    r,
    record {
      visibility_mode = mode;
      visible_player_ids = listed_players mode body.visible_player_ids;
    },
  )

unfoldable pub check_denial :
    Checked CampaignMembership
    → Fetched (Option ContentRequest)
    → Checked (CampaignMembership × ContentRequest)
check_denial membership existing = do
  m ← membership
  deny_if (not m.is_dm) 403 "only the DM can deny requests" "FORBIDDEN"
  r ← check_existing existing
  deny_if (not (can_resolve_request r.status)) 400 "request is already resolved" "BAD_REQUEST"
  pass (m, r)

abbrev pub check_outcome : Outcome → Checked String
check_outcome (live id) = pass id
check_outcome already_exists = deny 409 "a custom entry with that id already exists" "DUPLICATE"
check_outcome target_gone = deny 404 "the entry being edited no longer exists" "NOT_FOUND"
check_outcome broken = deny_internal

-- `err != nil || updated == nil`
abbrev pub check_updated : Fetched (Option ContentRequest) → Checked ContentRequest
check_updated failed = deny_internal
check_updated (fetched none) = deny_internal
check_updated (fetched (some r)) = pass r

module _ (c : Collections) (clean : String → String) (generated : String → ℕ → Option String)
    (now : ℕ) where
  abbrev pub insert_item :
      Option String
      → String
      → ContentRequest
      → ApproveBody
      → CustomEquipment
      → Desk c
      → Outcome × Desk c
  insert_item none campaign r body e w = (broken, w)
  insert_item (some id) campaign r body e w =
      let (reply, db) =
        create_equipment c.equipment (live_item now campaign id r.proposed_by_user_id body e)
          w.equipment in
      (created reply id, record w { equipment = db })

  abbrev pub insert_spell :
      Option String
      → String
      → ContentRequest
      → ApproveBody
      → CustomSpell
      → Desk c
      → Outcome × Desk c
  insert_spell none campaign r body s w = (broken, w)
  insert_spell (some id) campaign r body s w =
      let (reply, db) =
        create_spell c.spells (live_spell now campaign id r.proposed_by_user_id body s) w.spells in
      (created reply id, record w { spells = db })

  abbrev pub materialise_item :
      String → ContentRequest → ApproveBody → Option CustomEquipment → Desk c → Outcome × Desk c
  materialise_item campaign r body none w = (broken, w)
  materialise_item campaign r body (some e) w =
      insert_item
        (allocate_id (generated e.name) (λ id. get_equipment c.equipment campaign id w.equipment)
          max_attempts)
        campaign r body e w

  abbrev pub materialise_spell :
      String → ContentRequest → ApproveBody → Option CustomSpell → Desk c → Outcome × Desk c
  materialise_spell campaign r body none w = (broken, w)
  materialise_spell campaign r body (some s) w =
      insert_spell
        (allocate_id (generated s.name) (λ id. get_spell c.spells campaign id w.spells)
          max_attempts)
        campaign r body s w

  unfoldable pub materialise : String → ContentRequest → ApproveBody → Desk c → Outcome × Desk c
  materialise campaign r body w =
      let item = materialise_item campaign r body r.item_payload w in
      let spell = materialise_spell campaign r body r.spell_payload w in
      if r.target_type == "item" then item else spell

  -- An entry that some players lost is pulled from their sheets, and a failure is only logged.
  abbrev pub cascade_item : String → String → Option (List String) → Desk c → Desk c
  cascade_item campaign id none w = w
  cascade_item campaign id (some allowed) w = record w {
    players = (remove_equipment_from_players_except c.players now campaign id allowed w.players).1;
  }

  abbrev pub cascade_spell : String → String → Option (List String) → Desk c → Desk c
  cascade_spell campaign id none w = w
  cascade_spell campaign id (some allowed) w = record w {
    players = (remove_spell_from_players_except c.players now campaign id allowed w.players).1;
  }

  abbrev pub edited_item :
      String → String → Fetched (Option CustomEquipment) → Desk c → Outcome × Desk c
  edited_item campaign id failed w = (broken, w)
  edited_item campaign id (fetched none) w = (target_gone, w)
  edited_item campaign id (fetched (some e)) w = (
    live id,
    cascade_item campaign id
        (allowed_player_ids_for_cascade clean e.visibility_mode e.visible_player_ids) w,
  )

  abbrev pub edited_spell :
      String → String → Fetched (Option CustomSpell) → Desk c → Outcome × Desk c
  edited_spell campaign id failed w = (broken, w)
  edited_spell campaign id (fetched none) w = (target_gone, w)
  edited_spell campaign id (fetched (some s)) w = (
    live id,
    cascade_spell campaign id
        (allowed_player_ids_for_cascade clean s.visibility_mode s.visible_player_ids) w,
  )

  abbrev pub edit_item :
      String → String → ApproveBody → Option CustomEquipment → Desk c → Outcome × Desk c
  edit_item campaign id body none w = (broken, w)
  edit_item campaign id body (some p) w =
      let mode = normalize_visibility_mode clean body.visibility_mode in
      let (reply, db) =
        update_equipment c.equipment now campaign id
          (λ e. record (content_fields_for_equipment p e) {
            visibility_mode = mode;
            visible_player_ids = listed_players mode body.visible_player_ids;
          })
          w.equipment in
      edited_item campaign id reply (record w { equipment = db })

  abbrev pub edit_spell :
      String → String → ApproveBody → Option CustomSpell → Desk c → Outcome × Desk c
  edit_spell campaign id body none w = (broken, w)
  edit_spell campaign id body (some p) w =
      let mode = normalize_visibility_mode clean body.visibility_mode in
      let (reply, db) =
        update_spell c.spells now campaign id
          (λ s. record (content_fields_for_spell p s) {
            visibility_mode = mode;
            visible_player_ids = listed_players mode body.visible_player_ids;
          })
          w.spells in
      edited_spell campaign id reply (record w { spells = db })

  unfoldable pub apply_edit : String → ContentRequest → ApproveBody → Desk c → Outcome × Desk c
  apply_edit campaign r body w =
      let item = edit_item campaign r.result_id body r.item_payload w in
      let spell = edit_spell campaign r.result_id body r.spell_payload w in
      if r.result_id == "" then (broken, w) else if r.target_type == "item" then item else spell

  abbrev pub settle :
      String
      → String
      → String
      → String
      → Checked String
      → Desk c
      → Checked (ContentRequest × String) × Desk c
  settle campaign id user status (deny code message reason) w = (deny code message reason, w)
  settle campaign id user status (pass result) w =
      let (reply, db) = resolve_request c.requests now campaign id status user result w.requests in
      (
        check_updated reply >>= λ r. pass (
          r,
          resolve_name r.proposed_by_user_id
              (list_inventory_summaries c.players campaign w.players),
        ),
        record w { requests = db },
      )

  -- `Approve` after its checks, which may have read an older state.
  unfoldable pub approve_checked :
      (campaign id : String)
      → Checked (CampaignMembership × ContentRequest × ApproveBody)
      → Desk c
      → Checked (ContentRequest × String) × Desk c
  approve_checked campaign id (deny code message reason) w = (deny code message reason, w)
  approve_checked campaign id (pass (m, r, body)) w =
      let (outcome, w') =
        if is_edit_request r.kind
        then apply_edit campaign r body w
        else materialise campaign r body w in
      settle campaign id m.user_id "approved" (check_outcome outcome) w'

  unfoldable pub approve :
      Checked CampaignMembership
      → (campaign id : String) → Option ApproveBody
      → Desk c
      → Checked (ContentRequest × String) × Desk c
  approve membership campaign id body w =
      approve_checked campaign id
        (check_approval clean membership (get_request c.requests campaign id w.requests) body) w

  unfoldable pub deny_checked :
      (campaign id : String)
      → Checked (CampaignMembership × ContentRequest)
      → Desk c
      → Checked (ContentRequest × String) × Desk c
  deny_checked campaign id (deny code message reason) w = (deny code message reason, w)
  deny_checked campaign id (pass (m, r)) w = settle campaign id m.user_id "denied" (pass "") w

  unfoldable pub deny_request :
      Checked CampaignMembership
      → (campaign id : String) → Desk c
      → Checked (ContentRequest × String) × Desk c
  deny_request membership campaign id w =
      deny_checked campaign id
        (check_denial membership (get_request c.requests campaign id w.requests)) w
