-- ===== src/Requests/Manage.antt =====
-- `Withdraw`, `EditPending` and the lists of internal/handler/content_request.go.
use rolebook_backend.Common.{
  ℕ, String, Bool, true, false, not, ◌&&◌, ◌||◌, Option, none, some, List, [], ◌∷◌, ◌==◌,
  if◌then◌else◌,
}
use rolebook_backend.Http.{
  Fetched, fetched, failed, Checked, pass, deny, deny_if, ◌>>=◌, ◌>>◌, check_read,
}
use rolebook_backend.Access.{CampaignMembership}
use rolebook_backend.Sharing.{normalize_visibility_mode, is_valid_visibility_mode}
use rolebook_backend.Catalog.{CustomEquipment, CustomSpell}
use rolebook_backend.Catalog.Stores.{PlayerSheet, list_inventory_summaries}
use rolebook_backend.Requests.{
  ContentRequest, PendingEdit, can_resolve_request, can_withdraw_request, get_request, list_pending,
  count_pending, list_by_proposer, remove_request, update_payload, Collections, Desk,
}
use rolebook_backend.Requests.Propose.{
  decoded, item_unnamed, item_uncategorized, spell_unnamed, scrub_payload_for_proposal,
}
use rolebook_backend.Requests.Decide.{listed_players, check_existing, check_updated}

unfoldable pub check_withdrawal :
    Checked CampaignMembership → Fetched (Option ContentRequest) → Checked ContentRequest
check_withdrawal membership existing = do
  m ← membership
  r ← check_existing existing
  deny_if (not (r.proposed_by_user_id == m.user_id)) 403
      "only the proposer can withdraw this request" "FORBIDDEN"
  deny_if (not (can_withdraw_request r.status)) 400 "only a pending request can be withdrawn"
      "BAD_REQUEST"
  pass r

abbrev pub item_edit : String → Option CustomEquipment → Checked (Option CustomEquipment)
item_edit target none = pass none
item_edit target (some e) =
    if target == "item"
    then deny_if (item_unnamed (some e)) 400 "itemPayload with a name is required" "BAD_REQUEST"
      >> (deny_if (item_uncategorized (some e)) 400 "itemPayload.category is required" "BAD_REQUEST"
          >> pass (some e))
    else pass none

abbrev pub spell_edit : String → Option CustomSpell → Checked (Option CustomSpell)
spell_edit target none = pass none
spell_edit target (some s) =
    if target == "spell"
    then deny_if (spell_unnamed (some s)) 400 "spellPayload with a name is required" "BAD_REQUEST"
      >> pass (some s)
    else pass none

abbrev pub visibility_edit :
    (String → String) → String → List String → Checked (Option (String × List String))
visibility_edit clean sent ids =
    let mode = normalize_visibility_mode clean sent in
    if sent == ""
    then pass none
    else deny_if (not (is_valid_visibility_mode mode)) 400
        "suggestedVisibilityMode must be 'campaign' or 'players'" "BAD_REQUEST"
      >> pass (some (mode, listed_players mode ids))

-- `len(fields) == 0`
abbrev pub nothing_edited : PendingEdit → Bool
nothing_edited f = elim f.item [
  | some e ↦ false
  | none ↦ elim f.spell [
    | some s ↦ false
    | none ↦ elim f.visibility [ some v ↦ false | none ↦ true ]
  ]
]

unfoldable pub edit_fields : (String → String) → String → ContentRequest → Checked PendingEdit
edit_fields clean target body = do
  item ← item_edit target body.item_payload
  spell ← spell_edit target body.spell_payload
  visibility ←
      visibility_edit clean body.suggested_visibility_mode body.suggested_visible_player_ids
  let fields : PendingEdit = record { item = item; spell = spell; visibility = visibility }
  deny_if (nothing_edited fields) 400 "no editable fields provided" "BAD_REQUEST"
  pass fields

unfoldable pub check_edit :
    (String → String)
    → Checked CampaignMembership
    → Fetched (Option ContentRequest)
    → Option ContentRequest
    → Checked PendingEdit
check_edit clean membership existing sent = do
  m ← membership
  r ← check_existing existing
  deny_if (not m.is_dm && not (r.proposed_by_user_id == m.user_id)) 403
      "you can only edit your own pending request" "FORBIDDEN"
  deny_if (not (can_resolve_request r.status)) 400 "only a pending request can be edited"
      "BAD_REQUEST"
  body ← decoded sent
  edit_fields clean r.target_type (scrub_payload_for_proposal body)

is_linked : String → List PlayerSheet → Bool
is_linked user [] = false
is_linked user (q ∷ qs) = q.linked_user_id == user || is_linked user qs

-- `nameByUserID`: of two players of one user the later one names the user, and the empty user has no
-- name.
unfoldable pub name_by_user : List PlayerSheet → String → String
unfolding is_linked
name_by_user [] user = ""
name_by_user (p ∷ ps) user =
    let later = name_by_user ps user in
    if user == ""
    then ""
    else if is_linked user ps
    then later
    else if p.linked_user_id == user
    then p.name
    else ""

unfoldable pub build_request_views :
    List ContentRequest → List PlayerSheet → List (ContentRequest × String)
build_request_views [] players = []
build_request_views (r ∷ rs) players =
    (r, name_by_user players r.proposed_by_user_id) ∷ build_request_views rs players

abbrev pub imaged_item : (String → String) → Option CustomEquipment → Option CustomEquipment
imaged_item resolve_image none = none
imaged_item resolve_image (some e) = some (record e { image_uri = resolve_image e.image_uri })

abbrev pub imaged_spell : (String → String) → Option CustomSpell → Option CustomSpell
imaged_spell resolve_image none = none
imaged_spell resolve_image (some s) = some (record s { image_uri = resolve_image s.image_uri })

abbrev pub imaged : (String → String) → ContentRequest × String → ContentRequest × String
imaged resolve_image (r, name) = (
  record r {
    item_payload = imaged_item resolve_image r.item_payload;
    spell_payload = imaged_spell resolve_image r.spell_payload;
  },
  name,
)

abbrev pub map_views :
    (String → String) → List (ContentRequest × String) → List (ContentRequest × String)
map_views resolve_image [] = []
map_views resolve_image (v ∷ vs) = imaged resolve_image v ∷ map_views resolve_image vs

abbrev pub summaries_or_none : Fetched (List PlayerSheet) → List PlayerSheet
summaries_or_none failed = []
summaries_or_none (fetched ps) = ps

-- A failed look-up of the players leaves the names empty. `resolve_image` is the avatar store's.
unfoldable pub with_names_and_images :
    (String → String)
    → Fetched (List PlayerSheet)
    → List ContentRequest
    → List (ContentRequest × String)
with_names_and_images resolve_image summaries rs =
    map_views resolve_image (build_request_views rs (summaries_or_none summaries))

-- `withNamesAndImages(r, campaignID, []model.ContentRequest{*updated})[0]`
abbrev pub view_of :
    (String → String) → Fetched (List PlayerSheet) → ContentRequest → ContentRequest × String
view_of resolve_image summaries r =
    imaged resolve_image (r, name_by_user (summaries_or_none summaries) r.proposed_by_user_id)

module _ (c : Collections) where
  abbrev pub withdraw_checked :
      (campaign id : String) → Checked ContentRequest → Desk c → Checked (Unit {0}) × Desk c
  withdraw_checked campaign id (deny status message code) w = (deny status message code, w)
  withdraw_checked campaign id (pass r) w =
      let (reply, db) = remove_request c.requests campaign id w.requests in
      (check_read reply >>= λ gone. pass tt, record w { requests = db })

  unfoldable pub withdraw :
      Checked CampaignMembership → (campaign id : String) → Desk c → Checked (Unit {0}) × Desk c
  withdraw membership campaign id w =
      withdraw_checked campaign id
        (check_withdrawal membership (get_request c.requests campaign id w.requests)) w

  abbrev pub edit_checked :
      (String → String)
      → (campaign id : String) → Checked PendingEdit
      → Desk c
      → Checked (ContentRequest × String) × Desk c
  edit_checked resolve_image campaign id (deny status message code) w =
      (deny status message code, w)
  edit_checked resolve_image campaign id (pass fields) w =
      let (reply, db) = update_payload c.requests campaign id fields w.requests in
      (
        check_updated reply >>= λ r.
            pass (view_of resolve_image (list_inventory_summaries c.players campaign w.players) r),
        record w { requests = db },
      )

  unfoldable pub edit_pending :
      (clean resolve_image : String → String)
      → Checked CampaignMembership
      → (campaign id : String) → Option ContentRequest
      → Desk c
      → Checked (ContentRequest × String) × Desk c
  edit_pending clean resolve_image membership campaign id body w =
      edit_checked resolve_image campaign id
        (check_edit clean membership (get_request c.requests campaign id w.requests) body) w

  unfoldable pub mine :
      (String → String)
      → Checked CampaignMembership
      → String
      → Desk c
      → Checked (List (ContentRequest × String))
  mine resolve_image membership campaign w = do
    m ← membership
    rs ← check_read (list_by_proposer c.requests campaign m.user_id w.requests)
    pass (
        with_names_and_images resolve_image (list_inventory_summaries c.players campaign w.players)
          rs)

  unfoldable pub pending :
      (String → String)
      → Checked CampaignMembership
      → String
      → Desk c
      → Checked (List (ContentRequest × String))
  pending resolve_image membership campaign w = do
    m ← membership
    deny_if (not m.is_dm) 403 "only the DM can view the approval queue" "FORBIDDEN"
    rs ← check_read (list_pending c.requests campaign w.requests)
    pass (
        with_names_and_images resolve_image (list_inventory_summaries c.players campaign w.players)
          rs)

  unfoldable pub pending_count : Checked CampaignMembership → String → Desk c → Checked ℕ
  pending_count membership campaign w = do
    m ← membership
    deny_if (not m.is_dm) 403 "only the DM can view the approval queue" "FORBIDDEN"
    check_read (count_pending c.requests campaign w.requests)
