-- ===== src/Catalog/Entries.antt =====
-- internal/handler/custom_equipment.go and internal/handler/custom_spell.go: the DM's own custom
-- entries. The two files differ in an entry's type, its checks and their texts, which `Shelf` holds.
-- `set` is the effect of `$set` on a key with a value of a decoded body, the driver's.
use rolebook_backend.Common.{
  ℕ, zero, suc, String, Bool, true, false, not, ◌&&◌, ◌||◌, Option, none, some, List, [], ◌∷◌, ◌==◌,
  contains, ltb, if◌then◌else◌,
}
use rolebook_backend.Common.Int.{ℤ, pos, negsuc}
use rolebook_backend.Http.{
  Fetched, fetched, failed, Checked, pass, deny, deny_if, deny_internal, ◌>>=◌, ◌>>◌,
}
use rolebook_backend.Sharing.{normalize_visibility_mode, is_valid_visibility_mode}
use rolebook_backend.Documents.{Collection}
use rolebook_backend.Catalog.{CustomEquipment, CustomSpell, of_campaign, spell_of_campaign}
use rolebook_backend.Catalog.Stores.{
  PlayerSheet, visible_to_player, spell_visible_to_player, remove_equipment_from_all_inventories,
  remove_equipment_from_players_except, remove_spell_from_all_players,
  remove_spell_from_players_except,
}

pub data PatchValue : Type 0 where
  text : String → PatchValue
  ids : List String → PatchValue
  other_value : PatchValue

abbrev pub Patch : Type 0
Patch = List (String × PatchValue)

-- `delete(patch, k)` for the fields of the server.
abbrev pub server_owned : List String
server_owned = "id" ∷ "_id" ∷ "campaignId" ∷ "createdBy" ∷ "createdAt" ∷ "updatedAt" ∷ []

unfoldable pub stripped : Patch → Patch
stripped [] = []
stripped ((k, v) ∷ ps) =
    let rest = stripped ps in if contains server_owned k then rest else (k, v) ∷ rest

unfoldable pub value_at : String → Patch → Option PatchValue
value_at key [] = none
value_at key ((k, v) ∷ ps) = let rest = value_at key ps in if k == key then some v else rest

unfoldable pub without_key : String → Patch → Patch
without_key key [] = []
without_key key ((k, v) ∷ ps) =
    let rest = without_key key ps in if k == key then rest else (k, v) ∷ rest

abbrev pub with_key : String → PatchValue → Patch → Patch
with_key key v ps = (key, v) ∷ without_key key ps

abbrev pub with_mode : String → Patch → Patch
with_mode mode ps =
    if mode == "players"
    then with_key "visibilityMode" (text mode) ps
    else with_key "visiblePlayerIds" (ids []) (with_key "visibilityMode" (text mode) ps)

abbrev pub not_a_string {ℓ} : {A : Type ℓ} → Checked A
not_a_string = deny 400 "visibilityMode must be a string" "BAD_REQUEST"

abbrev pub check_mode : (String → String) → Option PatchValue → Patch → Checked Patch
check_mode clean none ps = pass ps
check_mode clean (some (ids xs)) ps = not_a_string
check_mode clean (some other_value) ps = not_a_string
check_mode clean (some (text sent)) ps =
    let mode = normalize_visibility_mode clean sent in
    deny_if (not (is_valid_visibility_mode mode)) 400
      "visibilityMode must be 'campaign' or 'players'" "BAD_REQUEST"
    >> pass (with_mode mode ps)

abbrev pub not_empty : Patch → Checked Patch
not_empty [] = deny 400 "no valid fields to update" "BAD_REQUEST"
not_empty (p ∷ ps) = pass (p ∷ ps)

abbrev pub read_body {ℓ} : {A : Type ℓ} → Option A → Checked A
read_body none = deny 400 "invalid request body" "BAD_REQUEST"
read_body (some body) = pass body

-- What `Update` writes, from the body's patch.
unfoldable pub check_patch : (String → String) → Option Patch → Checked Patch
check_patch clean sent = do
  body ← read_body sent
  ps ← not_empty (stripped body)
  check_mode clean (value_at "visibilityMode" ps) ps

abbrev pub is_touched : Option PatchValue → Bool
is_touched none = false
is_touched (some v) = true

unfoldable pub touches_visibility : Patch → Bool
touches_visibility ps =
    is_touched (value_at "visibilityMode" ps) || is_touched (value_at "visiblePlayerIds" ps)

-- The loop that allocates an id.
pub data Allocation : Type 0 where
  free : String → Allocation
  exhausted allocation_failed : Allocation

abbrev pub if_unused : {D : Type 0} → Fetched (Option D) → String → Allocation → Allocation
if_unused failed candidate rest = allocation_failed
if_unused (fetched none) candidate rest = free candidate
if_unused (fetched (some taken)) candidate rest = rest

abbrev pub try_id :
    {D : Type 0} → (String → Fetched (Option D)) → Option String → Allocation → Allocation
try_id get none rest = allocation_failed
try_id get (some candidate) rest = if_unused (get candidate) candidate rest

unfoldable pub find_free_id :
    {D : Type 0} → (ℕ → Option String) → (String → Fetched (Option D)) → ℕ → Allocation
find_free_id generated get zero = exhausted
find_free_id generated get (suc n) = try_id get (generated n) (find_free_id generated get n)

abbrev pub check_allocation : Allocation → Checked String
check_allocation (free id) = pass id
check_allocation exhausted = deny 500 "failed to allocate id" "INTERNAL_ERROR"
check_allocation allocation_failed = deny_internal

-- What the handlers need of one type of entry.
pub record Shelf (E : Type 0) : Type 1 where
  pub name : E → String
  pub id : E → String
  pub in_campaign : String → E → Bool
  pub visible : String → String → Bool → E → Bool
  pub check_content : E → Checked (Unit {0})
  pub visibility : E → String × List String
  pub with_visibility : String → List String → E → E
  pub stamped : (now : ℕ) → (campaign id user : String) → E → E
  pub touched : (now : ℕ) → E → E
  pub set : String → PatchValue → E → E
  pub remove_except :
      (players : Collection PlayerSheet) (now : ℕ) (campaign id : String)
      → List String
      → players.Db
      → players.Db
  pub remove_all :
      (players : Collection PlayerSheet) (now : ℕ) (campaign id : String) → players.Db → players.Db
  pub note_type : String
  pub only_dm_creates : String
  pub only_dm_edits : String
  pub only_dm_deletes : String
  pub not_found : String
  pub already_exists : String

unfoldable pub equipment_shelf :
    (String → PatchValue → CustomEquipment → CustomEquipment) → Shelf CustomEquipment
equipment_shelf set = record {
  name = λ e. e.name;
  id = λ e. e.id;
  in_campaign = of_campaign;
  visible = visible_to_player;
  check_content = λ e. deny_if (e.category == "") 400 "category is required" "BAD_REQUEST";
  visibility = λ e. (e.visibility_mode, e.visible_player_ids);
  with_visibility = λ mode xs e. record e { visibility_mode = mode; visible_player_ids = xs };
  stamped = λ now campaign id user e. record e {
    id = id;
    campaign_id = campaign;
    created_by = user;
    created_at = now;
    updated_at = now;
  };
  touched = λ now e. record e { updated_at = now };
  set = set;
  remove_except = λ players now campaign id allowed db.
      (remove_equipment_from_players_except players now campaign id allowed db).1;
  remove_all = λ players now campaign id db.
      (remove_equipment_from_all_inventories players now campaign id db).1;
  note_type = "item";
  only_dm_creates = "only the DM can create custom equipment directly; players submit a request";
  only_dm_edits = "only the DM can edit custom equipment";
  only_dm_deletes = "only the DM can delete custom equipment";
  not_found = "custom equipment not found";
  already_exists = "custom equipment already exists";
}

-- `body.Level < 0 || body.Level > 9`
abbrev pub bad_level : ℤ → Bool
bad_level (pos n) = ltb 9 n
bad_level (negsuc n) = true

unfoldable pub spell_shelf : (String → PatchValue → CustomSpell → CustomSpell) → Shelf CustomSpell
spell_shelf set = record {
  name = λ s. s.name;
  id = λ s. s.id;
  in_campaign = spell_of_campaign;
  visible = spell_visible_to_player;
  check_content =
      λ s. deny_if (bad_level s.level) 400 "level must be between 0 and 9" "BAD_REQUEST";
  visibility = λ s. (s.visibility_mode, s.visible_player_ids);
  with_visibility = λ mode xs s. record s { visibility_mode = mode; visible_player_ids = xs };
  stamped = λ now campaign id user s. record s {
    id = id;
    campaign_id = campaign;
    created_by = user;
    created_at = now;
    updated_at = now;
  };
  touched = λ now s. record s { updated_at = now };
  set = set;
  remove_except = λ players now campaign id allowed db.
      (remove_spell_from_players_except players now campaign id allowed db).1;
  remove_all =
      λ players now campaign id db. (remove_spell_from_all_players players now campaign id db).1;
  note_type = "spell";
  only_dm_creates = "only the DM can create custom spells directly; players submit a request";
  only_dm_edits = "only the DM can edit custom spells";
  only_dm_deletes = "only the DM can delete custom spells";
  not_found = "custom spell not found";
  already_exists = "custom spell already exists";
}

-- What `DeleteForEntry` of the players' notes reads.
pub record ContentNote : Type 0 where
  pub campaign_id : String
  pub target_type : String
  pub entry_id : String

unfoldable pub note_of : String → String → String → ContentNote → Bool
note_of campaign type id n =
    n.campaign_id == campaign && (n.target_type == type && n.entry_id == id)
