-- ===== src/Catalog.antt =====
-- internal/model/custom_equipment.go and custom_spell.go with their stores: the custom entries of a
-- campaign. A float64 is given by its bits, a time by its nanoseconds, and `$set` by its effect.
pub mod Stores
pub mod Laws
pub mod Cascade
pub mod Entries
pub mod Handlers
pub mod Guarded
use Prim.Native.Char.{code}
use Prim.Native.String.{◌++◌ as concat}
use rolebook_backend.Common.{
  ℕ, zero, suc, String, Bool, true, false, not, ◌&&◌, ◌||◌, Option, none, some, List, [], ◌==◌, leb,
  nat_eq, if◌then◌else◌,
}
use rolebook_backend.Common.Int.{ℤ}
use rolebook_backend.Http.{Fetched, fetched, failed}
use rolebook_backend.Documents.{Collection, Inserted}

pub record CustomEquipment : Type 0 where
  pub id : String
  pub campaign_id : String
  pub created_by : String
  pub created_at : ℕ
  pub updated_at : ℕ
  pub name : String
  pub category : String
  pub tags : List String
  pub notes : String
  pub image_uri : String
  pub visibility_mode : String
  pub visible_player_ids : List String
  pub damage : String
  pub damage_type : String
  pub weapon_type : String
  pub properties : List String
  pub attack_roll_bonus : Option ℤ
  pub weight : Option ℕ
  pub armor_class : Option ℤ
  pub armor_bonus : Option ℤ
  pub shield_bonus : Option ℤ
  pub armor_type : String
  pub strength_requirement : Option ℤ
  pub stealth_disadvantage : Option Bool
  pub compatible_with : Option String
  pub effect_summary : String
  pub cost : Option ℕ
  pub currency : String

pub record CustomSpell : Type 0 where
  pub id : String
  pub campaign_id : String
  pub created_by : String
  pub created_at : ℕ
  pub updated_at : ℕ
  pub name : String
  pub level : ℤ
  pub school : String
  pub casting_time : String
  pub range : String
  pub components : List String
  pub material : String
  pub duration : String
  pub description : String
  pub is_ritual : Bool
  pub source : String
  pub image_uri : String
  pub classes : List String
  pub concentration : Bool
  pub damage : String
  pub damage_type : String
  pub saving_throw_ability : String
  pub visibility_mode : String
  pub visible_player_ids : List String

abbrev pub of_campaign : String → CustomEquipment → Bool
of_campaign campaign e = e.campaign_id == campaign

abbrev pub spell_of_campaign : String → CustomSpell → Bool
spell_of_campaign campaign s = s.campaign_id == campaign

-- The characters that the pattern [^a-z0-9]+ leaves.
abbrev pub is_slug_code : ℕ → Bool
is_slug_code c = leb 97 c && leb c 122 || leb 48 c && leb c 57

-- `ReplaceAllString(lower, "-")`, then `strings.Trim(_, "-")`: a run of other characters is one
-- hyphen where a kept character stands on both sides. `started` says that one has been written, and
-- `gap` that a run is open.
unfoldable pub hyphenate : (started gap : Bool) → String → String
hyphenate started gap String.[] = ""
hyphenate started gap (String.◌∷◌ c s) =
    let open_run = hyphenate started true s in
    let next = String.◌∷◌ c (hyphenate true false s) in
    if is_slug_code (code c) then (if started && gap then concat "-" next else next) else open_run

-- `clean` is `strings.ToLower(strings.TrimSpace(s))`.
unfoldable pub slugify : (String → String) → String → String
slugify clean s = hyphenate false false (clean s)

-- `suffix` is the six hexadecimal digits of three random bytes, `none` where there are none.
unfoldable pub generate_id : (String → String) → String → Option String → Option String
generate_id clean name none = none
generate_id clean name (some suffix) =
    let slug = slugify clean name in
    some (concat (concat (concat "custom-" (if slug == "" then "item" else slug)) "-") suffix)

abbrev pub if_free : {D : Type 0} → Fetched (Option D) → String → Option String → Option String
if_free failed candidate rest = none
if_free (fetched none) candidate rest = some candidate
if_free (fetched (some taken)) candidate rest = rest

abbrev pub try_candidate :
    {D : Type 0} → (String → Fetched (Option D)) → Option String → Option String → Option String
try_candidate get none rest = none
try_candidate get (some candidate) rest = if_free (get candidate) candidate rest

-- The loops of `allocateRequestID`, `allocateCustomEquipmentID` and `allocateCustomSpellID`: `attempts`
-- are left, `generated` gives the result of `GenerateID` in each, and `get` reads an id.
unfoldable pub allocate_id :
    {D : Type 0} → (ℕ → Option String) → (String → Fetched (Option D)) → ℕ → Option String
allocate_id generated get zero = none
allocate_id generated get (suc n) = try_candidate get (generated n) (allocate_id generated get n)

abbrev pub max_attempts : ℕ
max_attempts = 3
