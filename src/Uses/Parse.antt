-- ===== src/Uses/Parse.antt =====
-- The bodies of internal/handler/limited_uses.go. `trim` is `strings.TrimSpace`; a body is a function
-- from its keys, and a number is an integer or not.
use Prim.Native.String.{count as rune_count}
use rolebook_backend.Common.{
  ℕ, String, Bool, true, false, ◌||◌, Option, none, some, ◌==◌, ltb, if◌then◌else◌,
}
use rolebook_backend.Common.Int.{ℤ, pos, negsuc}
use rolebook_backend.Http.{Checked, pass, deny, deny_if, ◌>>=◌, ◌>>◌}
use rolebook_backend.Uses.{
  LimitedUse, LimitedUsePatch, limited_use_name_max, limited_use_note_max, limited_use_max_uses,
}

pub data JsonValue : Type 0 where
  text : String → JsonValue
  whole : ℤ → JsonValue
  flag : Bool → JsonValue
  fraction other : JsonValue

abbrev pub bad_request {ℓ} : {A : Type ℓ} → String → Checked A
bad_request message = deny 400 message "BAD_REQUEST"

abbrev pub Body : Type 0
Body = String → Option JsonValue

module _ (trim : String → String) where
  unfoldable pub parse_limited_use_name : JsonValue → Checked String
  parse_limited_use_name (text s) =
      if trim s == "" || ltb limited_use_name_max (rune_count (trim s))
      then bad_request "name must be 1-60 characters"
      else pass (trim s)
  parse_limited_use_name (whole n) = bad_request "name must be a string"
  parse_limited_use_name (flag b) = bad_request "name must be a string"
  parse_limited_use_name fraction = bad_request "name must be a string"
  parse_limited_use_name other = bad_request "name must be a string"

  unfoldable pub parse_limited_use_note : JsonValue → Checked String
  parse_limited_use_note (text s) =
      if ltb limited_use_note_max (rune_count (trim s))
      then bad_request "note must be at most 200 characters"
      else pass (trim s)
  parse_limited_use_note (whole n) = bad_request "note must be a string"
  parse_limited_use_note (flag b) = bad_request "note must be a string"
  parse_limited_use_note fraction = bad_request "note must be a string"
  parse_limited_use_note other = bad_request "note must be a string"

unfoldable pub parse_limited_use_max : JsonValue → Checked ℕ
parse_limited_use_max (whole (pos n)) =
    if ltb n 1 || ltb limited_use_max_uses n
    then bad_request "max must be an integer from 1 to 99"
    else pass n
parse_limited_use_max (whole (negsuc n)) = bad_request "max must be an integer from 1 to 99"
parse_limited_use_max (text s) = bad_request "max must be an integer from 1 to 99"
parse_limited_use_max (flag b) = bad_request "max must be an integer from 1 to 99"
parse_limited_use_max fraction = bad_request "max must be an integer from 1 to 99"
parse_limited_use_max other = bad_request "max must be an integer from 1 to 99"

unfoldable pub parse_limited_use_resets : JsonValue → Checked Bool
parse_limited_use_resets (flag b) = pass b
parse_limited_use_resets (text s) = bad_request "resets must be a boolean"
parse_limited_use_resets (whole n) = bad_request "resets must be a boolean"
parse_limited_use_resets fraction = bad_request "resets must be a boolean"
parse_limited_use_resets other = bad_request "resets must be a boolean"

abbrev pub required : String → Option JsonValue → Checked JsonValue
required message none = bad_request message
required message (some v) = pass v

abbrev pub note_or_empty : (JsonValue → Checked String) → Option JsonValue → Checked String
note_or_empty parse none = pass ""
note_or_empty parse (some v) = parse v

abbrev pub optional {ℓ} :
    {A : Type ℓ} → (JsonValue → Checked A) → Option JsonValue → Checked (Option A)
optional parse none = pass none
optional parse (some v) = parse v >>= λ a. pass (some a)

abbrev pub nothing_patched : LimitedUsePatch → Bool
nothing_patched p = elim p.name [
  | some a ↦ false
  | none ↦ elim p.note [
    | some a ↦ false
    | none ↦ elim p.max [ some a ↦ false | none ↦ elim p.resets [ some a ↦ false | none ↦ true ] ]
  ]
]

module _ (trim : String → String) where
  -- The id is the caller's, `uuid.NewString()`.
  unfoldable pub parse_limited_use_create : String → Body → Checked LimitedUse
  parse_limited_use_create id body = do
    raw_name ← required "name is required" (body "name")
    name ← parse_limited_use_name trim raw_name
    note ← note_or_empty (parse_limited_use_note trim) (body "note")
    raw_max ← required "max is required" (body "max")
    max ← parse_limited_use_max raw_max
    raw_resets ← required "resets is required" (body "resets")
    resets ← parse_limited_use_resets raw_resets
    pass (record { id = id; name = name; note = note; max = max; remaining = max; resets = resets })

  unfoldable pub parse_limited_use_patch : Body → Checked LimitedUsePatch
  parse_limited_use_patch body = do
    name ← optional (parse_limited_use_name trim) (body "name")
    note ← optional (parse_limited_use_note trim) (body "note")
    max ← optional parse_limited_use_max (body "max")
    resets ← optional parse_limited_use_resets (body "resets")
    let p : LimitedUsePatch = record { name = name; note = note; max = max; resets = resets }
    deny_if (nothing_patched p) 400 "no valid fields to update" "BAD_REQUEST"
    pass p
