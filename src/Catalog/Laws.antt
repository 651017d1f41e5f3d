-- ===== src/Catalog/Laws.antt =====
-- Ids of custom entries, and who still carries an entry after a change of its visibility.
use Prim.Native.Nat.{◌<◌}
use Prim.Native.Char.{Char, code}
use Prim.Native.String.append
use Prim.Native.String.{◌++◌ as concat}
use rolebook_backend.Common.{
  ℕ, zero, suc, String, ◌≡◌, ◌≢◌, refl, sym, ◌∙◌, ap, Bool, true, false, ◌&&◌, ◌||◌, Option, none,
  some, ◌==◌, nat_eq, ltb, leb, ◌⊎◌, if◌then◌else◌, arith, Bool-cases, inl, inr, eq_iff,
}
use rolebook_backend.Http.{Fetched, fetched, failed}
use rolebook_backend.Catalog.{generate_id, allocate_id, if_free, try_candidate}

-- The codes of the letters a to z and of the digits 0 to 9.
abbrev pub is_plain : ℕ → Bool
is_plain n = leb 97 n && leb n 122 || leb 48 n && leb n 57

-- Lower-case letters, digits and hyphens.
abbrev pub is_slug : String → Bool
is_slug String.[] = true
is_slug (String.◌∷◌ c s) = (is_plain (code c) || nat_eq (code c) 45) && is_slug s

-- The lower-case letters and digits of a text, in order.
abbrev pub plain_of : String → String
plain_of String.[] = ""
plain_of (String.◌∷◌ c s) =
    let rest = plain_of s in if is_plain (code c) then String.◌∷◌ c rest else rest

abbrev is_named : String → Bool
is_named String.[] = false
is_named (String.◌∷◌ c s) = true

named_append : (s t : String) → is_named s ≡ true → is_named (concat s t) ≡ true
named_append String.[] t h = cc
named_append (String.◌∷◌ c s) t h = ap is_named (append.cons c s t)

named_not_empty : (s : String) → is_named s ≡ true → (s == "") ≡ false
named_not_empty s h = elim (Bool-cases (s == "")) [
  | inr f ↦ f
  | inl t ↦ let empty : true ≡ false = sym h ∙ ap is_named ((eq_iff s "").0 t) in cc
]

-- A generated id is not empty.
pub generate_id-is_named :
    (clean : String → String) (name : String) (suffix : Option String) (id : String)
    → generate_id clean name suffix ≡ some id
    → (id == "") ≡ false
unfolding generate_id
generate_id-is_named clean name none id e = cc
generate_id-is_named clean name (some suffix) id e =
    ap (λ o. elim o as (λ x. Bool) [ none ↦ false | some x ↦ x == "" ]) (sym e)
    ∙ named_not_empty _ (named_append _ _ (named_append _ _ (named_append "custom-" _ refl)))

-- An allocated id was not in use when it was read, and comes from one of the attempts.
pub allocate_id_fresh :
    {D : Type 0} (generated : ℕ → Option String) (get : String → Fetched (Option D)) (attempts : ℕ)
    (id : String)
    → allocate_id generated get attempts ≡ some id
    → (get id ≡ fetched none) × ((i : ℕ) × (i < attempts) × (generated i ≡ some id))
unfolding allocate_id
allocate_id_fresh generated get zero id e = cc
allocate_id_fresh {D} generated get (suc n) id e =
    attempt (generated n) refl (allocate_id_fresh generated get n id) e
  where
    read :
        (candidate : String)
        → generated n ≡ some candidate
        → (o : Fetched (Option D)) → get candidate ≡ o
        → (allocate_id generated get n ≡ some id
            → (get id ≡ fetched none) × ((i : ℕ) × (i < n) × (generated i ≡ some id)))
        → if_free o candidate (allocate_id generated get n) ≡ some id
        → (get id ≡ fetched none) × ((i : ℕ) × (i < suc n) × (generated i ≡ some id))
    read candidate g failed r before e = cc
    read candidate g (fetched none) r before e =
        let same : candidate ≡ id = cc in (ap get (sym same) ∙ r, (n, omega arith, g ∙ e))
    read candidate g (fetched (some taken)) r before e =
        let (free, (i, less, made)) = before e in (free, (i, omega arith, made))

    attempt :
        (o : Option String)
        → generated n ≡ o
        → (allocate_id generated get n ≡ some id
            → (get id ≡ fetched none) × ((i : ℕ) × (i < n) × (generated i ≡ some id)))
        → try_candidate get o (allocate_id generated get n) ≡ some id
        → (get id ≡ fetched none) × ((i : ℕ) × (i < suc n) × (generated i ≡ some id))
    attempt none g before e = cc
    attempt (some candidate) g before e = read candidate g (get candidate) refl before e

below : (i n : ℕ) → i < suc n → (i < n) ⊎ (i ≡ n)
below i n h = elim (Bool-cases (ltb i n)) [
  | inl t ↦ inl (ground arith)
  | inr f ↦ inr (ground arith)
]

-- An id is allocated where each attempt's read succeeds and some attempt's id is free.
pub allocate_id_found :
    {D : Type 0} (generated : ℕ → Option String) (get : String → Fetched (Option D)) (attempts : ℕ)
    (i : ℕ) (id : String)
    → ((j : ℕ) → (x : String) × (o : Option D) × (generated j ≡ some x) × (get x ≡ fetched o))
    → i < attempts
    → generated i ≡ some id
    → get id ≡ fetched none
    → allocate_id generated get attempts ≢ none
unfolding allocate_id
allocate_id_found generated get zero i id h less g free = omega arith
allocate_id_found {D} generated get (suc n) i id h less g free =
    let (x, o, made, read) = h n in
    λ e.
      last x o made read (λ l. allocate_id_found generated get n i id h l g free)
        (ap (λ r. if_free r x (allocate_id generated get n)) (sym read)
          ∙ ap (λ c. try_candidate get c (allocate_id generated get n)) (sym made)
          ∙ e)
  where
    differ :
        (x : String) (t : D)
        → generated n ≡ some x
        → get x ≡ fetched (some t)
        → i ≡ n
        → generated i ≡ some id
        → get id ≡ fetched none
        → ⊥
    differ x t made read e g free =
        let same : some x ≡ some id = sym made ∙ ap generated (sym e) ∙ g in
        let here : x ≡ id = cc in
        let both : fetched (some t) ≡ fetched none = sym read ∙ ap get here ∙ free in cc

    last :
        (x : String) (o : Option D)
        → generated n ≡ some x
        → get x ≡ fetched o
        → (i < n → allocate_id generated get n ≢ none)
        → if_free (fetched o) x (allocate_id generated get n) ≡ none
        → ⊥
    last x none made read before e = cc
    last x (some t) made read before e = elim (below i n less) [
      | inl l ↦ before l e
      | inr m ↦ differ x t made read m g free
    ]
