-- ===== src/Initiative/Rotation.antt =====
-- Moving the current turn to the front (`rotateIDsToFront`).
use rolebook_backend.Common.{
  ℕ, zero, suc, ◌+◌, String, ◌≡◌, refl, ◌∙◌, ◌≢◌, inl, inr, true, false, List, [], ◌∷◌, Option,
  none, some, Bool-cases, Option-cases, arith, take, drop, count, contains, SameItems, count-append,
  eq_iff, str_eq_self, str_eq-false, ◌==◌,
}
use rolebook_backend.Initiative.{index_of, rotate_at, rotate_ids_to_front, first_or_empty}

count-take-drop :
    (s : String) (n : ℕ) (xs : List String) → count s (drop n xs) + count s (take n xs) ≡ count s xs
count-take-drop s zero xs = omega arith
count-take-drop s (suc n) [] = omega arith
count-take-drop s (suc n) (x ∷ xs) = ground (arith, count-take-drop s n xs)

rotate_at-SameItems : (ids : List String) (i : Option ℕ) → SameItems (rotate_at ids i) ids
rotate_at-SameItems ids none s = refl
rotate_at-SameItems ids (some zero) s = refl
rotate_at-SameItems ids (some (suc i)) s =
    count-append s (drop (suc i) ids) (take (suc i) ids) ∙ count-take-drop s (suc i) ids

-- Rotation neither drops nor adds an id.
pub rotate_ids_to_front-SameItems :
    (ids : List String) (active : String) → SameItems (rotate_ids_to_front ids active) ids
unfolding rotate_ids_to_front
rotate_ids_to_front-SameItems ids active s = elim (Bool-cases (active == "")) [
  | inl e ↦ rw e refl
  | inr e ↦ rw e (rotate_at-SameItems ids (index_of active ids) s)
]

-- The id at the front stays there.
pub rotate_ids_to_front_head :
    (x : String) (xs : List String) → rotate_ids_to_front (x ∷ xs) x ≡ x ∷ xs
unfolding rotate_ids_to_front
rotate_ids_to_front_head x xs = ground (arith, str_eq_self x)

-- Where an id is found, the rest of the list starts with it.
drop-index_of :
    (s : String) (xs : List String) (i : ℕ)
    → index_of s xs ≡ some i
    → (ys : List String) × (drop i xs ≡ s ∷ ys)
drop-index_of s [] i e = cc
drop-index_of s (x ∷ xs) i e = elim (Bool-cases (x == s)) [
  | inl hit ↦ (xs, ground (arith, eq_iff x s))
  | inr miss ↦ elim (Option-cases (index_of s xs)) [
    | inl lost ↦ absurd (ground arith)
    | inr (j, found) ↦ let (ys, d) = drop-index_of s xs j found in (ys, ground arith)
  ]
]

index_of-none : (s : String) (xs : List String) → index_of s xs ≡ none → contains xs s ≡ false
index_of-none s [] e = refl
index_of-none s (x ∷ xs) e = ground (arith, index_of-none s xs)

first-rotate_at :
    (s : String) (ids : List String) (i : Option ℕ)
    → index_of s ids ≡ i
    → contains ids s ≡ true
    → first_or_empty (rotate_at ids i) ≡ s
first-rotate_at s ids none e h = cc (index_of-none s ids e)
first-rotate_at s ids (some zero) e h = let (ys, d) = drop-index_of s ids 0 e in rw d refl
first-rotate_at s ids (some (suc i)) e h = let (ys, d) = drop-index_of s ids (suc i) e in rw d refl

-- An id that takes part comes to the front.
pub first-rotate_ids_to_front :
    (ids : List String) (active : String)
    → contains ids active ≡ true
    → active ≢ ""
    → first_or_empty (rotate_ids_to_front ids active) ≡ active
unfolding rotate_ids_to_front
first-rotate_ids_to_front ids active h ne =
    rw (str_eq-false active "" ne) (first-rotate_at active ids (index_of active ids) refl h)
