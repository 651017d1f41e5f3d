-- ===== src/Common/Lists.antt =====
-- Lists measured by native numbers and searched by Boolean tests, and lists of text keys up to order.
use Prim.Native.Nat.{ℕ, zero, suc, ◌+◌, ◌≤◌, ◌<◌}
use Prim.Native.String.{String}
use mathlib.Core.Path.{◌≡◌, refl}
use mathlib.Core.Bool.{Bool, true, false, ◌||◌, ◌&&◌}
use mathlib.Core.List.{List, [], ◌∷◌, ◌++◌}
use native.Mathlib.Omega.{arith}
use text.Mathlib.Text.{◌==◌}
use text.Mathlib.TextEquality.{eq_iff}
use rolebook_backend.Common.Tests.{if◌then◌else◌, str_eq_self, Bool-cases}

module _ {ℓ} {A : Type ℓ} where
  abbrev pub length : List A → ℕ
  length [] = 0
  length (x ∷ xs) = suc (length xs)

  abbrev pub take : ℕ → List A → List A
  take zero xs = []
  take (suc n) [] = []
  take (suc n) (x ∷ xs) = x ∷ take n xs

  abbrev pub drop : ℕ → List A → List A
  drop zero xs = xs
  drop (suc n) [] = []
  drop (suc n) (x ∷ xs) = drop n xs

  -- The elements that pass a test, in order.
  abbrev pub filter : (A → Bool) → List A → List A
  filter p [] = []
  filter p (x ∷ xs) = let rest = filter p xs in if p x then x ∷ rest else rest

  pub length-append : (xs ys : List A) → length (xs ++ ys) ≡ length xs + length ys
  length-append [] ys = omega arith
  length-append (x ∷ xs) ys = omega (arith, length-append xs ys)

-- How often a key stands in a list.
abbrev pub count : String → List String → ℕ
count s [] = 0
count s (x ∷ xs) = let rest = count s xs in if x == s then suc rest else rest

abbrev pub contains : List String → String → Bool
contains [] s = false
contains (x ∷ xs) s = x == s || contains xs s

-- Two lists hold the same keys, each as often.
abbrev pub SameItems : List String → List String → Type 0
SameItems xs ys = (s : String) → count s xs ≡ count s ys

-- No key stands twice.
abbrev pub IsDistinct : List String → Type 0
IsDistinct xs = (s : String) → count s xs ≤ 1

abbrev pub All {ℓ κ} : {A : Type ℓ} → (A → Type κ) → List A → Type κ
All P [] = Unit
All P (x ∷ xs) = P x × All P xs

pub count-append : (s : String) (xs ys : List String) → count s (xs ++ ys) ≡ count s xs + count s ys
count-append s [] ys = omega arith
count-append s (x ∷ xs) ys = ground (arith, count-append s xs ys)

pub contains-append :
    (s : String) (xs ys : List String) → contains (xs ++ ys) s ≡ (contains xs s || contains ys s)
contains-append s [] ys = refl
contains-append s (x ∷ xs) ys = ground (arith, contains-append s xs ys)

pub count-filter :
    (s : String) (p : String → Bool) (xs : List String)
    → count s (filter p xs) ≡ (if p s then count s xs else 0)
count-filter s p [] = ground arith
count-filter s p (x ∷ xs) = ground (arith, count-filter s p xs, eq_iff x s)

pub contains-count : (s : String) (xs : List String) → contains xs s ≡ true → 0 < count s xs
contains-count s [] h = ground arith
contains-count s (x ∷ xs) h = ground (arith, contains-count s xs)

pub not-contains-count : (s : String) (xs : List String) → contains xs s ≡ false → count s xs ≡ 0
not-contains-count s [] h = refl
not-contains-count s (x ∷ xs) h = ground (arith, not-contains-count s xs)

pub contains_of_count : (s : String) (xs : List String) → 0 < count s xs → contains xs s ≡ true
contains_of_count s xs h = ground (arith, Bool-cases (contains xs s), not-contains-count s xs)

pub contains_head : (s : String) (xs : List String) → contains (s ∷ xs) s ≡ true
contains_head s xs = ground (arith, str_eq_self s)

pub contains-filter :
    (s : String) (p : String → Bool) (xs : List String)
    → contains (filter p xs) s ≡ (p s && contains xs s)
contains-filter s p [] = ground arith
contains-filter s p (x ∷ xs) = ground (arith, contains-filter s p xs, eq_iff x s)

-- A test that every key of the list passes keeps the list.
pub filter_all :
    (p : String → Bool) (xs : List String)
    → ((s : String) → contains xs s ≡ true → p s ≡ true)
    → filter p xs ≡ xs
filter_all p [] h = refl
filter_all p (x ∷ xs) h =
    ground (arith, h x (contains_head x xs), filter_all p xs (λ s c. h s (ground (arith, c))))

-- A test that no key of the list passes leaves nothing.
pub filter_none :
    (p : String → Bool) (xs : List String)
    → ((s : String) → contains xs s ≡ true → p s ≡ false)
    → filter p xs ≡ []
filter_none p [] h = refl
filter_none p (x ∷ xs) h =
    ground (arith, h x (contains_head x xs), filter_none p xs (λ s c. h s (ground (arith, c))))

pub contains_of_SameItems :
    (xs ys : List String) → SameItems xs ys → (s : String) → contains xs s ≡ contains ys s
contains_of_SameItems xs ys h s = ground (
  arith,
  h s,
  contains-count s xs,
  not-contains-count s xs,
  contains-count s ys,
  not-contains-count s ys,
)
