-- ===== src/Uses/Laws.antt =====
-- What every store call keeps of the limited uses, whatever other clients do in between.
use Prim.Native.Nat.{◌≤◌}
use rolebook_backend.Common.{
  ℕ, String, ◌≡◌, refl, Bool, true, false, Option, none, some, List, [], ◌∷◌, ◌++◌, length, ◌==◌,
  if◌then◌else◌, All, arith,
}
use rolebook_backend.Uses.{
  LimitedUse, LimitedUsePatch, UsesSheet, limited_use_max_uses, limited_use_max_count, done,
  at_first, without_use, patched, clamped, or_old, unchanged_use, one_more, refill,
}

-- A use has 1 to 99 uses, of which no more than all remain.
abbrev pub IsUse : LimitedUse → Type 0
IsUse u = (1 ≤ u.max) × (u.max ≤ limited_use_max_uses) × (u.remaining ≤ u.max)

-- A player has at most 50 such abilities.
abbrev pub IsSound : UsesSheet → Type 0
IsSound s = All IsUse s.limited_uses × (length s.limited_uses ≤ limited_use_max_count)

abbrev pub IsPatch : LimitedUsePatch → Type 0
IsPatch p = (1 ≤ or_old p.max 1) × (or_old p.max 1 ≤ limited_use_max_uses)

pub at_first-All :
    {P : LimitedUse → Type 0} (test : LimitedUse → Bool) (f : LimitedUse → LimitedUse)
    → ((u : LimitedUse) → test u ≡ true → P u → P (f u))
    → (us : List LimitedUse) → All P us
    → All P (at_first test f us)
at_first-All test f h [] a = tt
at_first-All {P} test f h (u ∷ us) (p, a) = here (test u) refl (at_first-All test f h us a)
  where
    here :
        (b : Bool)
        → test u ≡ b
        → All P (at_first test f us)
        → All P (if b then f u ∷ us else u ∷ at_first test f us)
    here true e rest = (h u e p, a)
    here false e rest = (p, rest)

pub length-at_first :
    (test : LimitedUse → Bool) (f : LimitedUse → LimitedUse) (us : List LimitedUse)
    → length (at_first test f us) ≡ length us
length-at_first test f [] = refl
length-at_first test f (u ∷ us) = ground (arith, length-at_first test f us)

pub without_use-All :
    (P : LimitedUse → Type 0) (id : String) (us : List LimitedUse)
    → All P us
    → All P (without_use id us)
without_use-All P id [] a = tt
without_use-All P id (u ∷ us) (p, a) = here (u.id == id) (without_use-All P id us a)
  where
    here :
        (b : Bool)
        → All P (without_use id us)
        → All P (if b then without_use id us else u ∷ without_use id us)
    here true rest = rest
    here false rest = (p, rest)

pub length-without_use :
    (id : String) (us : List LimitedUse) → length (without_use id us) ≤ length us
length-without_use id [] = omega arith
length-without_use id (u ∷ us) = ground (arith, length-without_use id us)

pub All-append :
    (P : LimitedUse → Type 0) (us vs : List LimitedUse) → All P us → All P vs → All P (us ++ vs)
All-append P [] vs a b = b
All-append P (u ∷ us) vs (p, a) b = (p, All-append P us vs a b)

pub patched-IsUse :
    (p : LimitedUsePatch) (u : LimitedUse) → IsPatch p → IsUse u → IsUse (patched p u)
unfolding patched
patched-IsUse p u (low, high) (one, most, rest) = by_max p.max low high
  where
    by_max :
        (o : Option ℕ)
        → 1 ≤ or_old o 1
        → or_old o 1 ≤ limited_use_max_uses
        → (1 ≤ or_old o u.max)
          × (or_old o u.max ≤ limited_use_max_uses)
          × (clamped o u.remaining ≤ or_old o u.max)
    by_max none l m = (one, most, rest)
    by_max (some n) l m = (l, m, ground arith)

pub one_more_le : (cur : LimitedUse) (n : ℕ) → one_more cur ≡ done n → n ≤ cur.max
one_more_le cur n e = ground arith

pub refill_le : (cur : LimitedUse) (n : ℕ) → refill cur ≡ done n → n ≤ cur.max
refill_le cur n e = ground arith

pub unchanged_max :
    (id : String) (extra : LimitedUse → Bool) (cur u : LimitedUse)
    → unchanged_use id extra cur u ≡ true
    → u.max ≡ cur.max
unchanged_max id extra cur u e = ground arith
