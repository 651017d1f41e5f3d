-- ===== src/Uses/Keeps.antt =====
-- The store calls of one access keep the limited uses sound.
use Prim.Native.Nat.{◌≤◌, ◌<◌}
use rolebook_backend.Common.{
  ℕ, String, ◌≡◌, Bool, true, Option, none, some, List, [], ◌∷◌, ◌++◌, length, length-append, ltb,
  All, arith,
}
use rolebook_backend.Http.{Fetched, fetched, failed}
use rolebook_backend.Documents.{Collection}
use rolebook_backend.Documents.Laws.{Holds, find_one_and_update-Holds, update_one-Holds}
use rolebook_backend.Uses.{
  LimitedUse, LimitedUsePatch, UsesSheet, limited_use_max_uses, limited_use_max_count, has_use,
  at_first, without_use, with_id, patched, update_limited_use, after_add, add_limited_use,
  change_limited_use, remove_limited_use,
}
use rolebook_backend.Uses.Laws.{
  IsUse, IsSound, IsPatch, at_first-All, length-at_first, without_use-All, length-without_use,
  All-append, patched-IsUse,
}

module _ (c : Collection UsesSheet) (now : ℕ) where
  -- An update of the uses that keeps sound sheets sound keeps every stored one so.
  pub update_limited_use-Holds :
      (player : String) (test : List LimitedUse → Bool) (f : List LimitedUse → List LimitedUse)
      (id : String) (db : c.Db)
      → ((us : List LimitedUse)
          → test us ≡ true
          → All IsUse us × (length us ≤ limited_use_max_count)
          → All IsUse (f us) × (length (f us) ≤ limited_use_max_count))
      → Holds c IsSound db
      → Holds c IsSound (update_limited_use c now player test f id db).1
  unfolding update_limited_use
  update_limited_use-Holds player test f id db h all =
      find_one_and_update-Holds c IsSound player (λ s. test s.limited_uses)
        (λ s. record { limited_uses = f s.limited_uses; updated_at = now }) db
        (λ s e sound. h s.limited_uses e sound) all

  pub at_first-Sound :
      (test : LimitedUse → Bool) (f : LimitedUse → LimitedUse)
      → ((u : LimitedUse) → test u ≡ true → IsUse u → IsUse (f u))
      → (us : List LimitedUse) → All IsUse us × (length us ≤ limited_use_max_count)
      → All IsUse (at_first test f us) × (length (at_first test f us) ≤ limited_use_max_count)
  at_first-Sound test f h us (a, l) =
      (at_first-All test f h us a, omega (arith, length-at_first test f us))

  pub remove_Holds :
      (player id : String) (test : UsesSheet → Bool) (db : c.Db)
      → Holds c IsSound db
      → Holds c IsSound
          (c.update_one player test
            (λ s. record { limited_uses = without_use id s.limited_uses; updated_at = now })
            db).1
  remove_Holds player id test db all =
      update_one-Holds c IsSound player test
        (λ s. record { limited_uses = without_use id s.limited_uses; updated_at = now }) db
        (λ s e (a, l). (
          without_use-All IsUse id s.limited_uses a,
          omega (arith, length-without_use id s.limited_uses, l),
        ))
        all

  pub change_limited_use-Holds :
      (player id : String) (p : LimitedUsePatch) (db : c.Db)
      → IsPatch p
      → Holds c IsSound db
      → Holds c IsSound (change_limited_use c now player id p db).1
  unfolding change_limited_use
  change_limited_use-Holds player id p db ok all =
      update_limited_use-Holds player (has_use (with_id id)) (at_first (with_id id) (patched p)) id
        db (λ us e. at_first-Sound (with_id id) (patched p) (λ u t. patched-IsUse p u ok) us) all

  pub remove_limited_use-Holds :
      (player id : String) (db : c.Db)
      → Holds c IsSound db
      → Holds c IsSound (remove_limited_use c now player id db).1
  unfolding remove_limited_use
  remove_limited_use-Holds player id db all =
      remove_Holds player id (λ s. has_use (with_id id) s.limited_uses) db all

  module _ (others : ℕ → ℕ → c.Db → c.Db)
      (stable : (i j : ℕ) (db : c.Db) → Holds c IsSound db → Holds c IsSound (others i j db)) where
    pub add_limited_use-Holds :
        (player : String) (lu : LimitedUse) (db : c.Db)
        → 1 ≤ lu.max
        → lu.max ≤ limited_use_max_uses
        → Holds c IsSound db
        → Holds c IsSound (add_limited_use c now others player lu db).1
    unfolding add_limited_use
    add_limited_use-Holds player lu db low high all = added _ (
        update_limited_use-Holds player (λ us. ltb (length us) limited_use_max_count)
          (λ us. us ++ record lu { remaining = lu.max } ∷ []) lu.id (others 0 0 db)
          (λ us e (a, l). (
            All-append IsUse us (record lu { remaining = lu.max } ∷ []) a
                ((low, high, omega arith), tt),
            omega (arith, length-append us (record lu { remaining = lu.max } ∷ []), below _ e),
          ))
          (stable 0 0 db all))
      where
        below : (n : ℕ) → ltb n limited_use_max_count ≡ true → n < limited_use_max_count
        below n e = ground arith

        added :
            (written : Fetched (Option LimitedUse) × c.Db)
            → Holds c IsSound written.1
            → Holds c IsSound (after_add c now others player written).1
        added (failed, db1) h = h
        added (fetched (some u), db1) h = h
        added (fetched none, db1) h = stable 0 1 db1 h
