-- ===== src/Uses/Retries.antt =====
-- The store calls that read, write and retry keep the limited uses sound, whatever other clients do
-- between their accesses.
use Prim.Native.Nat.{◌≤◌}
use rolebook_backend.Common.{
  ℕ, zero, suc, String, ◌≡◌, refl, Bool, true, false, Option, none, some, ltb, arith,
}
use rolebook_backend.Http.{Fetched, fetched, failed}
use rolebook_backend.Documents.{Collection}
use rolebook_backend.Documents.Laws.{IsOf, Holds}
use rolebook_backend.Uses.{
  LimitedUse, UsesSheet, Used, done, refused, has_use, at_first, no_uses_left, can_spend, spend_one,
  last_of_one_time, unchanged_use, set_remaining, Spent, update_limited_use, get_limited_use,
  after_misses, after_spend, after_pull, spend_limited_use, after_cas, write_next, cas_read,
  cas_limited_use_with, one_more, refill, cas_attempts, restore_limited_use, reset_limited_use,
}
use rolebook_backend.Uses.Laws.{IsSound, one_more_le, refill_le, unchanged_max}
use rolebook_backend.Uses.Keeps.{update_limited_use-Holds, at_first-Sound, remove_Holds}

module _ (c : Collection UsesSheet) (now : ℕ) where
  module _ (others : ℕ → ℕ → c.Db → c.Db)
      (stable : (i j : ℕ) (db : c.Db) → Holds c IsSound db → Holds c IsSound (others i j db)) where
    spend_write_Holds :
        (player id : String) (db : c.Db)
        → Holds c IsSound db
        → Holds c IsSound
            (update_limited_use c now player
              (has_use (can_spend id))
              (at_first (can_spend id) spend_one)
              id
              db).1
    spend_write_Holds player id db all =
        update_limited_use-Holds c now player (has_use (can_spend id))
          (at_first (can_spend id) spend_one) id db
          (λ us e.
            at_first-Sound c now (can_spend id) spend_one
              (λ u t (one, most, rest). (one, most, omega (arith, rest))) us)
          all

    abbrev Keeping : (c.Db → Used Spent × c.Db) → Type 0
    Keeping f = (db : c.Db) → Holds c IsSound db → Holds c IsSound (f db).1

    after_spend-Holds :
        (left : ℕ) (player id : String) (again : Option (c.Db → Used Spent × c.Db))
        (written : Fetched (Option LimitedUse) × c.Db)
        → IsOf Keeping again
        → Holds c IsSound written.1
        → Holds c IsSound (after_spend c now others left player id again written).1
    after_spend-Holds left player id again (failed, db) h all = all
    after_spend-Holds left player id again (fetched (some u), db) h all = all
    after_spend-Holds left player id again (fetched none, db) h all =
        missed again (get_limited_use c now player id (others left 2 db)) h (stable left 2 db all)
      where
        retried :
            (f : c.Db → Used Spent × c.Db) (b : Bool) (db : c.Db)
            → ((d : c.Db) → Holds c IsSound d → Holds c IsSound (f d).1)
            → Holds c IsSound db
            → Holds c IsSound
                (elim b as (λ x. Used Spent × c.Db) [
                  | true ↦ f db
                  | false ↦ (refused no_uses_left, db)
                ]).1
        retried f true db g held = g db held
        retried f false db g held = held

        missed :
            (again : Option (c.Db → Used Spent × c.Db)) (read : Fetched (Option LimitedUse))
            → IsOf Keeping again
            → Holds c IsSound (others left 2 db)
            → Holds c IsSound (after_misses c now again read (others left 2 db)).1
        missed again failed g held = held
        missed again (fetched none) g held = held
        missed none (fetched (some cur)) g held = held
        missed (some f) (fetched (some cur)) g held =
            retried f (ltb 0 cur.remaining) (others left 2 db) g held

    after_pull-Holds :
        (left : ℕ) (player id : String) (again : Option (c.Db → Used Spent × c.Db))
        (written : Fetched Bool × c.Db)
        → IsOf Keeping again
        → Holds c IsSound written.1
        → Holds c IsSound (after_pull c now others left player id again written).1
    after_pull-Holds left player id again (failed, db) h all = all
    after_pull-Holds left player id again (fetched true, db) h all = all
    after_pull-Holds left player id again (fetched false, db) h all =
        after_spend-Holds left player id again _ h
          (spend_write_Holds player id (others left 1 db) (stable left 1 db all))

    pub spend_limited_use-Holds :
        (retries : ℕ) (player id : String) (db : c.Db)
        → Holds c IsSound db
        → Holds c IsSound (spend_limited_use c now others retries player id db).1
    unfolding spend_limited_use
    spend_limited_use-Holds zero player id db all = after_pull-Holds 0 player id none _ tt (
        remove_Holds c now player id (λ s. has_use (last_of_one_time id) s.limited_uses)
          (others 0 0 db) (stable 0 0 db all))
    spend_limited_use-Holds (suc n) player id db all =
        after_pull-Holds (suc n) player id (some (spend_limited_use c now others n player id)) _
          (λ d held. spend_limited_use-Holds n player id d held)
          (remove_Holds c now player id (λ s. has_use (last_of_one_time id) s.limited_uses)
            (others (suc n) 0 db) (stable (suc n) 0 db all))

    -- What a compare-and-set writes fits the maximum that it compares.
    abbrev IsFitting : (LimitedUse → Used ℕ) → Type 0
    IsFitting next = (cur : LimitedUse) (n : ℕ) → next cur ≡ done n → n ≤ cur.max

    cas_write_Holds :
        (extra : LimitedUse → Bool) (player id : String) (cur : LimitedUse) (n : ℕ) (db : c.Db)
        → n ≤ cur.max
        → Holds c IsSound db
        → Holds c IsSound
            (update_limited_use c now player
              (has_use (unchanged_use id extra cur))
              (at_first (unchanged_use id extra cur) (set_remaining n))
              id
              db).1
    cas_write_Holds extra player id cur n db fits all =
        update_limited_use-Holds c now player (has_use (unchanged_use id extra cur))
          (at_first (unchanged_use id extra cur) (set_remaining n)) id db
          (λ us e.
            at_first-Sound c now (unchanged_use id extra cur) (set_remaining n)
              (λ u t (one, most, rest).
                (one, most, omega (arith, fits, unchanged_max id extra cur u t)))
              us)
          all

    cas_limited_use_with-Holds :
        (extra : LimitedUse → Bool) (next : LimitedUse → Used ℕ) (attempts : ℕ) (player id : String)
        (db : c.Db)
        → IsFitting next
        → Holds c IsSound db
        → Holds c IsSound (cas_limited_use_with c now others extra next attempts player id db).1
    unfolding cas_limited_use_with
    cas_limited_use_with-Holds extra next zero player id db fits all = all
    cas_limited_use_with-Holds extra next (suc n) player id db fits all =
        read (get_limited_use c now player id (others n 0 db)) (stable n 0 db all)
          (λ d held. cas_limited_use_with-Holds extra next n player id d fits held)
      where
        again : c.Db → Used LimitedUse × c.Db
        again = cas_limited_use_with c now others extra next n player id

        after :
            (written : Fetched (Option LimitedUse) × c.Db)
            → Holds c IsSound written.1
            → ((d : c.Db) → Holds c IsSound d → Holds c IsSound (again d).1)
            → Holds c IsSound (after_cas c now again written).1
        after (failed, d) held g = held
        after (fetched (some u), d) held g = held
        after (fetched none, d) held g = g d held

        write :
            (cur : LimitedUse) (o : Used ℕ)
            → next cur ≡ o
            → Holds c IsSound (others n 0 db)
            → ((d : c.Db) → Holds c IsSound d → Holds c IsSound (again d).1)
            → Holds c IsSound
                (write_next c now extra player id again cur o (others n 0 db) (others n 1)).1
        write cur (refused e) q held g = held
        write cur (done m) q held g =
            after _
              (cas_write_Holds extra player id cur m (others n 1 (others n 0 db)) (fits cur m q)
                (stable n 1 (others n 0 db) held))
              g

        read :
            (o : Fetched (Option LimitedUse))
            → Holds c IsSound (others n 0 db)
            → ((d : c.Db) → Holds c IsSound d → Holds c IsSound (again d).1)
            → Holds c IsSound
                (cas_read c now extra next player id again o (others n 0 db) (others n 1)).1
        read failed held g = held
        read (fetched none) held g = held
        read (fetched (some cur)) held g = write cur (next cur) refl held g

    pub restore_limited_use-Holds :
        (player id : String) (db : c.Db)
        → Holds c IsSound db
        → Holds c IsSound (restore_limited_use c now others player id db).1
    unfolding restore_limited_use
    restore_limited_use-Holds player id db all =
        cas_limited_use_with-Holds (λ u. true) one_more cas_attempts player id db one_more_le all

    pub reset_limited_use-Holds :
        (player id : String) (db : c.Db)
        → Holds c IsSound db
        → Holds c IsSound (reset_limited_use c now others player id db).1
    unfolding reset_limited_use
    reset_limited_use-Holds player id db all =
        cas_limited_use_with-Holds (λ u. u.resets) refill cas_attempts player id db refill_le all
