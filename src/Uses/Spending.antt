-- ===== src/Uses/Spending.antt =====
-- A spending does what the abstract counter does, where the collection answers and no other client
-- intervenes.
use rolebook_backend.Common.{
  ℕ, zero, suc, String, ◌≡◌, ◌≢◌, refl, sym, ◌∙◌, ap, true, false, Option, none, some, Bool-cases,
  inl, inr,
}
use mathlib.Core.Path.{subst}
use rolebook_backend.Http.{fetched}
use rolebook_backend.Documents.{Collection}
use rolebook_backend.Uses.{
  LimitedUse, UsesSheet, Used, done, refused, no_uses_left, Spent, spent, removed, has_use,
  at_first, without_use, first_use, last_of_one_time, can_spend, spend_one, decode_limited_use,
  update_limited_use, get_limited_use, after_pull, spend_limited_use,
}
use rolebook_backend.Uses.Counter.{
  spend_counter, is_last, has_more, spend_counter-removed, spend_counter-spent,
  spend_counter-refused, Answers, IsAlone, has_use-false, has_use-true, first_use-at_first, left_of,
  first_use-without_use, first_use-without_use_other, first_use-at_first_other,
}
use rolebook_backend.Uses.Accesses.{
  update_one_tested, update_tested, quiet, after_pull-removed, after_pull_missed, after_spend-spent,
  after_spend_missed, read_use,
}

-- What the player's uses are after the counter has counted.
abbrev pub IsLeft :
    (c : Collection UsesSheet) → String → UsesSheet → String → LimitedUse → c.Db → Type 0
IsLeft c player s id u db =
    (after : UsesSheet) × (c.stored db player ≡ some after)
    × (first_use id after.limited_uses ≡ left_of (spend_counter u) u)
    × ((k : String) → k ≢ id → first_use k after.limited_uses ≡ first_use k s.limited_uses)

module _ (c : Collection UsesSheet) (answers : Answers c) (now : ℕ) (player : String)
    (s : UsesSheet) where
  -- The answer is the counter's, and the stored uses are as the counter leaves them.
  IsCounted : String → LimitedUse → Used Spent × c.Db → Type 0
  IsCounted id u (answer, db) = (answer ≡ spend_counter u) × IsLeft c player s id u db

  counted :
      (id : String) (u : LimitedUse) (answer : Used Spent) (db : c.Db) (s' : UsesSheet)
      (p : Used Spent × c.Db)
      → p ≡ (answer, db)
      → spend_counter u ≡ answer
      → c.stored db player ≡ some s'
      → first_use id s'.limited_uses ≡ left_of answer u
      → ((k : String) → k ≢ id → first_use k s'.limited_uses ≡ first_use k s.limited_uses)
      → IsCounted id u p
  unfolding IsCounted
  counted id u answer db s' p e value here own others =
      subst (IsCounted id u) (sym e)
        (sym value, (s', here, own ∙ ap (λ r. left_of r u) (sym value), others))

  after_pull-spend_counter :
      (left : ℕ) (id : String) (u : LimitedUse) (again : Option (c.Db → Used Spent × c.Db))
      (db : c.Db)
      → c.stored db player ≡ some s
      → first_use id s.limited_uses ≡ some u
      → IsAlone id u s.limited_uses
      → IsCounted id u (
          after_pull c now (quiet c answers now player s) left player id again (
            c.update_one player
              (λ x. has_use (last_of_one_time id) x.limited_uses)
              (λ x. record { limited_uses = without_use id x.limited_uses; updated_at = now })
              db))
  unfolding update_limited_use get_limited_use decode_limited_use
  after_pull-spend_counter left id u again db here found alone = elim (Bool-cases (is_last u)) [
    | inl last ↦
        let (hit, gone) =
          update_one_tested c answers now player s
            (λ x. has_use (last_of_one_time id) x.limited_uses)
            (λ x. record { limited_uses = without_use id x.limited_uses; updated_at = now }) db true
            here (has_use-true id u is_last s.limited_uses found last) in
        counted id u (done removed) _ _ _
          (after_pull-removed c answers now player s left id again _ hit)
          (spend_counter-removed u last) gone (first_use-without_use id s.limited_uses)
          (λ k other. first_use-without_use_other id k s.limited_uses other)
    | inr more ↦
        let (missed, same) =
          update_one_tested c answers now player s
            (λ x. has_use (last_of_one_time id) x.limited_uses)
            (λ x. record { limited_uses = without_use id x.limited_uses; updated_at = now }) db
            false here (has_use-false id u is_last s.limited_uses alone more) in
        elim (Bool-cases (has_more u)) [
          | inl can ↦
              let (hit, less) =
                update_tested c answers now player s (λ x. has_use (can_spend id) x.limited_uses)
                  (λ x. record {
                    limited_uses = at_first (can_spend id) spend_one x.limited_uses;
                    updated_at = now;
                  })
                  _ true same (has_use-true id u has_more s.limited_uses found can) in
              let at = first_use-at_first id u has_more spend_one s.limited_uses found can refl in
              counted id u (done (spent (spend_one u))) _ _ _
                (after_pull_missed c answers now player s left id again _ missed
                  ∙ after_spend-spent c answers now player s left id again _ (spend_one u)
                      (ap (decode_limited_use id) hit ∙ ap fetched at))
                (spend_counter-spent u more can) less at
                (λ k other.
                  first_use-at_first_other id k has_more spend_one s.limited_uses (λ v. refl) other)
          | inr cannot ↦
              let (unspent, still) =
                update_tested c answers now player s (λ x. has_use (can_spend id) x.limited_uses)
                  (λ x. record {
                    limited_uses = at_first (can_spend id) spend_one x.limited_uses;
                    updated_at = now;
                  })
                  _ false same (has_use-false id u has_more s.limited_uses alone cannot) in
              let (none_left, value) = spend_counter-refused u more cannot in
              counted id u (refused no_uses_left) _ _ _
                (after_pull_missed c answers now player s left id again _ missed
                  ∙ after_spend_missed c answers now player s left id again _ u
                      (ap (decode_limited_use id) unspent)
                      (read_use c answers now player s id u _ still found) none_left)
                value still found (λ k other. refl)
        ]
  ]

-- Where the collection answers and no other client intervenes, spending a use of a stored player
-- answers what the counter does, with and without the retry, and leaves the use as the counter does
-- and the uses of other ids as they were.
pub spend_limited_use-spend_counter :
    (c : Collection UsesSheet) (now retries : ℕ) (player id : String) (db : c.Db) (s : UsesSheet)
    (u : LimitedUse)
    → Answers c
    → c.stored db player ≡ some s
    → first_use id s.limited_uses ≡ some u
    → IsAlone id u s.limited_uses
    → ((spend_limited_use c now (λ i j d. d) retries player id db).0 ≡ spend_counter u)
      × IsLeft c player s id u (spend_limited_use c now (λ i j d. d) retries player id db).1
unfolding spend_limited_use quiet IsCounted
spend_limited_use-spend_counter c now zero player id db s u answers here found alone =
    after_pull-spend_counter c answers now player s 0 id u none db here found alone
spend_limited_use-spend_counter c now (suc n) player id db s u answers here found alone =
    after_pull-spend_counter c answers now player s (suc n) id u
      (some (spend_limited_use c now (λ i j d. d) n player id)) db here found alone
