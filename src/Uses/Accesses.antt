-- ===== src/Uses/Accesses.antt =====
-- What the accesses of a spending answer and leave, where the collection answers.
use rolebook_backend.Common.{
  ℕ, String, ◌≡◌, refl, ◌∙◌, ap, Bool, true, false, Option, none, some, ltb, if◌then◌else◌,
}
use mathlib.Core.Option
use rolebook_backend.Http.{Fetched, fetched, failed}
use rolebook_backend.Documents.{Collection, selected, changed, is_matched}
use rolebook_backend.Documents.Laws.{at_same}
use rolebook_backend.Uses.{
  LimitedUse, UsesSheet, Used, done, refused, no_uses_left, Spent, spent, removed, has_use,
  at_first, first_use, with_id, can_spend, spend_one, decode_limited_use, update_limited_use,
  get_limited_use, after_pull, after_spend, after_misses,
}
use rolebook_backend.Uses.Counter.{Answers, has_use-first_use}

module _ (c : Collection UsesSheet) (answers : Answers c) (now : ℕ) (player : String)
    (s : UsesSheet) where
  -- A write of the player whose filter is tested on the sheet.
  pub update_one_tested :
      (test : UsesSheet → Bool) (f : UsesSheet → UsesSheet) (db : c.Db) (b : Bool)
      → c.stored db player ≡ some s
      → test s ≡ b
      → ((c.update_one player test f db).0 ≡ fetched b)
        × (c.stored (c.update_one player test f db).1 player ≡ some (if b then f s else s))
  update_one_tested test f db b here e =
      let (matched, reply) = answers.update_one player test f db in
      let (result, put) = c.update_one_lem player test f db matched reply in
      (
        reply
            ∙ ap fetched (
                result
                ∙ ap (λ o. is_matched (selected test o)) here
                ∙ ap (λ (x : Bool). is_matched (if x then some s else none)) e
                ∙ tested b),
        put player
            ∙ at_same player (changed test f (c.stored db player)) (c.stored db)
            ∙ ap (changed test f) here
            ∙ ap (λ (x : Bool). some (if x then f s else s)) e,
      )
    where
      tested : (b : Bool) → is_matched {D = UsesSheet} (if b then some s else none) ≡ b
      tested true = refl
      tested false = refl

  pub update_tested :
      (test : UsesSheet → Bool) (f : UsesSheet → UsesSheet) (db : c.Db) (b : Bool)
      → c.stored db player ≡ some s
      → test s ≡ b
      → ((c.find_one_and_update player test f db).0 ≡ fetched (if b then some (f s) else none))
        × (c.stored (c.find_one_and_update player test f db).1 player ≡ some (if b then f s else s))
  update_tested test f db b here e =
      let (o, reply) = answers.find_one_and_update player test f db in
      let (result, put) = c.find_one_and_update_lem player test f db o reply in
      (
        reply
            ∙ ap fetched (
                result
                ∙ ap (λ x. Option.map f (selected test x)) here
                ∙ ap (λ (x : Bool). Option.map f (if x then some s else none)) e
                ∙ tested b),
        put player
            ∙ at_same player (changed test f (c.stored db player)) (c.stored db)
            ∙ ap (changed test f) here
            ∙ ap (λ (x : Bool). some (if x then f s else s)) e,
      )
    where
      tested :
          (b : Bool) → Option.map f (if b then some s else none) ≡ (if b then some (f s) else none)
      tested true = refl
      tested false = refl

  unfoldable pub quiet : ℕ → ℕ → c.Db → c.Db
  quiet i j db = db

  pub after_pull-removed :
      (left : ℕ) (id : String) (again : Option (c.Db → Used Spent × c.Db)) (x : Fetched Bool × c.Db)
      → x.0 ≡ fetched true
      → after_pull c now quiet left player id again x ≡ (done removed, x.1)
  after_pull-removed left id again (failed, db) e = cc
  after_pull-removed left id again (fetched true, db) e = refl
  after_pull-removed left id again (fetched false, db) e = cc

  pub after_pull_missed :
      (left : ℕ) (id : String) (again : Option (c.Db → Used Spent × c.Db)) (x : Fetched Bool × c.Db)
      → x.0 ≡ fetched false
      → after_pull c now quiet left player id again x
        ≡ after_spend c now quiet left player id again (
            update_limited_use c now player
              (has_use (can_spend id))
              (at_first (can_spend id) spend_one)
              id
              x.1)
  unfolding quiet
  after_pull_missed left id again (failed, db) e = cc
  after_pull_missed left id again (fetched true, db) e = cc
  after_pull_missed left id again (fetched false, db) e = refl

  pub after_spend-spent :
      (left : ℕ) (id : String) (again : Option (c.Db → Used Spent × c.Db))
      (x : Fetched (Option LimitedUse) × c.Db) (v : LimitedUse)
      → x.0 ≡ fetched (some v)
      → after_spend c now quiet left player id again x ≡ (done (spent v), x.1)
  after_spend-spent left id again (failed, db) v e = cc
  after_spend-spent left id again (fetched none, db) v e = cc
  after_spend-spent left id again (fetched (some w), db) v e = ap (λ y. (taken y, db)) e
    where
      taken : Fetched (Option LimitedUse) → Used Spent
      taken failed = refused no_uses_left
      taken (fetched none) = refused no_uses_left
      taken (fetched (some y)) = done (spent y)

  pub after_spend_missed :
      (left : ℕ) (id : String) (again : Option (c.Db → Used Spent × c.Db))
      (x : Fetched (Option LimitedUse) × c.Db) (cur : LimitedUse)
      → x.0 ≡ fetched none
      → get_limited_use c now player id x.1 ≡ fetched (some cur)
      → ltb 0 cur.remaining ≡ false
      → after_spend c now quiet left player id again x ≡ (refused no_uses_left, x.1)
  unfolding quiet
  after_spend_missed left id again (failed, db) cur e r z = cc
  after_spend_missed left id again (fetched (some w), db) cur e r z = cc
  after_spend_missed left id again (fetched none, db) cur e r z =
      ap (λ o. after_misses c now again o db) r ∙ ended again
    where
      ended :
          (g : Option (c.Db → Used Spent × c.Db))
          → after_misses c now g (fetched (some cur)) db ≡ (refused no_uses_left, db)
      ended none = refl
      ended (some f) =
          ap
            (λ (b : Bool). elim b as (λ x. Used Spent × c.Db) [
              | true ↦ f db
              | false ↦ (refused no_uses_left, db)
            ])
            z

  pub read_use :
      (id : String) (u : LimitedUse) (db : c.Db)
      → c.stored db player ≡ some s
      → first_use id s.limited_uses ≡ some u
      → get_limited_use c now player id db ≡ fetched (some u)
  unfolding get_limited_use decode_limited_use
  read_use id u db here found =
      let test : UsesSheet → Bool = λ x. has_use (with_id id) x.limited_uses in
      let (o, reply) = answers.find_one player test db in
      let hit : test s ≡ true = has_use-first_use id u s.limited_uses found in
      let result : o ≡ some s =
        c.find_one_lem player test db o reply
        ∙ ap (selected test) here
        ∙ ap (λ (b : Bool). if b then some s else none) hit in
      ap (decode_limited_use id) (reply ∙ ap fetched result) ∙ ap fetched found
