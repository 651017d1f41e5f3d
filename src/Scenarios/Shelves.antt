-- ===== src/Scenarios/Shelves.antt =====
-- Collections of documents in memory.
use rolebook_backend.Common.{
  String, ◌≡◌, refl, sym, Bool, true, false, Option, none, some, List, [], ◌∷◌, if◌then◌else◌,
  length, ◌⊎◌, inl, inr, All,
}
use mathlib.Core.Option
use mathlib.Core.Path.{subst}
use rolebook_backend.Http.{fetched}
use rolebook_backend.Documents.{
  selected, is_matched, changed, unless_matched, at, Inserted, inserted, duplicate, Collection,
}

pub fetched_inj : {A : Type 0} {a b : A} → fetched a ≡ fetched b → a ≡ b
fetched_inj e = cc

module _ {D : Type 0} where
  abbrev pub put_new : String → D → Option D → (String → Option D) → Inserted × (String → Option D)
  put_new id d none db = (inserted, at id (some d) db)
  put_new id d (some old) db = (duplicate, db)

  pub put_new_inserted :
      (id : String) (d : D) (db : String → Option D) (o : Option D)
      → (put_new id d o db).0 ≡ inserted
      → (o ≡ none) × ((k : String) → (put_new id d o db).1 k ≡ at id (some d) db k)
  put_new_inserted id d db none e = (refl, λ k. refl)
  put_new_inserted id d db (some old) e = cc

  pub put_new_stored :
      (id : String) (d : D) (db : String → Option D) (o : Option D)
      → ((k : String) → (put_new id d o db).1 k ≡ db k)
        ⊎ ((o ≡ none) × ((k : String) → (put_new id d o db).1 k ≡ at id (some d) db k))
  put_new_stored id d db none = inr (refl, λ k. refl)
  put_new_stored id d db (some old) = inl (λ k. refl)

  abbrev pub listed : (D → Bool) → (String → Option D) → List String → List D
  listed test db [] = []
  listed test db (id ∷ ids) =
      let rest = listed test db ids in
      elim (selected test (db id)) [ none ↦ rest | some d ↦ d ∷ rest ]

  listed_one :
      (test : D → Bool) (o : Option D) (rest : List D)
      → All (λ d. test d ≡ true) rest
      → All (λ d. test d ≡ true) (elim (selected test o) [ none ↦ rest | some d ↦ d ∷ rest ])
  listed_one test none rest h = h
  listed_one test (some d) rest h = tested (test d) refl
    where
      tested :
          (b : Bool)
          → test d ≡ b
          → All
              (λ x. test x ≡ true)
              (elim (if b then some d else none) [ none ↦ rest | some x ↦ x ∷ rest ])
      tested true e = (e, h)
      tested false e = h

  pub listed_pass :
      (test : D → Bool) (db : String → Option D) (ids : List String)
      → All (λ d. test d ≡ true) (listed test db ids)
  listed_pass test db [] = tt
  listed_pass test db (id ∷ ids) = listed_one test (db id) _ (listed_pass test db ids)

  abbrev pub first_of : List D → Option D
  first_of [] = none
  first_of (d ∷ ds) = some d

  pub first_of_pass :
      (test : D → Bool) (ds : List D) (d : D)
      → All (λ x. test x ≡ true) ds
      → first_of ds ≡ some d
      → test d ≡ true
  first_of_pass test [] d h e = cc
  first_of_pass test (x ∷ xs) d (p, h) e = cc

  -- A collection that lists the documents of the given ids.
  abbrev pub shelf : List String → Collection D
  shelf ids = record {
    Db = String → Option D;
    stored = λ db k. db k;
    find_one = λ id test db. fetched (selected test (db id));
    find_where = λ test db. fetched (first_of (listed test db ids));
    find_all = λ test db. fetched (listed test db ids);
    count_where = λ test db. fetched (length (listed test db ids));
    insert_one = λ id d db. put_new id d (db id) db;
    find_one_and_update = λ id test f db.
        (fetched (Option.map f (selected test (db id))), at id (changed test f (db id)) db);
    update_one = λ id test f db.
        (fetched (is_matched (selected test (db id))), at id (changed test f (db id)) db);
    delete_one = λ id test db. (fetched true, at id (unless_matched test (db id)) db);
    delete_many = λ test db. (fetched 0, λ k. unless_matched test (db k));
    update_many = λ test f db. (fetched 0, λ k. changed test f (db k));
    find_one_lem = λ id test db o e. sym (fetched_inj e);
    find_where_lem = λ test db d e.
        first_of_pass test (listed test db ids) d (listed_pass test db ids) (fetched_inj e);
    find_all_lem =
        λ test db ds e. subst (All (λ d. test d ≡ true)) (fetched_inj e) (listed_pass test db ids);
    insert_one_lem = λ id d db e. put_new_inserted id d db (db id) e;
    insert_one_stored = λ id d db. put_new_stored id d db (db id);
    find_one_and_update_lem = λ id test f db o e. (sym (fetched_inj e), λ k. refl);
    find_one_and_update_stored = λ id test f db. inr (λ k. refl);
    update_one_lem = λ id test f db b e. (sym (fetched_inj e), λ k. refl);
    update_one_stored = λ id test f db. inr (λ k. refl);
    delete_one_lem = λ id test db gone e k. refl;
    delete_one_stored = λ id test db. inr (λ k. refl);
    delete_many_lem = λ test db n e k. refl;
    update_many_lem = λ test f db n e k. refl;
  }
