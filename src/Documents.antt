-- ===== src/Documents.antt =====
-- What the stores ask of the MongoDB driver, which is not part of the repository: collections of
-- documents by `_id`. A filter is an `_id` and a test of the document's other fields, an update is its
-- effect on a document, and a write whose reply is an error may have been applied or not.
pub mod Laws
use rolebook_backend.Common.{
  ℕ, String, ◌≡◌, Bool, true, false, Option, none, some, List, ◌==◌, if◌then◌else◌, ◌⊎◌, All,
}
use mathlib.Core.Option
use rolebook_backend.Http.{Fetched, fetched, failed}

module _ {D : Type 0} where
  abbrev pub selected : (D → Bool) → Option D → Option D
  selected test none = none
  selected test (some d) = if test d then some d else none

  abbrev pub is_matched : Option D → Bool
  is_matched none = false
  is_matched (some d) = true

  abbrev pub changed : (D → Bool) → (D → D) → Option D → Option D
  changed test f none = none
  changed test f (some d) = some (if test d then f d else d)

  abbrev pub unless_matched : (D → Bool) → Option D → Option D
  unless_matched test none = none
  unless_matched test (some d) = if test d then none else some d

  abbrev pub at : String → Option D → (String → Option D) → String → Option D
  at id o before k = if k == id then o else before k

pub data Inserted : Type 0 where
  inserted duplicate insert_failed : Inserted

pub record Collection (D : Type 0) : Type 1 where
  pub Db : Type 0
  pub stored : Db → String → Option D
  pub find_one : String → (D → Bool) → Db → Fetched (Option D)
  pub find_where : (D → Bool) → Db → Fetched (Option D)
  pub find_all : (D → Bool) → Db → Fetched (List D)
  pub count_where : (D → Bool) → Db → Fetched ℕ
  pub insert_one : String → D → Db → Inserted × Db
  pub find_one_and_update : String → (D → Bool) → (D → D) → Db → Fetched (Option D) × Db
  pub update_one : String → (D → Bool) → (D → D) → Db → Fetched Bool × Db
  pub delete_one : String → (D → Bool) → Db → Fetched Bool × Db
  pub delete_many : (D → Bool) → Db → Fetched ℕ × Db
  pub update_many : (D → Bool) → (D → D) → Db → Fetched ℕ × Db
  pub find_one_lem :
      (id : String) (test : D → Bool) (db : Db) (o : Option D)
      → find_one id test db ≡ fetched o
      → o ≡ selected test (stored db id)
  pub find_where_lem :
      (test : D → Bool) (db : Db) (d : D) → find_where test db ≡ fetched (some d) → test d ≡ true
  pub find_all_lem :
      (test : D → Bool) (db : Db) (ds : List D)
      → find_all test db ≡ fetched ds
      → All (λ d. test d ≡ true) ds
  pub insert_one_lem :
      (id : String) (d : D) (db : Db)
      → (insert_one id d db).0 ≡ inserted
      → (stored db id ≡ none)
        × ((k : String) → stored (insert_one id d db).1 k ≡ at id (some d) (stored db) k)
  pub insert_one_stored :
      (id : String) (d : D) (db : Db)
      → ((k : String) → stored (insert_one id d db).1 k ≡ stored db k)
        ⊎ ((stored db id ≡ none)
            × ((k : String) → stored (insert_one id d db).1 k ≡ at id (some d) (stored db) k))
  pub find_one_and_update_lem :
      (id : String) (test : D → Bool) (f : D → D) (db : Db) (o : Option D)
      → (find_one_and_update id test f db).0 ≡ fetched o
      → (o ≡ Option.map f (selected test (stored db id)))
        × ((k : String)
            → stored (find_one_and_update id test f db).1 k
              ≡ at id (changed test f (stored db id)) (stored db) k)
  pub find_one_and_update_stored :
      (id : String) (test : D → Bool) (f : D → D) (db : Db)
      → ((k : String) → stored (find_one_and_update id test f db).1 k ≡ stored db k)
        ⊎ ((k : String)
            → stored (find_one_and_update id test f db).1 k
              ≡ at id (changed test f (stored db id)) (stored db) k)
  pub update_one_lem :
      (id : String) (test : D → Bool) (f : D → D) (db : Db) (matched : Bool)
      → (update_one id test f db).0 ≡ fetched matched
      → (matched ≡ is_matched (selected test (stored db id)))
        × ((k : String)
            → stored (update_one id test f db).1 k
              ≡ at id (changed test f (stored db id)) (stored db) k)
  pub update_one_stored :
      (id : String) (test : D → Bool) (f : D → D) (db : Db)
      → ((k : String) → stored (update_one id test f db).1 k ≡ stored db k)
        ⊎ ((k : String)
            → stored (update_one id test f db).1 k
              ≡ at id (changed test f (stored db id)) (stored db) k)
  pub delete_one_lem :
      (id : String) (test : D → Bool) (db : Db) (gone : Bool)
      → (delete_one id test db).0 ≡ fetched gone
      → (k : String)
      → stored (delete_one id test db).1 k
        ≡ at id (unless_matched test (stored db id)) (stored db) k
  pub delete_one_stored :
      (id : String) (test : D → Bool) (db : Db)
      → ((k : String) → stored (delete_one id test db).1 k ≡ stored db k)
        ⊎ ((k : String)
            → stored (delete_one id test db).1 k
              ≡ at id (unless_matched test (stored db id)) (stored db) k)
  pub delete_many_lem :
      (test : D → Bool) (db : Db) (n : ℕ)
      → (delete_many test db).0 ≡ fetched n
      → (k : String) → stored (delete_many test db).1 k ≡ unless_matched test (stored db k)
  pub update_many_lem :
      (test : D → Bool) (f : D → D) (db : Db) (n : ℕ)
      → (update_many test f db).0 ≡ fetched n
      → (k : String) → stored (update_many test f db).1 k ≡ changed test f (stored db k)
