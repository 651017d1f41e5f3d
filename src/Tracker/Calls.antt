-- ===== src/Tracker/Calls.antt =====
-- internal/store/initiative.go over the driver's collection "initiative_calls". The collection is a
-- parameter: its operations with what the driver documents of the ones that succeed. Nothing is
-- assumed of an operation that reports a failure.
use rolebook_backend.Common.{
  ℕ, ◌+◌, String, ◌≡◌, Bool, true, ◌&&◌, Option, none, some, ◌==◌, nat_eq, if◌then◌else◌,
}
use mathlib.Core.Option
use rolebook_backend.Http.{Fetched, fetched, failed}
use rolebook_backend.Initiative.{InitiativeCall}

-- The filters {_id}, {_id, version} and {_id, status}.
pub record CallFilter : Type 0 where
  pub id : String
  pub version : Option ℕ
  pub status : Option String

abbrev version_fits : Option ℕ → ℕ → Bool
version_fits none v = true
version_fits (some n) v = nat_eq v n

abbrev status_fits : Option String → String → Bool
status_fits none s = true
status_fits (some t) s = s == t

-- A filter of equations on the document under its `_id`.
abbrev pub fits : CallFilter → InitiativeCall → Bool
fits f c = version_fits f.version c.version && status_fits f.status c.status

abbrev pub select : CallFilter → Option InitiativeCall → Option InitiativeCall
select f none = none
select f (some c) = if fits f c then some c else none

-- The `$set` of `Resolve`.
pub record CallSet : Type 0 where
  pub status : String
  pub updated_at : ℕ
  pub resolved_at : ℕ

abbrev pub set_fields : CallSet → InitiativeCall → InitiativeCall
set_fields s c = record c {
  status = s.status;
  updated_at = s.updated_at;
  resolved_at = some s.resolved_at;
}

-- The documents after a write that returned the document after it, or none.
abbrev pub put_after :
    Option InitiativeCall
    → String
    → (String → Option InitiativeCall)
    → (String → Option InitiativeCall)
put_after none id before k = before k
put_after (some c) id before k = if k == id then some c else before k

pub record CallCollection : Type 1 where
  pub Db : Type 0
  -- The document under an `_id`.
  pub stored : Db → String → Option InitiativeCall
  pub find_one : CallFilter → Db → Fetched (Option InitiativeCall)
  -- ReplaceOne with upsert.
  pub replace_one : CallFilter → InitiativeCall → Db → Fetched (Unit {0}) × Db
  -- FindOneAndReplace, FindOneAndUpdate, returning the document after.
  pub find_one_and_replace : CallFilter → InitiativeCall → Db → Fetched (Option InitiativeCall) × Db
  pub find_one_and_update : CallFilter → CallSet → Db → Fetched (Option InitiativeCall) × Db
  pub find_one_lem :
      (f : CallFilter) (db : Db) (o : Option InitiativeCall)
      → find_one f db ≡ fetched o
      → o ≡ select f (stored db f.id)
  pub replace_one_lem :
      (f : CallFilter) (c : InitiativeCall) (db : Db)
      → (replace_one f c db).0 ≡ fetched tt
      → (k : String) → stored (replace_one f c db).1 k ≡ (if k == f.id then some c else stored db k)
  pub find_one_and_replace_lem :
      (f : CallFilter) (c : InitiativeCall) (db : Db) (o : Option InitiativeCall)
      → (find_one_and_replace f c db).0 ≡ fetched o
      → (o ≡ Option.map (λ _. c) (select f (stored db f.id)))
        × ((k : String) → stored (find_one_and_replace f c db).1 k ≡ put_after o f.id (stored db) k)
  pub find_one_and_update_lem :
      (f : CallFilter) (s : CallSet) (db : Db) (o : Option InitiativeCall)
      → (find_one_and_update f s db).0 ≡ fetched o
      → (o ≡ Option.map (set_fields s) (select f (stored db f.id)))
        × ((k : String) → stored (find_one_and_update f s db).1 k ≡ put_after o f.id (stored db) k)

pub data Update : Type 0 where
  updated : InitiativeCall → Update
  conflict : Update
  update_failed : Update

abbrev pub update_result : Fetched (Option InitiativeCall) → Update
update_result failed = update_failed
update_result (fetched none) = conflict
update_result (fetched (some c)) = updated c

abbrev pub by_id : String → CallFilter
by_id id = record { id = id; version = none; status = none }

abbrev pub by_version : String → ℕ → CallFilter
by_version id v = record { id = id; version = some v; status = none }

abbrev pub by_status : String → String → CallFilter
by_status id s = record { id = id; version = none; status = some s }

module _ (m : CallCollection) where
  open m use {Db, find_one, replace_one, find_one_and_replace, find_one_and_update}

  unfoldable pub get : String → Db → Fetched (Option InitiativeCall)
  get campaign db = find_one (by_id campaign) db

  unfoldable pub start_replace : InitiativeCall → Db → Fetched (Unit {0}) × Db
  start_replace c db =
      replace_one (by_id c.campaign_id) (record c { version = 1; resolved_at = none }) db

  unfoldable pub update_with_version : InitiativeCall → ℕ → Db → Update × Db
  update_with_version c expected db =
      let (o, db') =
        find_one_and_replace (by_version c.campaign_id expected)
          (record c { version = expected + 1 }) db in
      (update_result o, db')

  abbrev pub resolve_result :
      String → Fetched (Option InitiativeCall) × Db → Fetched (Option InitiativeCall) × Db
  resolve_result campaign (failed, db) = (failed, db)
  resolve_result campaign (fetched (some c), db) = (fetched (some c), db)
  resolve_result campaign (fetched none, db) = (find_one (by_id campaign) db, db)

  -- `now` is the clock's reading.
  unfoldable pub resolve : String → ℕ → Db → Fetched (Option InitiativeCall) × Db
  resolve campaign now db = resolve_result campaign (
      find_one_and_update (by_status campaign "open")
        (record { status = "resolved"; updated_at = now; resolved_at = now }) db)
