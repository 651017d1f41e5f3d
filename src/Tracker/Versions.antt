-- ===== src/Tracker/Versions.antt =====
-- What the versioned write promises (`UpdateWithVersion`), and what `Resolve` does to a stored call.
use rolebook_backend.Common.{
  ℕ, ◌+◌, String, ◌≡◌, ◌≢◌, refl, ◌∙◌, Option, none, some, ◌==◌, if◌then◌else◌, arith,
}
use mathlib.Core.Option
use rolebook_backend.Http.{Fetched, fetched, failed}
use rolebook_backend.Initiative.{InitiativeCall}
use rolebook_backend.Tracker.Calls.{
  CallCollection, select, updated, conflict, update_result, by_id, by_version, get,
  update_with_version,
}

update_result_updated :
    (o : Fetched (Option InitiativeCall)) (c : InitiativeCall)
    → update_result o ≡ updated c
    → o ≡ fetched (some c)
update_result_updated failed c e = cc
update_result_updated (fetched none) c e = cc
update_result_updated (fetched (some d)) c e = ground arith

update_result_conflict :
    (o : Fetched (Option InitiativeCall)) → update_result o ≡ conflict → o ≡ fetched none
update_result_conflict failed e = cc
update_result_conflict (fetched none) e = refl
update_result_conflict (fetched (some d)) e = cc

select-some :
    (id : String) (v : ℕ) (o : Option InitiativeCall) (c d : InitiativeCall)
    → some d ≡ Option.map (λ _. c) (select (by_version id v) o)
    → (old : InitiativeCall) × (o ≡ some old) × (old.version ≡ v) × (d ≡ c)
select-some id v none c d e = cc
select-some id v (some old) c d e = (old, refl, ground arith, ground arith)

select-none :
    (id : String) (v : ℕ) (o : Option InitiativeCall) (c : InitiativeCall)
    → none ≡ Option.map (λ _. c) (select (by_version id v) o)
    → (old : InitiativeCall) → o ≡ some old
    → old.version ≢ v
select-none id v none c e old h same = cc
select-none id v (some d) c e old h same = ground arith

module _ (m : CallCollection) where
  open m use {Db, stored}

  -- A write that succeeds found the expected version under the call's key, and stored the call there
  -- with the next version; the other documents are as they were.
  pub update_with_version_updated :
      (c : InitiativeCall) (expected : ℕ) (db : Db) (d : InitiativeCall)
      → (update_with_version m c expected db).0 ≡ updated d
      → (old : InitiativeCall) × (stored db c.campaign_id ≡ some old)
        × (old.version ≡ expected)
        × (d ≡ record c { version = expected + 1 })
        × ((k : String)
            → stored (update_with_version m c expected db).1 k
              ≡ (if k == c.campaign_id then some d else stored db k))
  unfolding update_with_version
  update_with_version_updated c expected db d e =
      let f = by_version c.campaign_id expected in
      let next : InitiativeCall = record c { version = expected + 1 } in
      let done = update_result_updated (m.find_one_and_replace f next db).0 d e in
      let (after, rest) = m.find_one_and_replace_lem f next db (some d) done in
      let (old, there, version, same) =
        select-some c.campaign_id expected (stored db c.campaign_id) next d after in
      (old, there, version, same, rest)

  -- A write that reports a conflict found another version, or no document, and changed nothing.
  pub update_with_version_conflict :
      (c : InitiativeCall) (expected : ℕ) (db : Db)
      → (update_with_version m c expected db).0 ≡ conflict
      → ((old : InitiativeCall) → stored db c.campaign_id ≡ some old → old.version ≢ expected)
        × ((k : String) → stored (update_with_version m c expected db).1 k ≡ stored db k)
  unfolding update_with_version
  update_with_version_conflict c expected db e =
      let f = by_version c.campaign_id expected in
      let next : InitiativeCall = record c { version = expected + 1 } in
      let done = update_result_conflict (m.find_one_and_replace f next db).0 e in
      let (after, rest) = m.find_one_and_replace_lem f next db none done in
      (select-none c.campaign_id expected (stored db c.campaign_id) next after, rest)

  -- A read that succeeds returns the document under the key.
  pub get_lem :
      (campaign : String) (db : Db) (o : Option InitiativeCall)
      → get m campaign db ≡ fetched o
      → o ≡ stored db campaign
  unfolding get
  get_lem campaign db o e = m.find_one_lem (by_id campaign) db o e ∙ all (stored db campaign)
    where
      all : (o : Option InitiativeCall) → select (by_id campaign) o ≡ o
      all none = refl
      all (some c) = refl
