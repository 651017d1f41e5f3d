-- ===== src/Tracker/Timely.antt =====
-- When the first attempt of `mutateWithRetry` goes through, and what a `Resolve` that falls between
-- its read and its write comes to.
use rolebook_backend.Common.{
  ℕ, ◌+◌, String, ◌≡◌, ◌∙◌, ap, Bool, Option, some, ◌==◌, eq_iff, if◌then◌else◌, arith,
}
use mathlib.Core.Option
use mathlib.Core.Path.{◌≡⟨◌⟩◌, ◌∎}
use rolebook_backend.Http.{fetched, Checked, pass, json}
use rolebook_backend.Hub.{publish}
use rolebook_backend.Initiative.{InitiativeCall, sync_turn_state}
use rolebook_backend.Tracker.Calls.{
  CallCollection, CallFilter, CallSet, select, put_after, by_id, by_version, Update, updated,
  update_result, get, update_with_version,
}
use rolebook_backend.Tracker.Versions.{get_lem}
use rolebook_backend.Tracker.Loop.{
  wire_call, World, Round, answer, attempt, change_read, write_change, after_write, not_open,
}
use rolebook_backend.Tracker.Committed.{written}

-- A database that answers: no operation reports a failure.
pub record IsUp (m : CallCollection) : Type 0 where
  pub find_up :
      (f : CallFilter) (db : m.Db) → (o : Option InitiativeCall) × (m.find_one f db ≡ fetched o)
  pub replace_up :
      (f : CallFilter) (c : InitiativeCall) (db : m.Db)
      → (o : Option InitiativeCall) × ((m.find_one_and_replace f c db).0 ≡ fetched o)
  pub update_up :
      (f : CallFilter) (s : CallSet) (db : m.Db)
      → (o : Option InitiativeCall) × ((m.find_one_and_update f s db).0 ≡ fetched o)

select_same :
    (id : String) (v : ℕ) (old c : InitiativeCall)
    → old.version ≡ v
    → Option.map (λ _. c) (select (by_version id v) (some old)) ≡ some c
select_same id v old c e = ground arith

module _ (m : CallCollection) (up : IsUp m) where
  open m use {Db, stored}

  get_up :
      (campaign : String) (db : Db) (c : InitiativeCall)
      → stored db campaign ≡ some c
      → get m campaign db ≡ fetched (some c)
  get_up campaign db c e =
      let (o, found) = up.find_up (by_id campaign) db in
      unfold get in (found ∙ ap fetched (get_lem m campaign db o (unfold get in found) ∙ e))

  update_with_version_up :
      (next old : InitiativeCall) (expected : ℕ) (db : Db)
      → stored db next.campaign_id ≡ some old
      → old.version ≡ expected
      → ((update_with_version m next expected db).0
          ≡ updated (record next { version = expected + 1 }))
        × ((k : String)
            → stored (update_with_version m next expected db).1 k ≡ (
                if k == next.campaign_id
                then some (record next { version = expected + 1 })
                else stored db k))
  unfolding update_with_version
  update_with_version_up next old expected db there same =
      let f = by_version next.campaign_id expected in
      let d : InitiativeCall = record next { version = expected + 1 } in
      let (o, done) = up.replace_up f d db in
      let (after, rest) = m.find_one_and_replace_lem f d db o done in
      let is_d : o ≡ some d = after ∙ rw there (select_same next.campaign_id expected old d same) in
      (
        ap update_result (done ∙ ap fetched is_d),
        λ k.
            rest k
            ∙ ap (λ (a : Option InitiativeCall). put_after a next.campaign_id (stored db) k) is_d,
      )

  module _ (avatars : Option (String → String)) (campaign : String) (round : Round m)
      (mutate : InitiativeCall → Checked InitiativeCall) (w : World m)
      (call changed old : InitiativeCall)
      (was_read : stored (round.before_read w.db) campaign ≡ some call)
      (opened : call.status ≡ "open") (accepted : mutate call ≡ pass changed)
      (key : changed.campaign_id ≡ campaign)
      (found : stored (round.before_write (round.before_read w.db)) campaign ≡ some old)
      (unchanged : old.version ≡ call.version) where
    abbrev pub next_of : InitiativeCall
    next_of = sync_turn_state (record changed { updated_at = round.updated_at })

    abbrev pub db_after : Db
    db_after =
        (update_with_version m next_of call.version (round.before_write (round.before_read w.db))).1

    pub attempt_timely :
        attempt m avatars campaign round mutate w
        ≡ answer (json 200 (wire_call avatars (written m round call changed))) (record {
          db = db_after;
          hub = publish campaign (wire_call avatars (written m round call changed)) w.hub;
        })
    unfolding attempt sync_turn_state
    attempt_timely =
        let mid = round.before_write (round.before_read w.db) in
        let there : stored mid next_of.campaign_id ≡ some old = rw key found in
        let u = (update_with_version_up next_of old call.version mid there unchanged).0 in
        change_read m avatars campaign round mutate (record w { db = round.before_read w.db })
          (get m campaign (round.before_read w.db))
        ≡⟨ ap
            (change_read m avatars campaign round mutate (record w { db = round.before_read w.db }))
            (get_up campaign (round.before_read w.db) call was_read) ⟩
          change_read m avatars campaign round mutate (record w { db = round.before_read w.db })
            (fetched (some call))
        ≡⟨ ap
            (λ (b : Bool).
              if b
              then write_change m avatars campaign round call
                  (record w { db = round.before_read w.db }) (mutate call)
              else answer (not_open m) (record w { db = round.before_read w.db }))
            ((eq_iff call.status "open").1 opened) ⟩
          write_change m avatars campaign round call (record w { db = round.before_read w.db })
            (mutate call)
        ≡⟨ ap
            (write_change m avatars campaign round call (record w { db = round.before_read w.db }))
            accepted ⟩
          write_change m avatars campaign round call (record w { db = round.before_read w.db })
            (pass changed)
        ≡⟨ ap (λ (x : Update). after_write m avatars campaign w.hub x db_after) u ⟩
          answer (json 200 (wire_call avatars (written m round call changed)))
            (record {
              db = db_after;
              hub = publish campaign (wire_call avatars (written m round call changed)) w.hub;
            }) ∎

    pub stored_timely :
        (k : String)
        → stored db_after k ≡ (
            if k == campaign
            then some (written m round call changed)
            else stored (round.before_write (round.before_read w.db)) k)
    unfolding sync_turn_state
    stored_timely k =
        let mid = round.before_write (round.before_read w.db) in
        let there : stored mid next_of.campaign_id ≡ some old = rw key found in
        rw (← key) ((update_with_version_up next_of old call.version mid there unchanged).1 k)
