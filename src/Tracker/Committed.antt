-- ===== src/Tracker/Committed.antt =====
-- What `mutateWithRetry` does to the stored call.
use rolebook_backend.Common.{
  ℕ, zero, suc, ◌+◌, ◌<◌, String, ◌≡◌, refl, sym, ap, inl, inr, Option, none, some, ◌==◌, eq_iff,
  if◌then◌else◌, arith, Bool-cases,
}
use mathlib.Core.Path.{subst, subst₂}
use rolebook_backend.Http.{Fetched, fetched, failed, Checked, pass, deny, Reply, json, error, bare}
use rolebook_backend.Hub.{Hub}
use rolebook_backend.Initiative.{InitiativeCall, sync_turn_state}
use rolebook_backend.Tracker.Calls.{
  CallCollection, Update, updated, conflict, update_failed, get, update_with_version,
}
use rolebook_backend.Tracker.Versions.{update_with_version_updated, get_lem}
use rolebook_backend.Tracker.Loop.{
  wire_call, World, Round, Attempt, retry, answer, after_write, write_change, change_read, attempt,
  attempts, follow, mutate_with_retry,
}

module _ (m : CallCollection) where
  open m use {Db, stored}

  -- The call that an accepted change writes.
  abbrev pub written : Round m → InitiativeCall → InitiativeCall → InitiativeCall
  written round call changed =
      record (sync_turn_state (record changed { updated_at = round.updated_at })) {
        version = call.version + 1;
      }

  -- How an attempt that started with the documents `before` came to answer `wire` and to leave
  -- `after`: what was read was open, the change accepted it, the version was still the one that was
  -- read when the call was written, and nothing else was written.
  pub record Committed (avatars : Option (String → String)) (campaign : String) (round : Round m)
      (mutate : InitiativeCall → Checked InitiativeCall) (before : Db) (wire : InitiativeCall)
      (after : Db) : Type 0 where
    pub call : InitiativeCall
    pub changed : InitiativeCall
    pub old : InitiativeCall
    pub was_read : stored (round.before_read before) campaign ≡ some call
    pub opened : call.status ≡ "open"
    pub accepted : mutate call ≡ pass changed
    pub found :
        stored (round.before_write (round.before_read before)) changed.campaign_id ≡ some old
    pub unchanged : old.version ≡ call.version
    pub answered : wire ≡ wire_call avatars (written round call changed)
    pub stored_now :
        (k : String)
        → stored after k ≡ (
            if k == changed.campaign_id
            then some (written round call changed)
            else stored (round.before_write (round.before_read before)) k)

  module _ (avatars : Option (String → String)) (campaign : String) where
    -- What an attempt that answers a call has committed.
    abbrev CommitOf : Attempt m → Round m → (InitiativeCall → Checked InitiativeCall) → Db → Type 0
    CommitOf (answer (json status wire) w) round mutate before =
        (status ≡ 200) × Committed avatars campaign round mutate before wire w.db
    CommitOf _ round mutate before = Unit

    write_change-CommitOf :
        (round : Round m) (mutate : InitiativeCall → Checked InitiativeCall) (before : Db)
        (call changed : InitiativeCall) (hub : Hub InitiativeCall) (u : Update) (db : Db)
        → stored (round.before_read before) campaign ≡ some call
        → call.status ≡ "open"
        → mutate call ≡ pass changed
        → update_with_version m
            (sync_turn_state (record changed { updated_at = round.updated_at }))
            call.version
            (round.before_write (round.before_read before))
          ≡ (u, db)
        → CommitOf (after_write m avatars campaign hub u db) round mutate before
    unfolding sync_turn_state
    write_change-CommitOf round mutate before call changed hub conflict db r o a e = tt
    write_change-CommitOf round mutate before call changed hub update_failed db r o a e = tt
    write_change-CommitOf round mutate before call changed hub (updated d) db r o a e =
        let next = sync_turn_state (record changed { updated_at = round.updated_at }) in
        let mid = round.before_write (round.before_read before) in
        let (old, there, version, same, rest) =
          update_with_version_updated m next call.version mid d (ap (λ (p : Update × Db). p.0) e) in
        (
          refl,
          record {
            call = call;
            changed = changed;
            old = old;
            was_read = r;
            opened = o;
            accepted = a;
            found = there;
            unchanged = version;
            answered = ap (wire_call avatars) same;
            stored_now = λ k. rw (← same) (
                subst
                  (λ (x : Db).
                    stored x k ≡ (if k == changed.campaign_id then some d else stored mid k))
                  (ap (λ (p : Update × Db). p.1) e) (rest k));
          },
        )

    write_checked-CommitOf :
        (round : Round m) (mutate : InitiativeCall → Checked InitiativeCall) (before : Db)
        (hub : Hub InitiativeCall) (call : InitiativeCall) (changed : Checked InitiativeCall)
        → stored (round.before_read before) campaign ≡ some call
        → call.status ≡ "open"
        → mutate call ≡ changed
        → CommitOf
            (write_change m avatars campaign round call
              (record { db = round.before_read before; hub = hub })
              changed)
            round
            mutate
            before
    write_checked-CommitOf round mutate before hub call (deny status message code) r o a = tt
    write_checked-CommitOf round mutate before hub call (pass changed) r o a =
        write_change-CommitOf round mutate before call changed hub _ _ r o a refl

    change_read-CommitOf :
        (round : Round m) (mutate : InitiativeCall → Checked InitiativeCall) (before : Db)
        (hub : Hub InitiativeCall) (o : Fetched (Option InitiativeCall))
        → get m campaign (round.before_read before) ≡ o
        → CommitOf
            (change_read m avatars campaign round mutate
              (record { db = round.before_read before; hub = hub })
              o)
            round
            mutate
            before
    change_read-CommitOf round mutate before hub failed e = tt
    change_read-CommitOf round mutate before hub (fetched none) e = tt
    change_read-CommitOf round mutate before hub (fetched (some call)) e =
        elim (Bool-cases (call.status == "open")) [
          | inl is_open ↦ rw is_open (
              write_checked-CommitOf round mutate before hub call (mutate call)
                (sym (get_lem m campaign (round.before_read before) (some call) e))
                ((eq_iff call.status "open").0 is_open) refl)
          | inr other ↦ rw other tt
        ]

    attempt-CommitOf :
        (round : Round m) (mutate : InitiativeCall → Checked InitiativeCall) (w : World m)
        → CommitOf (attempt m avatars campaign round mutate w) round mutate w.db
    unfolding attempt
    attempt-CommitOf round mutate w =
        change_read-CommitOf round mutate w.db w.hub (get m campaign (round.before_read w.db)) refl

    -- Which attempt answered.
    abbrev CommittedBy :
        ℕ
        → (ℕ → Round m)
        → (ℕ → InitiativeCall → Checked InitiativeCall)
        → ℕ
        → InitiativeCall
        → Db
        → Type 0
    CommittedBy n rounds mutate status wire after =
        (status ≡ 200)
        × ((i : ℕ) × (before : Db) × (i < n)
            × Committed avatars campaign (rounds i) (mutate i) before wire after)

    follow-CommitOf :
        (n : ℕ) (rounds : ℕ → Round m) (mutate : ℕ → InitiativeCall → Checked InitiativeCall)
        (before : Db) (a : Attempt m) (go : World m → Reply InitiativeCall × World m) (status : ℕ)
        (wire : InitiativeCall) (w' : World m)
        → CommitOf a (rounds n) (mutate n) before
        → ((w : World m)
            → go w ≡ (json status wire, w')
            → CommittedBy n rounds mutate status wire w'.db)
        → follow m a go ≡ (json status wire, w')
        → CommittedBy (suc n) rounds mutate status wire w'.db
    follow-CommitOf n rounds mutate before (retry w) go status wire w' c ih e =
        let (ok, (i, start, lt, done)) = ih w e in (ok, (i, start, omega arith, done))
    follow-CommitOf n rounds mutate before (answer (json s c') w) go status wire w' (ok, done) ih
          e =
        let same_wire : c' ≡ wire = ground arith in
        let same_db : w.db ≡ w'.db = ap (λ (p : Reply InitiativeCall × World m). p.1.db) e in
        (
          ground arith,
          (
            n,
            before,
            omega arith,
            subst₂ (Committed avatars campaign (rounds n) (mutate n) before) same_wire same_db done,
          ),
        )
    follow-CommitOf n rounds mutate before (answer (error s x y) w) go status wire w' c ih e = cc
    follow-CommitOf n rounds mutate before (answer (bare s) w) go status wire w' c ih e = cc

    attempts-CommittedBy :
        (n : ℕ) (rounds : ℕ → Round m) (mutate : ℕ → InitiativeCall → Checked InitiativeCall)
        (w w' : World m) (status : ℕ) (wire : InitiativeCall)
        → attempts m n avatars campaign rounds mutate w ≡ (json status wire, w')
        → CommittedBy n rounds mutate status wire w'.db
    unfolding attempts
    attempts-CommittedBy zero rounds mutate w w' status wire e = cc
    attempts-CommittedBy (suc n) rounds mutate w w' status wire e =
        follow-CommitOf n rounds mutate w.db (attempt m avatars campaign (rounds n) (mutate n) w)
          (λ v. attempts m n avatars campaign rounds mutate v) status wire w'
          (attempt-CommitOf (rounds n) (mutate n) w)
          (λ v h. attempts-CommittedBy n rounds mutate v w' status wire h) e

    -- When `mutateWithRetry` answers a call, the status is 200 and one of the three attempts has
    -- committed it: it read an open call, the change accepted it, at the write the stored call still
    -- had the version that was read, and what was stored is the changed call, with its turns
    -- recomputed and the next version, under its key alone.
    pub mutate_with_retry-Committed :
        (rounds : ℕ → Round m) (mutate : ℕ → InitiativeCall → Checked InitiativeCall)
        (w w' : World m) (status : ℕ) (wire : InitiativeCall)
        → mutate_with_retry m avatars campaign rounds mutate w ≡ (json status wire, w')
        → (status ≡ 200)
          × ((i : ℕ) × (before : Db) × (i < 3)
              × Committed avatars campaign (rounds i) (mutate i) before wire w'.db)
    unfolding mutate_with_retry
    mutate_with_retry-Committed rounds mutate w w' status wire e =
        attempts-CommittedBy 3 rounds mutate w w' status wire e
