-- ===== src/Tracker/Races.antt =====
-- `Resolve` and `Start` beside `mutateWithRetry`: neither raises the version that the loop goes by.
use rolebook_backend.Common.{
  ℕ, ◌+◌, String, ◌≡◌, refl, sym, ◌∙◌, ap, Option, none, some, ◌==◌, eq_iff, str_eq_self,
  if◌then◌else◌, arith,
}
use mathlib.Core.Option
use rolebook_backend.Http.{fetched, Checked, pass, json}
use rolebook_backend.Initiative.{InitiativeCall, sync_turn_state}
use rolebook_backend.Tracker.Calls.{
  CallCollection, CallSet, select, put_after, by_id, by_status, set_fields, resolve, resolve_result,
  start_replace,
}
use rolebook_backend.Tracker.Loop.{wire_call, World, Round, attempts, mutate_with_retry, follow}
use rolebook_backend.Tracker.Committed.{written}
use rolebook_backend.Tracker.Timely.{IsUp, attempt_timely, stored_timely}

abbrev pub resolution : ℕ → CallSet
resolution now = record { status = "resolved"; updated_at = now; resolved_at = now }

select_open :
    (id : String) (s : CallSet) (c : InitiativeCall)
    → c.status ≡ "open"
    → Option.map (set_fields s) (select (by_status id "open") (some c)) ≡ some (set_fields s c)
select_open id s c opened = ground (arith, eq_iff c.status "open")

put_after_key :
    (id : String) (c : InitiativeCall) (before : String → Option InitiativeCall)
    → put_after (some c) id before id ≡ some c
put_after_key id c before = ground (arith, str_eq_self id)

key_of : (id : String) (a b : Option InitiativeCall) → (if id == id then a else b) ≡ a
key_of id a b = ground (arith, str_eq_self id)

-- An attempt that meets a `Resolve`, and one that meets a `Start`, between its read and its write.
abbrev pub beside_resolve : (m : CallCollection) → String → ℕ → ℕ → Round m
beside_resolve m campaign now at = record {
  before_read = λ db. db;
  before_write = λ db. (resolve m campaign now db).1;
  updated_at = at;
}

abbrev pub beside_start : (m : CallCollection) → InitiativeCall → ℕ → Round m
beside_start m fresh at = record {
  before_read = λ db. db;
  before_write = λ db. (start_replace m fresh db).1;
  updated_at = at;
}

module _ (m : CallCollection) (up : IsUp m) where
  open m use {Db, stored}

  -- A change that the first attempt reads, accepts and writes while the stored version is the one
  -- that it read is answered, and its call is stored in place of what stands there.
  pub mutate_with_retry_timely :
      (avatars : Option (String → String)) (campaign : String) (rounds : ℕ → Round m)
      (mutate : ℕ → InitiativeCall → Checked InitiativeCall) (w : World m)
      (call changed old : InitiativeCall)
      → stored ((rounds 2).before_read w.db) campaign ≡ some call
      → call.status ≡ "open"
      → mutate 2 call ≡ pass changed
      → changed.campaign_id ≡ campaign
      → stored ((rounds 2).before_write ((rounds 2).before_read w.db)) campaign ≡ some old
      → old.version ≡ call.version
      → ((mutate_with_retry m avatars campaign rounds mutate w).0
          ≡ json 200 (wire_call avatars (written m (rounds 2) call changed)))
        × ((k : String)
            → stored (mutate_with_retry m avatars campaign rounds mutate w).1.db k ≡ (
                if k == campaign
                then some (written m (rounds 2) call changed)
                else stored ((rounds 2).before_write ((rounds 2).before_read w.db)) k))
  unfolding mutate_with_retry
  mutate_with_retry_timely avatars campaign rounds mutate w call changed old r o a k f u =
      let e =
        attempt_timely m up avatars campaign (rounds 2) (mutate 2) w call changed old r o a k f u in
      let s =
        stored_timely m up avatars campaign (rounds 2) (mutate 2) w call changed old r o a k f u in
      let go = λ (v : World m). attempts m 2 avatars campaign rounds mutate v in
      (ap (λ x. (follow m x go).0) e, λ j. ap (λ x. stored (follow m x go).1.db j) e ∙ s j)

  resolve_open :
      (campaign : String) (now : ℕ) (db : Db) (c : InitiativeCall)
      → stored db campaign ≡ some c
      → c.status ≡ "open"
      → ((resolve m campaign now db).0 ≡ fetched (some (set_fields (resolution now) c)))
        × (stored (resolve m campaign now db).1 campaign ≡ some (set_fields (resolution now) c))
  unfolding resolve
  resolve_open campaign now db c there opened =
      let f = by_status campaign "open" in
      let (o, done) = up.update_up f (resolution now) db in
      let (after, rest) = m.find_one_and_update_lem f (resolution now) db o done in
      let is_c : o ≡ some (set_fields (resolution now) c) =
        after ∙ rw there (select_open campaign (resolution now) c opened) in
      let db' = (m.find_one_and_update f (resolution now) db).1 in
      (
        ap (λ x. (resolve_result m campaign (x, db')).0) (done ∙ ap fetched is_c),
        ap (λ x. stored (resolve_result m campaign (x, db')).1 campaign) (done ∙ ap fetched is_c)
            ∙ rest campaign
            ∙ ap (λ a. put_after a campaign (stored db) campaign) is_c
            ∙ put_after_key campaign (set_fields (resolution now) c) (stored db),
      )

  start_replace_stored :
      (campaign : String) (fresh : InitiativeCall) (db : Db)
      → fresh.campaign_id ≡ campaign
      → (start_replace m fresh db).0 ≡ fetched tt
      → stored (start_replace m fresh db).1 campaign
        ≡ some (record fresh { version = 1; resolved_at = none })
  unfolding start_replace
  start_replace_stored campaign fresh db same ok =
      m.replace_one_lem (by_id fresh.campaign_id) (record fresh { version = 1; resolved_at = none })
        db ok campaign
      ∙ rw same (key_of campaign _ _)

  -- Where the collection answers and a change accepts the open call that is stored, and leaves its
  -- key, its status and its resolution time alone: a `Resolve` that falls between the read and the
  -- write of an attempt returns the call resolved, and the attempt then stores an open call without
  -- a resolution time all the same.
  pub mutate_with_retry-resolve :
      (avatars : Option (String → String)) (campaign : String)
      (mutate : ℕ → InitiativeCall → Checked InitiativeCall) (w : World m)
      (call changed : InitiativeCall) (now at : ℕ)
      → stored w.db campaign ≡ some call
      → call.status ≡ "open"
      → mutate 2 call ≡ pass changed
      → changed.campaign_id ≡ campaign
      → changed.status ≡ "open"
      → changed.resolved_at ≡ none
      → ((resolve m campaign now w.db).0 ≡ fetched (some (set_fields (resolution now) call)))
        × ((after : InitiativeCall) × (stored
                (mutate_with_retry m avatars campaign
                  (λ _. beside_resolve m campaign now at)
                  mutate
                  w).1.db
                campaign
              ≡ some after)
            × (after.status ≡ "open")
            × (after.resolved_at ≡ none))
  unfolding sync_turn_state
  mutate_with_retry-resolve avatars campaign mutate w call changed now at there opened accepted key
        o n =
      let (reply, found) = resolve_open campaign now w.db call there opened in
      let (_, s) =
        mutate_with_retry_timely avatars campaign (λ _. beside_resolve m campaign now at) mutate w
          call changed (set_fields (resolution now) call) there opened accepted key found refl in
      (
        reply,
        (
          written m (beside_resolve m campaign now at) call changed,
          s campaign ∙ key_of campaign _ _,
          o,
          n,
        ),
      )

  -- Where the collection answers and a change accepts the open call of version 1 that is stored and
  -- leaves its key alone: a `Start` that falls between the read and the write of an attempt goes
  -- unnoticed, and the attempt stores the changed call of the old initiative over the new one.
  pub mutate_with_retry-start_replace :
      (avatars : Option (String → String)) (campaign : String)
      (mutate : ℕ → InitiativeCall → Checked InitiativeCall) (w : World m)
      (call changed fresh : InitiativeCall) (at : ℕ)
      → stored w.db campaign ≡ some call
      → call.status ≡ "open"
      → call.version ≡ 1
      → mutate 2 call ≡ pass changed
      → changed.campaign_id ≡ campaign
      → fresh.campaign_id ≡ campaign
      → (start_replace m fresh w.db).0 ≡ fetched tt
      → (after : InitiativeCall) × (stored
            (mutate_with_retry m avatars campaign (λ _. beside_start m fresh at) mutate w).1.db
            campaign
          ≡ some after)
        × (after.id ≡ changed.id)
        × (after.version ≡ 2)
  unfolding sync_turn_state
  mutate_with_retry-start_replace avatars campaign mutate w call changed fresh at there opened one
        accepted key same ok =
      let (_, s) =
        mutate_with_retry_timely avatars campaign (λ _. beside_start m fresh at) mutate w call
          changed (record fresh { version = 1; resolved_at = none }) there opened accepted key
          (start_replace_stored campaign fresh w.db same ok) (sym one) in
      (
        written m (beside_start m fresh at) call changed,
        s campaign ∙ key_of campaign _ _,
        refl,
        ap (λ n. n + 1) one,
      )
