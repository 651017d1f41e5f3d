-- ===== src/Tracker/Loop.antt =====
-- `mutateWithRetry` of internal/handler/initiative.go: read the call, change it, recompute the turns,
-- and write it if nobody else has written meanwhile; at most three attempts. What others do to the
-- collection before the read and before the write of an attempt is a parameter.
use rolebook_backend.Common.{ℕ, zero, suc, String, Option, none, some, map, ◌==◌, if◌then◌else◌}
use rolebook_backend.Http.{
  Fetched, fetched, failed, Checked, pass, deny, Reply, json, error, internal_error,
}
use rolebook_backend.Hub.{Hub, publish}
use rolebook_backend.Initiative.{InitiativeParticipant, InitiativeCall, sync_turn_state}
use rolebook_backend.Tracker.Calls.{
  CallCollection, Update, updated, conflict, update_failed, get, update_with_version,
}

-- `withResolvedAvatars`: an empty avatar stays empty.
abbrev pub resolved_avatar : (String → String) → InitiativeParticipant → InitiativeParticipant
resolved_avatar resolve p =
    if p.avatar_uri == "" then p else record p { avatar_uri = resolve p.avatar_uri }

-- `wireCall`: `none` stands for a handler with no avatar store.
unfoldable pub wire_call : Option (String → String) → InitiativeCall → InitiativeCall
wire_call none c = c
wire_call (some resolve) c = record c {
  participants = map (resolved_avatar resolve) c.participants;
}

module _ (m : CallCollection) where
  open m use {Db}

  pub record World : Type 0 where
    pub db : Db
    pub hub : Hub InitiativeCall

  -- What an attempt meets: what other clients do to the database, not to the hub, and the clock at
  -- `call.UpdatedAt = nowMillis()`.
  pub record Round : Type 0 where
    pub before_read : Db → Db
    pub before_write : Db → Db
    pub updated_at : ℕ

  pub data Attempt : Type 0 where
    retry : World → Attempt
    answer : Reply InitiativeCall → World → Attempt

  abbrev pub not_open : Reply InitiativeCall
  not_open = error 404 "no open initiative call" "NOT_FOUND"

  -- After the write: publish, or tell the loop to go on.
  abbrev pub after_write :
      Option (String → String) → String → Hub InitiativeCall → Update → Db → Attempt
  after_write avatars campaign hub conflict db = retry (record { db = db; hub = hub })
  after_write avatars campaign hub update_failed db =
      answer internal_error (record { db = db; hub = hub })
  after_write avatars campaign hub (updated c) db =
      answer (json 200 (wire_call avatars c))
        (record { db = db; hub = publish campaign (wire_call avatars c) hub })

  abbrev pub write_change :
      Option (String → String)
      → String
      → Round
      → InitiativeCall
      → World
      → Checked InitiativeCall
      → Attempt
  write_change avatars campaign round call w (deny status message code) =
      answer (error status message code) w
  write_change avatars campaign round call w (pass changed) =
      let (u, db) =
        update_with_version m (sync_turn_state (record changed { updated_at = round.updated_at }))
          call.version (round.before_write w.db) in
      after_write avatars campaign w.hub u db

  abbrev pub change_read :
      Option (String → String)
      → String
      → Round
      → (InitiativeCall → Checked InitiativeCall)
      → World
      → Fetched (Option InitiativeCall)
      → Attempt
  change_read avatars campaign round mutate w failed = answer internal_error w
  change_read avatars campaign round mutate w (fetched none) = answer not_open w
  change_read avatars campaign round mutate w (fetched (some call)) =
      if call.status == "open"
      then write_change avatars campaign round call w (mutate call)
      else answer not_open w

  unfoldable pub attempt :
      Option (String → String)
      → String
      → Round
      → (InitiativeCall → Checked InitiativeCall)
      → World
      → Attempt
  attempt avatars campaign round mutate w =
      let w' = record w { db = round.before_read w.db } in
      change_read avatars campaign round mutate w' (get m campaign w'.db)

  -- `continue` after a conflict, `return` after an answer.
  abbrev pub follow :
      Attempt → (World → Reply InitiativeCall × World) → Reply InitiativeCall × World
  follow (retry w) go = go w
  follow (answer reply w) go = (reply, w)

  -- `rounds n` is what the attempt with `n` more to come meets; `mutate n` is the closure in it.
  unfoldable pub attempts :
      ℕ
      → Option (String → String)
      → String
      → (ℕ → Round)
      → (ℕ → InitiativeCall → Checked InitiativeCall)
      → World
      → Reply InitiativeCall × World
  attempts zero avatars campaign rounds mutate w =
      (error 409 "initiative is being updated, retry" "CONFLICT", w)
  attempts (suc n) avatars campaign rounds mutate w =
      follow (attempt avatars campaign (rounds n) (mutate n) w)
        (λ w'. attempts n avatars campaign rounds mutate w')

  unfoldable pub mutate_with_retry :
      Option (String → String)
      → String
      → (ℕ → Round)
      → (ℕ → InitiativeCall → Checked InitiativeCall)
      → World
      → Reply InitiativeCall × World
  unfolding attempts
  mutate_with_retry = attempts 3
