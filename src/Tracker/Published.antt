-- ===== src/Tracker/Published.antt =====
-- What `mutateWithRetry` does to the subscribers.
use rolebook_backend.Common.{
  ℕ, zero, suc, ◌<◌, String, ◌≡◌, refl, ◌∙◌, ap, inl, inr, Bool, ◌&&◌, Option, none, some, List, [],
  ◌∷◌, ◌++◌, ◌==◌, length, ltb, if◌then◌else◌, Bool-cases,
}
use rolebook_backend.Http.{Fetched, fetched, failed, Checked, pass, deny, Reply, json, error, bare}
use rolebook_backend.Hub.{Hub, new, publish}
use rolebook_backend.Hub.Invariant.{Event, run, times, publish_isolated}
use rolebook_backend.Initiative.{InitiativeCall}
use rolebook_backend.Tracker.Calls.{CallCollection, Update, updated, conflict, update_failed, get}
use rolebook_backend.Tracker.Loop.{
  World, Round, Attempt, retry, answer, after_write, write_change, change_read, attempt, attempts,
  follow, mutate_with_retry,
}

-- What a channel holds after an answer: a subscriber of the campaign gets the call that is answered,
-- if fewer than 16 wait.
abbrev pub heard : Bool → Reply InitiativeCall → List InitiativeCall → List InitiativeCall
heard own (json status c) buffer =
    if own && ltb (length buffer) 16 then buffer ++ c ∷ [] else buffer
heard own (error status message code) buffer = buffer
heard own (bare status) buffer = buffer

module _ (m : CallCollection) where
  -- The hub after an answer: a call that is answered has been published.
  abbrev pub published : String → Reply InitiativeCall → Hub InitiativeCall → Hub InitiativeCall
  published campaign (json status c) hub = publish campaign c hub
  published campaign (error status message code) hub = hub
  published campaign (bare status) hub = hub

  module _ (avatars : Option (String → String)) (campaign : String) where
    -- What an attempt leaves: a hub that has heard of the answer, or of nothing.
    abbrev HubOf : Attempt m → Hub InitiativeCall → Type 0
    HubOf (retry w) hub = w.hub ≡ hub
    HubOf (answer reply w) hub = w.hub ≡ published campaign reply hub

    after_write-HubOf :
        (hub : Hub InitiativeCall) (u : Update) (db : m.Db)
        → HubOf (after_write m avatars campaign hub u db) hub
    after_write-HubOf hub (updated c) db = refl
    after_write-HubOf hub conflict db = refl
    after_write-HubOf hub update_failed db = refl

    write_change-HubOf :
        (round : Round m) (call : InitiativeCall) (w : World m) (changed : Checked InitiativeCall)
        → HubOf (write_change m avatars campaign round call w changed) w.hub
    write_change-HubOf round call w (deny status message code) = refl
    write_change-HubOf round call w (pass changed) = after_write-HubOf w.hub _ _

    change_read-HubOf :
        (round : Round m) (mutate : InitiativeCall → Checked InitiativeCall) (w : World m)
        (o : Fetched (Option InitiativeCall))
        → HubOf (change_read m avatars campaign round mutate w o) w.hub
    change_read-HubOf round mutate w failed = refl
    change_read-HubOf round mutate w (fetched none) = refl
    change_read-HubOf round mutate w (fetched (some call)) =
        elim (Bool-cases (call.status == "open")) [
          | inl e ↦ rw e (write_change-HubOf round call w (mutate call))
          | inr e ↦ rw e refl
        ]

    attempt-HubOf :
        (round : Round m) (mutate : InitiativeCall → Checked InitiativeCall) (w : World m)
        → HubOf (attempt m avatars campaign round mutate w) w.hub
    unfolding attempt
    attempt-HubOf round mutate w =
        let db = round.before_read w.db in
        change_read-HubOf round mutate (record { db = db; hub = w.hub }) (get m campaign db)

    follow-published :
        (a : Attempt m) (go : World m → Reply InitiativeCall × World m) (hub : Hub InitiativeCall)
        → HubOf a hub
        → ((w : World m) → (go w).1.hub ≡ published campaign (go w).0 w.hub)
        → (follow m a go).1.hub ≡ published campaign (follow m a go).0 hub
    follow-published (retry w) go hub h ih = rw (← h) (ih w)
    follow-published (answer reply w) go hub h ih = h

    attempts-published :
        (n : ℕ) (rounds : ℕ → Round m) (mutate : ℕ → InitiativeCall → Checked InitiativeCall)
        (w : World m)
        → (attempts m n avatars campaign rounds mutate w).1.hub
          ≡ published campaign (attempts m n avatars campaign rounds mutate w).0 w.hub
    unfolding attempts
    attempts-published zero rounds mutate w = refl
    attempts-published (suc n) rounds mutate w =
        follow-published _ _ w.hub (attempt-HubOf (rounds n) (mutate n) w)
          (λ w'. attempts-published n rounds mutate w')

    mutate_with_retry-hub :
        (rounds : ℕ → Round m) (mutate : ℕ → InitiativeCall → Checked InitiativeCall) (w : World m)
        → (mutate_with_retry m avatars campaign rounds mutate w).1.hub
          ≡ published campaign (mutate_with_retry m avatars campaign rounds mutate w).0 w.hub
    unfolding mutate_with_retry
    mutate_with_retry-hub rounds mutate w = attempts-published 3 rounds mutate w

    -- Whatever other clients write to the database and whatever it answers: over a hub reached by any
    -- history, and with no other use of the hub meanwhile, each subscriber of the campaign finds the
    -- call that is answered once more in its channel, at the end, unless 16 snapshots wait there;
    -- subscribers of other campaigns find nothing new, and no one does where no call is answered.
    pub mutate_with_retry-published :
        (rounds : ℕ → Round m) (mutate : ℕ → InitiativeCall → Checked InitiativeCall) (db : m.Db)
        (es : List (Event InitiativeCall)) (k : String) (i : ℕ)
        → 0 < times (run new es) k i
        → (mutate_with_retry m avatars campaign rounds mutate
              (record { db = db; hub = run new es })).1.hub.chans
            i
          ≡ heard
              (k == campaign)
              (mutate_with_retry m avatars campaign rounds mutate
                (record { db = db; hub = run new es })).0
              ((run new es).chans i)
    mutate_with_retry-published rounds mutate db es k i there =
        let done =
          mutate_with_retry m avatars campaign rounds mutate
            (record { db = db; hub = run new es }) in
        ap (λ (h : Hub InitiativeCall). h.chans i)
          (mutate_with_retry-hub rounds mutate (record { db = db; hub = run new es }))
        ∙ delivered done.0
      where
        delivered :
            (reply : Reply InitiativeCall)
            → (published campaign reply (run new es)).chans i
              ≡ heard (k == campaign) reply ((run new es).chans i)
        delivered (json status c) = publish_isolated es k campaign i c there
        delivered (error status message code) = refl
        delivered (bare status) = refl
