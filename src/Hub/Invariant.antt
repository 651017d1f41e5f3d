-- ===== src/Hub/Invariant.antt =====
-- What holds of the hub after any history of calls.
use rolebook_backend.Common.{
  ℕ, ◌+◌, ◌≤◌, ◌<◌, String, ◌≡◌, ◌≢◌, refl, ap, ◌&&◌, some, List, [], ◌∷◌, ◌++◌, ◌==◌, eq_iff,
  length, length-append, ltb, nat_eq, if◌then◌else◌, arith, Bool-cases, inl, inr, not, filter,
  Option-cases,
}
use rolebook_backend.Hub.{
  Hub, new, sub_buffer_size, bucket_of, put_chan, offer, send_all, publish, subscribe, unsubscribe,
  receive, or_delete, after_first,
}
use rolebook_backend.Hub.Delivery.{
  count_id, count_id-filter, bucket_of-or_delete, publish_delivers, publish_skips,
}

-- The calls that a hub gets.
pub data Event (A : Type 0) : Type 0 where
  subscribes : String → Event A
  unsubscribes : String → ℕ → Event A
  publishes : String → A → Event A
  receives : ℕ → Event A

-- How often an id stands in a campaign's bucket.
abbrev pub times : {A : Type 0} → Hub A → String → ℕ → ℕ
times h campaign i = count_id i (bucket_of (h.subs campaign))

-- Ids are handed out once, each stands in one bucket at most and once there, no bucket is empty,
-- and no channel holds more than its buffer.
pub record Inv {A : Type 0} (h : Hub A) : Type 0 where
  pub used : (k : String) (i : ℕ) → 0 < times h k i → i < h.next
  pub once : (k : String) (i : ℕ) → times h k i ≤ 1
  pub one_campaign : (k l : String) (i : ℕ) → 0 < times h k i → 0 < times h l i → k ≡ l
  pub no_empty : (k : String) → h.subs k ≢ some []
  pub bounded : (i : ℕ) → length (h.chans i) ≤ sub_buffer_size

or_delete_full : (ids : List ℕ) → or_delete ids ≢ some []
or_delete_full [] e = cc
or_delete_full (i ∷ is) e = cc

module _ {A : Type 0} where
  unfoldable pub step : Hub A → Event A → Hub A
  step h (subscribes k) = (subscribe k h).1
  step h (unsubscribes k i) = unsubscribe k i h
  step h (publishes k call) = publish k call h
  step h (receives i) = receive i h

  unfoldable pub run : Hub A → List (Event A) → Hub A
  run h [] = h
  run h (e ∷ es) = run (step h e) es

  new-Inv : Inv (new {A = A})
  unfolding new
  new-Inv = record {
    used = λ k i p. absurd (omega arith);
    once = λ k i. omega arith;
    one_campaign = λ k l i p q. absurd (omega arith);
    no_empty = λ k e. cc;
    bounded = λ i. omega arith;
  }

  times-subscribe :
      (h : Hub A) (k l : String) (i : ℕ)
      → times (subscribe k h).1 l i ≡ (
          if l == k
          then (if nat_eq h.next i then times h k i + 1 else times h k i)
          else times h l i)
  unfolding subscribe
  times-subscribe h k l i = ground (arith, eq_iff l k)

  length-offer :
      (call : A) (buffer : List A)
      → length buffer ≤ sub_buffer_size
      → length (offer call buffer) ≤ sub_buffer_size
  length-offer call buffer h = ground (arith, length-append buffer (call ∷ []))

  length-send_all :
      (ids : List ℕ) (call : A) (chans : ℕ → List A)
      → ((i : ℕ) → length (chans i) ≤ sub_buffer_size)
      → (i : ℕ) → length (send_all ids call chans i) ≤ sub_buffer_size
  unfolding send_all
  length-send_all [] call chans h i = h i
  length-send_all (j ∷ js) call chans h i =
      length-send_all js call (put_chan chans j (offer call (chans j)))
        (λ m. ground (arith, h m, length-offer call (chans j) (h j))) i

  subscribe-Inv : (k : String) (h : Hub A) → Inv h → Inv (subscribe k h).1
  unfolding subscribe
  subscribe-Inv k h v = record {
    used = λ l i p. ground (arith, times-subscribe h k l i, v.used k i, v.used l i);
    once = λ l i. ground (arith, times-subscribe h k l i, v.once k i, v.once l i, v.used k i);
    one_campaign = λ l m i p q. ground (
      arith,
      times-subscribe h k l i,
      times-subscribe h k m i,
      v.one_campaign l m i,
      v.one_campaign k m i,
      v.one_campaign l k i,
      v.used l i,
      v.used m i,
      v.used k i,
      eq_iff l k,
      eq_iff m k,
    );
    no_empty = λ l e. ground (arith, v.no_empty l, eq_iff l k);
    bounded = λ i. ground (arith, v.bounded i);
  }

  length-after_first : (buffer : List A) → length (after_first buffer) ≤ length buffer
  length-after_first [] = omega arith
  length-after_first (x ∷ xs) = omega arith

  receive-Inv : (i : ℕ) (h : Hub A) → Inv h → Inv (receive i h)
  unfolding receive
  receive-Inv i h v = record {
    used = v.used;
    once = v.once;
    one_campaign = v.one_campaign;
    no_empty = v.no_empty;
    bounded = λ j. ground (arith, v.bounded i, v.bounded j, length-after_first (h.chans i));
  }

  publish-Inv : (k : String) (call : A) (h : Hub A) → Inv h → Inv (publish k call h)
  unfolding publish
  publish-Inv k call h v = record {
    used = v.used;
    once = v.once;
    one_campaign = v.one_campaign;
    no_empty = v.no_empty;
    bounded = length-send_all (bucket_of (h.subs k)) call h.chans v.bounded;
  }

  times-unsubscribe :
      (h : Hub A) (k l : String) (id i : ℕ)
      → times (unsubscribe k id h) l i
        ≡ (if l == k then (if nat_eq i id then 0 else times h k i) else times h l i)
  unfolding unsubscribe
  times-unsubscribe h k l id i = elim (Option-cases (h.subs k)) [
    | inl e ↦ ground (arith, eq_iff l k)
    | inr (bucket, e) ↦ ground (
      arith,
      eq_iff l k,
      count_id-filter i id bucket,
      bucket_of-or_delete (filter (λ j. not (nat_eq j id)) bucket),
    )
  ]

  subs-unsubscribe :
      (h : Hub A) (k l : String) (id : ℕ) → Inv h → (unsubscribe k id h).subs l ≢ some []
  unfolding unsubscribe
  subs-unsubscribe h k l id v e = elim (Option-cases (h.subs k)) [
    | inl none_there ↦ v.no_empty l (ground arith)
    | inr (bucket, there) ↦
        ground (arith, v.no_empty l, or_delete_full (filter (λ j. not (nat_eq j id)) bucket))
  ]

  rest-unsubscribe :
      (h : Hub A) (k : String) (id : ℕ)
      → ((unsubscribe k id h).next ≡ h.next) × ((unsubscribe k id h).chans ≡ h.chans)
  unfolding unsubscribe
  rest-unsubscribe h k id = elim (Option-cases (h.subs k)) [
    | inl e ↦ rw (e, unsubscribe) (refl, refl)
    | inr (bucket, e) ↦ rw (e, unsubscribe) (refl, refl)
  ]

  unsubscribe-Inv : (k : String) (id : ℕ) (h : Hub A) → Inv h → Inv (unsubscribe k id h)
  unsubscribe-Inv k id h v =
      let (same_next, same_chans) = rest-unsubscribe h k id in
      record {
        used = λ l i p.
            ground (arith, times-unsubscribe h k l id i, v.used k i, v.used l i, same_next);
        once = λ l i. ground (arith, times-unsubscribe h k l id i, v.once k i, v.once l i);
        one_campaign = λ l m i p q. ground (
          arith,
          times-unsubscribe h k l id i,
          times-unsubscribe h k m id i,
          v.one_campaign l m i,
          v.one_campaign k m i,
          v.one_campaign l k i,
          eq_iff l k,
          eq_iff m k,
        );
        no_empty = λ l. subs-unsubscribe h k l id v;
        bounded = λ i. rw same_chans (v.bounded i);
      }

  step-Inv : (h : Hub A) (e : Event A) → Inv h → Inv (step h e)
  unfolding step
  step-Inv h (subscribes k) v = subscribe-Inv k h v
  step-Inv h (unsubscribes k i) v = unsubscribe-Inv k i h v
  step-Inv h (publishes k call) v = publish-Inv k call h v
  step-Inv h (receives i) v = receive-Inv i h v

  run-Inv : (h : Hub A) (es : List (Event A)) → Inv h → Inv (run h es)
  unfolding run
  run-Inv h [] v = v
  run-Inv h (e ∷ es) v = run-Inv (step h e) es (step-Inv h e v)

  -- After any history from a new hub: ids are below `next`, each stands once in one bucket at most,
  -- no bucket is empty, and no channel holds more than 16 snapshots.
  pub run-new-Inv : (es : List (Event A)) → Inv (run new es)
  run-new-Inv es = run-Inv new es new-Inv

  -- After any history, whoever unsubscribes hears no later publish to any campaign.
  pub publish-unsubscribe :
      (es : List (Event A)) (k l : String) (i : ℕ) (call : A)
      → 0 < times (run new es) k i
      → (publish l call (unsubscribe k i (run new es))).chans i ≡ (run new es).chans i
  publish-unsubscribe es k l i call there =
      let h = run new es in
      let v = run-new-Inv es in
      rw
        (publish_skips l call (unsubscribe k i h) i
          (ground (arith, times-unsubscribe h k l i i, v.one_campaign l k i, eq_iff l k)))
        (ap (λ (chans : ℕ → List A). chans i) (rest-unsubscribe h k i).1)

  -- After any history, a publish to one campaign leaves the channels of another's subscribers alone,
  -- and reaches each of its own subscribers once, unless 16 snapshots wait there.
  pub publish_isolated :
      (es : List (Event A)) (k l : String) (i : ℕ) (call : A)
      → 0 < times (run new es) k i
      → (publish l call (run new es)).chans i ≡ (
          if (k == l) && ltb (length ((run new es).chans i)) sub_buffer_size
          then (run new es).chans i ++ call ∷ []
          else (run new es).chans i)
  publish_isolated es k l i call there =
      let h = run new es in
      let v = run-new-Inv es in
      elim (Bool-cases (k == l)) [
        | inl e ↦
            let same : k ≡ l = (eq_iff k l).0 e in
            rw e (publish_delivers l call h i (ground (arith, v.once l i, same)))
        | inr e ↦ rw e (publish_skips l call h i (ground (arith, v.one_campaign k l i, eq_iff k l)))
      ]
