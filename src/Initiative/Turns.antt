-- ===== src/Initiative/Turns.antt =====
-- The turn order that `TurnOrderParticipantIDs` and `SyncTurnState` compute.
use rolebook_backend.Common.{
  ◌≤◌, String, ◌≡◌, ◌≢◌, refl, sym, ◌∙◌, ap, Bool, true, false, List, [], ◌∷◌, map, Bool-cases,
  arith, inl, inr, filter, count, contains, SameItems, IsDistinct, contains_of_SameItems,
  contains_head, ◌==◌,
}
use rolebook_backend.Initiative.{
  InitiativeParticipant, InitiativeCall, is_submitted, sorted_ids, merge_order, join_order,
  rotate_ids_to_front, order_of, turn_order, resort, first_or_empty, sync_turn_state,
}
use rolebook_backend.Initiative.Sort.{sort_participants-SameItems}
use rolebook_backend.Initiative.Merge.{
  merge_order-SameItems, merge_order_settled, contains-merge_order,
}
use rolebook_backend.Initiative.Rotation.{
  rotate_ids_to_front-SameItems, rotate_ids_to_front_head, first-rotate_ids_to_front,
}

abbrev pub ids_of : List InitiativeParticipant → List String
ids_of ps = map (λ p. p.id) ps

-- The ids of those who rolled and are not skipped, as they stand in the call.
abbrev pub submitted_ids : InitiativeCall → List String
submitted_ids c = ids_of (filter is_submitted c.participants)

count-submitted :
    (s : String) (ps : List InitiativeParticipant)
    → count s (ids_of (filter is_submitted ps)) ≤ count s (ids_of ps)
count-submitted s [] = omega arith
count-submitted s (p ∷ ps) = ground (arith, count-submitted s ps)

sorted_ids-SameItems :
    (ps : List InitiativeParticipant) → SameItems (sorted_ids ps) (ids_of (filter is_submitted ps))
unfolding sorted_ids
sorted_ids-SameItems ps = sort_participants-SameItems (filter is_submitted ps)

sorted_ids-IsDistinct :
    (ps : List InitiativeParticipant) → IsDistinct (ids_of ps) → IsDistinct (sorted_ids ps)
sorted_ids-IsDistinct ps h s = omega (arith, h s, sorted_ids-SameItems ps s, count-submitted s ps)

order_of-SameItems :
    (sorted frozen : List String) (started : Bool) (current : String)
    → IsDistinct sorted
    → IsDistinct frozen
    → SameItems (order_of sorted started frozen current) sorted
order_of-SameItems [] frozen started current h k s = refl
order_of-SameItems (x ∷ xs) frozen false current h k s = refl
order_of-SameItems (x ∷ xs) frozen true current h k s =
    rotate_ids_to_front-SameItems (merge_order (x ∷ xs) frozen) current s
    ∙ merge_order-SameItems (x ∷ xs) frozen h k s

contains-order_of :
    (sorted frozen : List String) (started : Bool) (current s : String)
    → contains (order_of sorted started frozen current) s ≡ contains sorted s
contains-order_of [] frozen started current s = refl
contains-order_of (x ∷ xs) frozen false current s = refl
contains-order_of (x ∷ xs) frozen true current s =
    contains_of_SameItems _ _ (rotate_ids_to_front-SameItems (merge_order (x ∷ xs) frozen) current)
      s
    ∙ contains-merge_order (x ∷ xs) frozen s

-- In an open call whose ids are distinct, the turn order names each participant who rolled and is
-- not skipped exactly once, and nobody else.
pub turn_order-SameItems :
    (c : InitiativeCall)
    → c.status ≡ "open"
    → IsDistinct (ids_of c.participants)
    → IsDistinct c.turn_order_participant_ids
    → SameItems (turn_order c) (submitted_ids c)
unfolding turn_order
turn_order-SameItems c opened h k s = rw opened (
    order_of-SameItems (sorted_ids c.participants) c.turn_order_participant_ids
      c.has_turn_cycle_started c.current_turn_participant_id
      (sorted_ids-IsDistinct c.participants h) k s
    ∙ sorted_ids-SameItems c.participants s)

pub contains-turn_order :
    (c : InitiativeCall) (s : String)
    → c.status ≡ "open"
    → contains (turn_order c) s ≡ contains (sorted_ids c.participants) s
unfolding turn_order
contains-turn_order c s opened = rw opened (
    contains-order_of (sorted_ids c.participants) c.turn_order_participant_ids
      c.has_turn_cycle_started c.current_turn_participant_id s)

rotate_own_head : (o : List String) → rotate_ids_to_front o (first_or_empty o) ≡ o
unfolding rotate_ids_to_front
rotate_own_head [] = refl
rotate_own_head (x ∷ xs) = unfold rotate_ids_to_front in rotate_ids_to_front_head x xs

-- An order of just the sorted ids, with the current turn at its head, stays once it is frozen.
pub order_of_frozen :
    (sorted o : List String)
    → ((s : String) → contains o s ≡ contains sorted s)
    → order_of sorted true o (first_or_empty o) ≡ o
order_of_frozen [] [] h = refl
order_of_frozen [] (x ∷ xs) h = cc (contains_head x xs, h x)
order_of_frozen (y ∷ ys) o h = rw (merge_order_settled (y ∷ ys) o h) (rotate_own_head o)

order_of_again :
    (sorted frozen : List String) (started : Bool) (current : String)
    → let o = order_of sorted started frozen current in
      order_of sorted started o (first_or_empty o) ≡ o
order_of_again sorted frozen true current =
    order_of_frozen sorted _ (contains-order_of sorted frozen true current)
order_of_again [] frozen false current = refl
order_of_again (x ∷ xs) frozen false current = refl

pub turn_order-sync_turn_state :
    (c : InitiativeCall) → turn_order (sync_turn_state c) ≡ turn_order c
unfolding turn_order sync_turn_state
turn_order-sync_turn_state c = elim (Bool-cases (c.status == "open")) [
  | inl e ↦ rw e (
      order_of_again (sorted_ids c.participants) c.turn_order_participant_ids
        c.has_turn_cycle_started c.current_turn_participant_id)
  | inr e ↦ rw e refl
]

-- Recomputing the turn state a second time changes nothing, whatever the call.
pub sync_turn_state_idem :
    (c : InitiativeCall) → sync_turn_state (sync_turn_state c) ≡ sync_turn_state c
unfolding sync_turn_state
sync_turn_state_idem c =
    ap
      (λ (o : List String). record c {
        turn_order_participant_ids = o;
        current_turn_participant_id = first_or_empty o;
      })
      (turn_order-sync_turn_state c)

-- After a synchronisation the stored order is the turn order, and its head has the turn.
pub IsSynced : InitiativeCall → Type 0
IsSynced c =
    (c.turn_order_participant_ids ≡ turn_order c)
    × (c.current_turn_participant_id ≡ first_or_empty (turn_order c))

pub sync_turn_state-IsSynced : (c : InitiativeCall) → IsSynced (sync_turn_state c)
unfolding IsSynced sync_turn_state
sync_turn_state-IsSynced c =
    (sym (turn_order-sync_turn_state c), ap first_or_empty (sym (turn_order-sync_turn_state c)))

-- A started call that keeps an order of all its turns keeps it when it is synchronised.
pub turn_order_frozen :
    (c : InitiativeCall) (o : List String)
    → c.status ≡ "open"
    → c.has_turn_cycle_started ≡ true
    → c.turn_order_participant_ids ≡ o
    → c.current_turn_participant_id ≡ first_or_empty o
    → ((s : String) → contains o s ≡ contains (sorted_ids c.participants) s)
    → turn_order c ≡ o
unfolding turn_order
turn_order_frozen c o opened started stored current h =
    rw (opened, started, stored, current) (order_of_frozen (sorted_ids c.participants) o h)

order_of_resorted :
    (sorted : List String) (current : String)
    → order_of sorted true [] current ≡ rotate_ids_to_front sorted current
unfolding merge_order join_order rotate_ids_to_front
order_of_resorted [] current = ground arith
order_of_resorted (x ∷ xs) current = refl

-- A resort of a started call: the order is that of the rolls again, rotated so that whoever has the
-- turn keeps it as long as they still take part; nothing else of the call changes.
pub resort_keeps_turn :
    (c : InitiativeCall)
    → c.status ≡ "open"
    → c.has_turn_cycle_started ≡ true
    → contains (sorted_ids c.participants) c.current_turn_participant_id ≡ true
    → c.current_turn_participant_id ≢ ""
    → let c' = sync_turn_state (resort c) in
      (c'.turn_order_participant_ids
        ≡ rotate_ids_to_front (sorted_ids c.participants) c.current_turn_participant_id)
      × (c'.current_turn_participant_id ≡ c.current_turn_participant_id)
      × (c'.has_turn_cycle_started ≡ true)
      × (c'.participants ≡ c.participants)
unfolding sync_turn_state resort turn_order
resort_keeps_turn c opened started h ne =
    let again = order_of_resorted (sorted_ids c.participants) c.current_turn_participant_id in
    (
      rw (opened, started) again,
      rw (opened, started)
          (ap first_or_empty again
            ∙ first-rotate_ids_to_front (sorted_ids c.participants) c.current_turn_participant_id h
                ne),
      started,
      refl,
    )

pub turn_order-IsDistinct :
    (c : InitiativeCall)
    → c.status ≡ "open"
    → IsDistinct (ids_of c.participants)
    → IsDistinct c.turn_order_participant_ids
    → IsDistinct (turn_order c)
turn_order-IsDistinct c opened h k s =
    omega (arith, h s, turn_order-SameItems c opened h k s, count-submitted s c.participants)
