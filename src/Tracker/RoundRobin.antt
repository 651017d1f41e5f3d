-- ===== src/Tracker/RoundRobin.antt =====
-- The turn goes round: what a sequence of accepted `EndTurn` calls does.
use rolebook_backend.Common.{
  ℕ, zero, suc, String, ◌≡◌, refl, sym, ◌∙◌, ap, true, List, [], ◌∷◌, ◌++◌, length, inl,
  contains_of_SameItems,
}
use mathlib.Core.List.{append-nil, append_assoc}
use rolebook_backend.Http.{Checked, pass, ◌>>=◌}
use rolebook_backend.Initiative.{InitiativeCall, turn_order, sync_turn_state, first_or_empty}
use rolebook_backend.Initiative.Turns.{
  turn_order_frozen, contains-turn_order, turn_order-sync_turn_state,
}
use rolebook_backend.Tracker.Changes.{Caller, to_back}
use rolebook_backend.Tracker.Changes.Effects.{turn_ended, end_turn_change_iff}
use rolebook_backend.Tracker.Invariant.{ends_turn, apply, count-to_back}

turn_order-turn_ended :
    (c : InitiativeCall) → c.status ≡ "open" → turn_order (turn_ended c) ≡ to_back (turn_order c)
turn_order-turn_ended c opened =
    turn_order_frozen (turn_ended c) (to_back (turn_order c)) opened refl refl refl (λ s.
      contains_of_SameItems (to_back (turn_order c)) (turn_order c)
        (λ t. count-to_back t (turn_order c)) s
      ∙ contains-turn_order c s opened)

-- A call of `EndTurn` that nobody else interrupts: the change and the recomputation.
unfoldable pub next_turn : Caller → InitiativeCall → Checked InitiativeCall
next_turn m c = apply (ends_turn m) c >>= λ d. pass (sync_turn_state d)

pub after_turns : Caller → ℕ → InitiativeCall → Checked InitiativeCall
after_turns m zero c = pass c
after_turns m (suc n) c = next_turn m c >>= λ d. after_turns m n d

-- Who has the turn now, and in each of the next turns.
pub holders : Caller → ℕ → InitiativeCall → Checked (List String)
holders m zero c = pass []
holders m (suc n) c =
    next_turn m c >>= λ d. holders m n d >>= λ xs. pass (first_or_empty (turn_order c) ∷ xs)

-- When the DM ends a turn, the order goes round by one place and the next in it has the turn; nobody's
-- roll changes.
pub next_turn_rotates :
    (m : Caller) (c : InitiativeCall) (x : String) (xs : List String)
    → m.is_dm ≡ true
    → c.status ≡ "open"
    → turn_order c ≡ x ∷ xs
    → (d : InitiativeCall) × (next_turn m c ≡ pass d)
      × (d.current_turn_participant_id ≡ first_or_empty (xs ++ x ∷ []))
      × (turn_order d ≡ xs ++ x ∷ [])
      × (d.status ≡ "open")
      × (d.participants ≡ c.participants)
unfolding next_turn apply sync_turn_state
next_turn_rotates m c x xs master opened e =
    let order : turn_order (turn_ended c) ≡ xs ++ x ∷ [] =
      turn_order-turn_ended c opened ∙ ap to_back e in
    (
      sync_turn_state (turn_ended c),
      ap (λ o. o >>= λ d. pass (sync_turn_state d))
          ((end_turn_change_iff m c x xs e).1 (inl master)),
      ap first_or_empty order,
      turn_order-sync_turn_state (turn_ended c) ∙ order,
      opened,
      refl,
    )

holders_prefix :
    (m : Caller) (xs ys : List String) (c : InitiativeCall)
    → m.is_dm ≡ true
    → c.status ≡ "open"
    → turn_order c ≡ xs ++ ys
    → (holders m (length xs) c ≡ pass xs)
      × ((d : InitiativeCall) × (after_turns m (length xs) c ≡ pass d)
          × (turn_order d ≡ ys ++ xs)
          × (d.participants ≡ c.participants))
unfolding holders after_turns
holders_prefix m [] ys c master opened e = (refl, (c, refl, e ∙ sym (append-nil ys), refl))
holders_prefix m (x ∷ xs) ys c master opened e =
    let (d, next, now, order, still, same) = next_turn_rotates m c x (xs ++ ys) master opened e in
    let (held, (last, left, whole, kept)) =
      holders_prefix m xs (ys ++ x ∷ []) d master still (order ∙ append_assoc xs ys (x ∷ [])) in
    (
      ap
            (λ o. o >>= λ k.
              holders m (length xs) k >>= λ zs. pass (first_or_empty (turn_order c) ∷ zs))
            next
          ∙ ap (λ o. o >>= λ zs. pass (first_or_empty (turn_order c) ∷ zs)) held
          ∙ ap (λ o. pass (first_or_empty o ∷ xs)) e,
      (
        last,
        ap (λ o. o >>= λ k. after_turns m (length xs) k) next ∙ left,
        whole ∙ append_assoc ys (x ∷ []) xs,
        kept ∙ same,
      ),
    )

-- In an open call, over as many ends of turn by the DM as the turn order is long, none is refused,
-- everyone in the order has the turn once, in that order, and then the order is the same again and
-- the participants are unchanged.
pub holders_round :
    (m : Caller) (c : InitiativeCall)
    → m.is_dm ≡ true
    → c.status ≡ "open"
    → (holders m (length (turn_order c)) c ≡ pass (turn_order c))
      × ((d : InitiativeCall) × (after_turns m (length (turn_order c)) c ≡ pass d)
          × (turn_order d ≡ turn_order c)
          × (d.participants ≡ c.participants))
holders_round m c master opened =
    holders_prefix m (turn_order c) [] c master opened (sym (append-nil (turn_order c)))
