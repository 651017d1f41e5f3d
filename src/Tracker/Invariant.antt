-- ===== src/Tracker/Invariant.antt =====
-- Every change of a call keeps its ids distinct, so its turn order stays exact.
use rolebook_backend.Common.{
  ℕ, ◌≤◌, String, ◌≡◌, refl, ◌∙◌, Bool, not, List, [], ◌∷◌, ◌++◌, ◌==◌, eq_iff, arith, count,
  filter, SameItems, IsDistinct, count-append, Bool-cases, inl, inr, count-filter,
}
use mathlib.Core.List.{map-append}
use mathlib.Core.Path.{subst}
use rolebook_backend.Http.{Checked, pass}
use rolebook_backend.Initiative.{
  InitiativeParticipant, InitiativeCall, turn_order, resort, sync_turn_state, first_or_empty,
}
use rolebook_backend.Initiative.Turns.{
  ids_of, submitted_ids, turn_order-SameItems, turn_order-IsDistinct,
}
use rolebook_backend.Tracker.Changes.{
  Caller, SubmitInitiativeRequest, EnemyInitiativeRequest, submit_change, enemy_change,
  end_turn_change, resort_change, skip_change, remove_enemy_change, change_first, or_not_found,
  new_enemy, to_back,
}
use rolebook_backend.Tracker.Changes.Effects.{
  submit_all-ids, submit_change_effect, change_first-ids, or_not_found_effect, has_other_id,
  remove_enemy_change_effect, end_turn_change_effect,
}

-- The changes that the endpoints make, with the clock's reading and the new id.
pub data Change : Type 0 where
  submits : SubmitInitiativeRequest → ℕ → Caller → Change
  rolls_enemy : EnemyInitiativeRequest → ℕ → String → Caller → Change
  ends_turn : Caller → Change
  resorts : Change
  skips : String → Bool → Change
  removes_enemy : String → Change

unfoldable pub apply : Change → InitiativeCall → Checked InitiativeCall
apply (submits body at m) c = submit_change body at m c
apply (rolls_enemy body at uuid m) c = enemy_change body at uuid m c
apply (ends_turn m) c = end_turn_change m c
apply resorts c = resort_change c
apply (skips id skipped) c = skip_change id skipped c
apply (removes_enemy id) c = remove_enemy_change id c

-- A new participant's id is new to the call.
abbrev pub IsFresh : Change → InitiativeCall → Type 0
IsFresh (rolls_enemy body at uuid m) c = count uuid (ids_of c.participants) ≡ 0
IsFresh _ c = Unit

-- An open call whose ids are distinct, on both lists.
pub record Inv (c : InitiativeCall) : Type 0 where
  pub opened : c.status ≡ "open"
  pub distinct : IsDistinct (ids_of c.participants)
  pub distinct_order : IsDistinct c.turn_order_participant_ids

Inv-participants :
    (c : InitiativeCall) (ps : List InitiativeParticipant)
    → Inv c
    → ids_of ps ≡ ids_of c.participants
    → Inv (record c { participants = ps })
Inv-participants c ps v e = record {
  opened = v.opened;
  distinct = λ s. rw e (v.distinct s);
  distinct_order = v.distinct_order;
}

or_not_found-Inv :
    (message id : String) (f : InitiativeParticipant → InitiativeParticipant)
    (c c' : InitiativeCall)
    → Inv c
    → ((p : InitiativeParticipant) → (f p).id ≡ p.id)
    → or_not_found message c (change_first id f c.participants) ≡ pass c'
    → Inv c'
or_not_found-Inv message id f c c' v same e =
    let (ps, found, result) =
      or_not_found_effect message c c' (change_first id f c.participants) e in
    subst Inv result (Inv-participants c ps v (change_first-ids id f c.participants ps same found))

new_enemy-IsDistinct :
    (uuid : String) (ps : List InitiativeParticipant) (p : InitiativeParticipant)
    → IsDistinct (ids_of ps)
    → p.id ≡ uuid
    → count uuid (ids_of ps) ≡ 0
    → IsDistinct (ids_of (ps ++ p ∷ []))
new_enemy-IsDistinct uuid ps p h same fresh s =
    rw (map-append, count-append) (ground (arith, h s, eq_iff uuid s))

enemy_change-Inv :
    (body : EnemyInitiativeRequest) (at : ℕ) (uuid : String) (m : Caller) (c c' : InitiativeCall)
    → Inv c
    → count uuid (ids_of c.participants) ≡ 0
    → enemy_change body at uuid m c ≡ pass c'
    → Inv c'
unfolding enemy_change
enemy_change-Inv body at uuid m c c' v fresh e = elim (Bool-cases (body.participant_id == "")) [
  | inl new_one ↦
      let added : record c {
        participants = c.participants ++ new_enemy body at m.player_id uuid ∷ [];
      }
          ≡ c' =
        ground arith in
      subst Inv added (record {
        opened = v.opened;
        distinct =
            new_enemy-IsDistinct uuid c.participants (new_enemy body at m.player_id uuid) v.distinct
              refl fresh;
        distinct_order = v.distinct_order;
      })
  | inr named ↦
      or_not_found-Inv "enemy participant not found" body.participant_id _ c c' v (λ p. refl)
        (rw named at e)
]

pub count-to_back : (s : String) (o : List String) → count s (to_back o) ≡ count s o
count-to_back s [] = refl
count-to_back s (x ∷ xs) = ground (arith, count-append s xs (x ∷ []))

count-without :
    (s id : String) (ps : List InitiativeParticipant)
    → count s (ids_of (filter (has_other_id id) ps)) ≤ count s (ids_of ps)
count-without s id [] = omega arith
count-without s id (p ∷ ps) = ground (arith, count-without s id ps)

remove_enemy_change-Inv :
    (id : String) (c c' : InitiativeCall) → Inv c → remove_enemy_change id c ≡ pass c' → Inv c'
remove_enemy_change-Inv id c c' v e =
    let (left, order, current, status, started) = remove_enemy_change_effect id c c' e in
    record {
      opened = status ∙ v.opened;
      distinct = λ s. rw left.0 (omega (arith, v.distinct s, count-without s id c.participants));
      distinct_order = λ s. rw order (
          ground (
            arith,
            v.distinct_order s,
            count-filter s (λ i. not (i == id)) c.turn_order_participant_ids,
          ));
    }

pub apply-Inv :
    (change : Change) (c c' : InitiativeCall)
    → Inv c
    → IsFresh change c
    → apply change c ≡ pass c'
    → Inv c'
unfolding apply resort_change resort skip_change
apply-Inv (submits body at m) c c' v fresh e =
    subst Inv (submit_change_effect body at m c c' e)
      (Inv-participants c _ v (submit_all-ids body at m.player_id c.participants))
apply-Inv (rolls_enemy body at uuid m) c c' v fresh e =
    enemy_change-Inv body at uuid m c c' v fresh e
apply-Inv (ends_turn m) c c' v fresh e = subst Inv (end_turn_change_effect m c c' e).1 (record {
  opened = v.opened;
  distinct = v.distinct;
  distinct_order = λ s.
      rw (count-to_back s (turn_order c))
        (turn_order-IsDistinct c v.opened v.distinct v.distinct_order s);
})
apply-Inv resorts c c' v fresh e =
    let same : record c { turn_order_participant_ids = [] } ≡ c' = ground arith in
    subst Inv same
      (record { opened = v.opened; distinct = v.distinct; distinct_order = λ s. omega arith })
apply-Inv (skips id skipped) c c' v fresh e =
    or_not_found-Inv "participant not found" id _ c c' v (λ p. refl) e
apply-Inv (removes_enemy id) c c' v fresh e = remove_enemy_change-Inv id c c' v e

sync_turn_state-Inv : (c : InitiativeCall) → Inv c → Inv (sync_turn_state c)
unfolding sync_turn_state
sync_turn_state-Inv c v = record {
  opened = v.opened;
  distinct = v.distinct;
  distinct_order = turn_order-IsDistinct c v.opened v.distinct v.distinct_order;
}

-- A change of an open call with distinct ids, once it is accepted and synchronised, leaves such a
-- call; its frozen order names each participant who rolled and is not skipped exactly once, and the
-- head of that order has the turn.
pub apply_exact :
    (change : Change) (c c' : InitiativeCall)
    → Inv c
    → IsFresh change c
    → apply change c ≡ pass c'
    → let d = sync_turn_state c' in
      Inv d
      × SameItems d.turn_order_participant_ids (submitted_ids d)
      × (d.current_turn_participant_id ≡ first_or_empty d.turn_order_participant_ids)
unfolding sync_turn_state
apply_exact change c c' v fresh e =
    let v' = apply-Inv change c c' v fresh e in
    (
      unfold sync_turn_state in sync_turn_state-Inv c' v',
      turn_order-SameItems c' v'.opened v'.distinct v'.distinct_order,
      refl,
    )
