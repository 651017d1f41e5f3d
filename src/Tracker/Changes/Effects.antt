-- ===== src/Tracker/Changes/Effects.antt =====
-- What each change leaves when it is accepted.
use rolebook_backend.Common.{
  ℕ, String, ◌≡◌, ◌≢◌, refl, Bool, true, false, not, Option, none, some, List, [], ◌∷◌, ◌==◌,
  eq_iff, arith, if◌then◌else◌, filter, ◌⊎◌, ◌↔◌, All, Bool-cases, Option-cases, inl, inr,
}
use mathlib.Core.Path.{subst}
use rolebook_backend.Http.{Checked, pass, deny, >>=-eq-pass, >>-eq-pass}
use rolebook_backend.Initiative.{InitiativeParticipant, InitiativeCall, turn_order, first_or_empty}
use rolebook_backend.Initiative.Turns.{ids_of}
use rolebook_backend.Tracker.Changes.{
  Caller, SubmitInitiativeRequest, submit_change, any_of_player, end_turn_change, end_turn_with,
  remove_enemy_change, submit_all, change_first, or_not_found, without_enemy, found_enemy,
  kept_other, to_back, player_of,
}

pub submit_all-ids :
    (body : SubmitInitiativeRequest) (at : ℕ) (by : String) (ps : List InitiativeParticipant)
    → ids_of (submit_all body at by ps) ≡ ids_of ps
unfolding submit_all
submit_all-ids body at by [] = refl
submit_all-ids body at by (p ∷ ps) = ground (arith, submit_all-ids body at by ps)

-- An accepted submission sets the roll of the player's participants.
pub submit_change_effect :
    (body : SubmitInitiativeRequest) (at : ℕ) (m : Caller) (c c' : InitiativeCall)
    → submit_change body at m c ≡ pass c'
    → record c { participants = submit_all body at m.player_id c.participants } ≡ c'
unfolding submit_change
submit_change_effect body at m c c' e =
    elim (Bool-cases (any_of_player body.player_id c.participants)) [
      | inl t ↦ ground arith
      | inr f ↦ absurd (ground arith)
    ]

pub change_first-ids :
    (id : String) (f : InitiativeParticipant → InitiativeParticipant)
    (ps qs : List InitiativeParticipant)
    → ((p : InitiativeParticipant) → (f p).id ≡ p.id)
    → change_first id f ps ≡ some qs
    → ids_of qs ≡ ids_of ps
change_first-ids id f [] qs same e = cc
change_first-ids id f (p ∷ ps) qs same e = elim (Bool-cases (p.id == id)) [
  | inl hit ↦ ground (arith, same p)
  | inr miss ↦ elim (Option-cases (change_first id f ps)) [
    | inl lost ↦ absurd (ground arith)
    | inr (rs, found) ↦ ground (arith, change_first-ids id f ps rs same found)
  ]
]

pub or_not_found_effect :
    (message : String) (c c' : InitiativeCall) (o : Option (List InitiativeParticipant))
    → or_not_found message c o ≡ pass c'
    → (ps : List InitiativeParticipant) × (o ≡ some ps) × (record c { participants = ps } ≡ c')
or_not_found_effect message c c' none e = cc
or_not_found_effect message c c' (some ps) e = (ps, refl, ground arith)

abbrev pub has_other_id : String → InitiativeParticipant → Bool
has_other_id id p = not (p.id == id)

-- What `RemoveEnemy` may leave of a list.
abbrev pub IsWithout : String → List InitiativeParticipant → List InitiativeParticipant → Type 0
IsWithout id ps next =
    (next ≡ filter (has_other_id id) ps)
    × All (λ p. (has_other_id id p ≡ true) ⊎ (p.participant_type ≡ "enemy")) ps

found_enemy_effect :
    (id : String) (p : InitiativeParticipant) (ps next : List InitiativeParticipant) (found : Bool)
    (later : Checked (List InitiativeParticipant × Bool))
    → p.id == id ≡ true
    → ((rest : List InitiativeParticipant) (f : Bool)
        → later ≡ pass (rest, f)
        → IsWithout id ps rest)
    → found_enemy p later ≡ pass (next, found)
    → IsWithout id (p ∷ ps) next
found_enemy_effect id p ps next found (deny s m c) hit ih e = cc
found_enemy_effect id p ps next found (pass (rest, f)) hit ih e =
    let (same, only) = ih rest f refl in
    (ground arith, (inr (ground (arith, eq_iff p.participant_type "enemy")), only))

kept_other_effect :
    (id : String) (p : InitiativeParticipant) (ps next : List InitiativeParticipant) (found : Bool)
    (later : Checked (List InitiativeParticipant × Bool))
    → p.id == id ≡ false
    → ((rest : List InitiativeParticipant) (f : Bool)
        → later ≡ pass (rest, f)
        → IsWithout id ps rest)
    → kept_other p later ≡ pass (next, found)
    → IsWithout id (p ∷ ps) next
kept_other_effect id p ps next found (deny s m c) miss ih e = cc
kept_other_effect id p ps next found (pass (rest, f)) miss ih e =
    let (same, only) = ih rest f refl in (ground arith, (inl (ground arith), only))

-- What is kept is what has another id, in order; what is left out was an enemy.
pub without_enemy_effect :
    (id : String) (ps next : List InitiativeParticipant) (found : Bool)
    → without_enemy id ps ≡ pass (next, found)
    → IsWithout id ps next
unfolding without_enemy
without_enemy_effect id [] next found e = (ground arith, tt)
without_enemy_effect id (p ∷ ps) next found e = elim (Bool-cases (p.id == id)) [
  | inl hit ↦
      found_enemy_effect id p ps next found (without_enemy id ps) hit
        (λ rest f h. without_enemy_effect id ps rest f h) (rw hit at e)
  | inr miss ↦
      kept_other_effect id p ps next found (without_enemy id ps) miss
        (λ rest f h. without_enemy_effect id ps rest f h) (rw miss at e)
]

-- An accepted removal leaves the others as they were, took out enemies only, and the id has gone
-- from the frozen order and the current turn.
pub remove_enemy_change_effect :
    (id : String) (c c' : InitiativeCall)
    → remove_enemy_change id c ≡ pass c'
    → IsWithout id c.participants c'.participants
      × (c'.turn_order_participant_ids ≡ filter (λ i. not (i == id)) c.turn_order_participant_ids)
      × (c'.current_turn_participant_id
          ≡ (if c.current_turn_participant_id == id then "" else c.current_turn_participant_id))
      × (c'.status ≡ c.status)
      × (c'.has_turn_cycle_started ≡ c.has_turn_cycle_started)
unfolding remove_enemy_change
remove_enemy_change_effect id c c' e =
    let ((next, found), e1, e2) = >>=-eq-pass (without_enemy id c.participants) _ e in
    let (there, e3) = >>-eq-pass (not found) _ _ _ _ e2 in
    let effect = without_enemy_effect id c.participants next found e1 in
    (
      subst (IsWithout id c.participants) (ground arith) effect,
      ground arith,
      ground arith,
      ground arith,
      ground arith,
    )

-- Who may end the turn: the DM, or the player whose participant has it.
abbrev pub MayEndTurn : Caller → String → InitiativeCall → Type 0
MayEndTurn m x c =
    (m.is_dm ≡ true)
    ⊎ ((player_of x c.participants ≡ m.player_id) × (player_of x c.participants ≢ ""))

abbrev pub turn_ended : InitiativeCall → InitiativeCall
turn_ended c = record c {
  turn_order_participant_ids = to_back (turn_order c);
  current_turn_participant_id = first_or_empty (to_back (turn_order c));
  has_turn_cycle_started = true;
}

end_turn_with_iff :
    (o : List String) (x : String) (xs : List String) (m : Caller) (c : InitiativeCall)
    → o ≡ x ∷ xs
    → (end_turn_with o m c
        ≡ pass (record c {
          turn_order_participant_ids = to_back o;
          current_turn_participant_id = first_or_empty (to_back o);
          has_turn_cycle_started = true;
        }))
      ↔ MayEndTurn m x c
unfolding end_turn_with
end_turn_with_iff [] x xs m c e = cc
end_turn_with_iff (y ∷ ys) x xs m c e =
    let same : y ≡ x = ground arith in
    (
      λ h. ground (
        arith,
        same,
        eq_iff (player_of y c.participants) "",
        eq_iff (player_of y c.participants) m.player_id,
      ),
      λ h. ground (
        arith,
        same,
        eq_iff (player_of y c.participants) "",
        eq_iff (player_of y c.participants) m.player_id,
      ),
    )

-- The turn of the participant at the head of a turn order ends exactly when the DM or that
-- participant's own player asks; the order then goes round by one.
pub end_turn_change_iff :
    (m : Caller) (c : InitiativeCall) (x : String) (xs : List String)
    → turn_order c ≡ x ∷ xs
    → (end_turn_change m c ≡ pass (turn_ended c)) ↔ MayEndTurn m x c
unfolding end_turn_change
end_turn_change_iff m c x xs e = end_turn_with_iff (turn_order c) x xs m c e

end_turn_with_effect :
    (o : List String) (m : Caller) (c c' : InitiativeCall)
    → end_turn_with o m c ≡ pass c'
    → (o ≢ [])
      × (record c {
        turn_order_participant_ids = to_back o;
        current_turn_participant_id = first_or_empty (to_back o);
        has_turn_cycle_started = true;
      }
          ≡ c')
unfolding end_turn_with
end_turn_with_effect [] m c c' e = cc
end_turn_with_effect (x ∷ xs) m c c' e = ((λ h. cc), ground arith)

pub end_turn_change_effect :
    (m : Caller) (c c' : InitiativeCall)
    → end_turn_change m c ≡ pass c'
    → (turn_order c ≢ []) × (turn_ended c ≡ c')
unfolding end_turn_change
end_turn_change_effect m c c' e = end_turn_with_effect (turn_order c) m c c' e
