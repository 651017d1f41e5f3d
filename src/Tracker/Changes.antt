-- ===== src/Tracker/Changes.antt =====
-- The closures that the endpoints of internal/handler/initiative.go hand to `mutateWithRetry`.
-- A rejection is (status, code, message), as in the source;
-- the clock is read once for a change.
pub mod Effects
use rolebook_backend.Common.{
  ℕ, String, Bool, true, false, not, ◌&&◌, ◌||◌, Option, none, some, List, [], ◌∷◌, ◌++◌, map, ◌==◌,
  filter, if◌then◌else◌,
}
use rolebook_backend.Common.Int.{ℤ}
use rolebook_backend.Http.{Checked, pass, deny, ◌>>=◌, ◌>>◌, deny_if}
use rolebook_backend.Initiative.{
  InitiativeParticipant, InitiativeCall, turn_order, first_or_empty, resort,
}

-- What a change of the call reads besides it: the caller, the clock, a new id.
pub record Caller : Type 0 where
  pub is_dm : Bool
  pub player_id : String

pub record SubmitInitiativeRequest : Type 0 where
  pub player_id : String
  pub initiative : ℤ

pub record EnemyInitiativeRequest : Type 0 where
  pub participant_id : String
  pub name : String
  pub initiative : ℤ

abbrev pub rolled : ℤ → ℕ → String → InitiativeParticipant → InitiativeParticipant
rolled v at by p = record p {
  initiative = some v;
  submitted_at = some at;
  submitted_by_player_id = by;
}

-- The loop of `Submit`: every participant of the player.
unfoldable pub submit_all :
    SubmitInitiativeRequest → ℕ → String → List InitiativeParticipant → List InitiativeParticipant
submit_all body at by [] = []
submit_all body at by (p ∷ ps) =
    let rest = submit_all body at by ps in
    (if p.player_id == body.player_id then rolled body.initiative at by p else p) ∷ rest

unfoldable pub any_of_player : String → List InitiativeParticipant → Bool
any_of_player player [] = false
any_of_player player (p ∷ ps) = p.player_id == player || any_of_player player ps

unfoldable pub submit_change :
    SubmitInitiativeRequest → ℕ → Caller → InitiativeCall → Checked InitiativeCall
unfolding submit_all any_of_player
submit_change body at m c =
    if any_of_player body.player_id c.participants
    then pass (record c { participants = submit_all body at m.player_id c.participants })
    else deny 404 "participant not in call" "NOT_FOUND"

-- A change of the first participant with an id; `none` where there is none.
abbrev pub change_first :
    String
    → (InitiativeParticipant → InitiativeParticipant)
    → List InitiativeParticipant
    → Option (List InitiativeParticipant)
change_first id f [] = none
change_first id f (p ∷ ps) =
    let later = change_first id f ps in
    if p.id == id then some (f p ∷ ps) else elim later [ none ↦ none | some qs ↦ some (p ∷ qs) ]

abbrev pub or_not_found :
    String → InitiativeCall → Option (List InitiativeParticipant) → Checked InitiativeCall
or_not_found message c none = deny 404 message "NOT_FOUND"
or_not_found message c (some ps) = pass (record c { participants = ps })

abbrev pub new_enemy : EnemyInitiativeRequest → ℕ → String → String → InitiativeParticipant
new_enemy body at by uuid = record {
  id = uuid;
  participant_type = "enemy";
  name = body.name;
  initiative = some body.initiative;
  player_id = "";
  avatar_uri = "";
  submitted_by_player_id = by;
  submitted_at = some at;
  is_skipped = false;
}

unfoldable pub enemy_change :
    EnemyInitiativeRequest → ℕ → String → Caller → InitiativeCall → Checked InitiativeCall
enemy_change body at uuid m c =
    if not (body.participant_id == "")
    then or_not_found "enemy participant not found" c (
        change_first body.participant_id
          (λ p. rolled body.initiative at m.player_id (record p { name = body.name }))
          c.participants)
    else pass
        (record c { participants = c.participants ++ new_enemy body at m.player_id uuid ∷ [] })

pub any_with_id : String → List InitiativeParticipant → Bool
any_with_id id [] = false
any_with_id id (p ∷ ps) = p.id == id || any_with_id id ps

-- `byID[id].PlayerID`: the last participant with the id counts, and a missing one has no player.
unfoldable pub player_of : String → List InitiativeParticipant → String
unfolding any_with_id
player_of id [] = ""
player_of id (p ∷ ps) =
    let later = player_of id ps in
    if any_with_id id ps then later else if p.id == id then p.player_id else ""

-- `append(order[1:], order[0])`
abbrev pub to_back : List String → List String
to_back [] = []
to_back (x ∷ xs) = xs ++ x ∷ []

end_turn_with : List String → Caller → InitiativeCall → Checked InitiativeCall
end_turn_with [] m c = deny 400 "no turn order yet" "BAD_REQUEST"
end_turn_with (x ∷ xs) m c = do
  let current = player_of x c.participants
  deny_if (not m.is_dm && (current == "" || not (current == m.player_id))) 403 "not your turn"
      "FORBIDDEN"
  pass (record c {
    turn_order_participant_ids = to_back (x ∷ xs);
    current_turn_participant_id = first_or_empty (to_back (x ∷ xs));
    has_turn_cycle_started = true;
  })

unfoldable pub end_turn_change : Caller → InitiativeCall → Checked InitiativeCall
unfolding end_turn_with
end_turn_change m c = end_turn_with (turn_order c) m c

unfoldable pub resort_change : InitiativeCall → Checked InitiativeCall
resort_change c = pass (resort c)

unfoldable pub skip_change : String → Bool → InitiativeCall → Checked InitiativeCall
skip_change id skipped c =
    or_not_found "participant not found" c
      (change_first id (λ p. record p { is_skipped = skipped }) c.participants)

-- A round of the loop of `RemoveEnemy` at a participant with the id, and at another.
abbrev pub found_enemy :
    InitiativeParticipant
    → Checked (List InitiativeParticipant × Bool)
    → Checked (List InitiativeParticipant × Bool)
found_enemy p (deny status message code) = deny status message code
found_enemy p (pass (next, found)) =
    if p.participant_type == "enemy"
    then pass (next, true)
    else deny 400 "only enemies may be removed" "BAD_REQUEST"

abbrev pub kept_other :
    InitiativeParticipant
    → Checked (List InitiativeParticipant × Bool)
    → Checked (List InitiativeParticipant × Bool)
kept_other p (deny status message code) = deny status message code
kept_other p (pass (next, found)) = pass (p ∷ next, found)

-- The loop of `RemoveEnemy`: what is kept, and whether one was found. It has one way to reject, so
-- it does not matter at which participant it does.
pub without_enemy :
    String → List InitiativeParticipant → Checked (List InitiativeParticipant × Bool)
without_enemy id [] = pass ([], false)
without_enemy id (p ∷ ps) =
    let later = without_enemy id ps in
    if p.id == id then found_enemy p later else kept_other p later

unfoldable pub remove_enemy_change : String → InitiativeCall → Checked InitiativeCall
unfolding without_enemy
remove_enemy_change id c = do
  (next, found) ← without_enemy id c.participants
  deny_if (not found) 404 "enemy participant not found" "NOT_FOUND"
  pass (record c {
    participants = next;
    turn_order_participant_ids = filter (λ i. not (i == id)) c.turn_order_participant_ids;
    current_turn_participant_id =
        if c.current_turn_participant_id == id then "" else c.current_turn_participant_id;
  })
