-- ===== src/Scenarios/Turns.antt =====
-- Turn orders of a small fight.
use rolebook_backend.Common.{
  String, ◌≡◌, refl, true, false, [], ◌∷◌, ◌==◌, length, contains, SameItems, IsDistinct, arith,
  eq_iff,
}
use mathlib.Core.List.{Permᴰ}
use rolebook_backend.Http.{pass}
use rolebook_backend.Initiative.{
  InitiativeCall, turn_order, sorted_ids, sync_turn_state, first_or_empty, sort_participants,
  goes_before,
}
use rolebook_backend.Initiative.Sort.{IsRanked, sort_participants-IsRanked}
use rolebook_backend.Initiative.Turns.{
  ids_of, submitted_ids, turn_order-SameItems, sync_turn_state_idem,
}
use rolebook_backend.Tracker.Changes.{Caller, end_turn_change, remove_enemy_change}
use rolebook_backend.Tracker.Changes.Effects.{turn_ended}
use rolebook_backend.Tracker.Invariant.{ends_turn, apply, Inv, apply_exact}
use rolebook_backend.Tracker.RoundRobin.{holders, holders_round, after_turns}
use rolebook_backend.Scenarios.Memory.{ana, bo, goblin, fight}

IsDistinct-three :
    (a b c : String)
    → a == b ≡ false
    → a == c ≡ false
    → b == c ≡ false
    → IsDistinct (a ∷ b ∷ c ∷ [])
IsDistinct-three a b c ab ac bc s =
    ground (arith, eq_iff a s, eq_iff b s, eq_iff c s, eq_iff a b, eq_iff a c, eq_iff b c)

fight-IsDistinct : IsDistinct (ids_of fight.participants)
fight-IsDistinct = IsDistinct-three "player-ana" "player-bo" "enemy-goblin" refl refl refl

none-IsDistinct : IsDistinct []
none-IsDistinct s = omega arith

fight-Inv : Inv fight
fight-Inv = record { opened = refl; distinct = fight-IsDistinct; distinct_order = none-IsDistinct }

abbrev dm : Caller
dm = record { is_dm = true; player_id = "dm" }

-- The fight after the goblin's turn: Ana is next.
abbrev started : InitiativeCall
started = record fight {
  turn_order_participant_ids = "player-ana" ∷ "enemy-goblin" ∷ [];
  current_turn_participant_id = "player-ana";
  has_turn_cycle_started = true;
}

fight_order : turn_order fight ≡ "enemy-goblin" ∷ "player-ana" ∷ []
unfolding turn_order sorted_ids sort_participants goes_before
fight_order = refl

abbrev goblin_removed : InitiativeCall
goblin_removed = record started {
  participants = ana ∷ bo ∷ [];
  turn_order_participant_ids = "player-ana" ∷ [];
}

sort_participants-IsRanked_example :
    IsRanked (sort_participants (ana ∷ bo ∷ goblin ∷ []))
    × Permᴰ (sort_participants (ana ∷ bo ∷ goblin ∷ [])) (ana ∷ bo ∷ goblin ∷ [])
sort_participants-IsRanked_example = sort_participants-IsRanked (ana ∷ bo ∷ goblin ∷ [])

turn_order-SameItems_example : SameItems (turn_order fight) (submitted_ids fight)
turn_order-SameItems_example = turn_order-SameItems fight refl fight-IsDistinct none-IsDistinct

sync_turn_state_idem_example : sync_turn_state (sync_turn_state started) ≡ sync_turn_state started
sync_turn_state_idem_example = sync_turn_state_idem started

ana_in_order : contains (sorted_ids started.participants) "player-ana" ≡ true
unfolding sorted_ids sort_participants goes_before
ana_in_order = refl

holders_round_example :
    (holders dm (length (turn_order fight)) fight ≡ pass (turn_order fight))
    × ((c : InitiativeCall) × (after_turns dm (length (turn_order fight)) fight ≡ pass c)
        × (turn_order c ≡ turn_order fight)
        × (c.participants ≡ fight.participants))
holders_round_example = holders_round dm fight refl refl

goblin_accepted : remove_enemy_change "enemy-goblin" started ≡ pass goblin_removed
unfolding remove_enemy_change
goblin_accepted = refl

abbrev goblin_turn_over : InitiativeCall
goblin_turn_over = turn_ended fight

turn_accepted : apply (ends_turn dm) fight ≡ pass goblin_turn_over
unfolding apply end_turn_change turn_order sorted_ids sort_participants goes_before
turn_accepted = refl

apply_exact_example :
    Inv (sync_turn_state goblin_turn_over)
    × SameItems
        (sync_turn_state goblin_turn_over).turn_order_participant_ids
        (submitted_ids (sync_turn_state goblin_turn_over))
    × ((sync_turn_state goblin_turn_over).current_turn_participant_id
        ≡ first_or_empty (sync_turn_state goblin_turn_over).turn_order_participant_ids)
apply_exact_example = apply_exact (ends_turn dm) fight goblin_turn_over fight-Inv tt turn_accepted
