-- ===== src/Initiative.antt =====
-- internal/model/initiative.go and internal/initiative/turnorder.go: the initiative call of a
-- campaign, and how its turn order is computed. `*int` fields are `Option`, the clock's Unix
-- milliseconds are natural numbers, and `sort.SliceStable` is a stable insertion sort.
pub mod Sort
pub mod Merge
pub mod Rotation
pub mod Turns
use rolebook_backend.Common.{
  ℕ, zero, suc, String, Bool, true, false, not, ◌&&◌, Option, none, some, List, [], ◌∷◌, ◌++◌, map,
  ◌==◌, take, drop, filter, contains, if◌then◌else◌,
}
use rolebook_backend.Common.Int.{ℤ, negsuc, ltb_ℤ}
use rolebook_backend.Common.Text.{str_less}

pub record InitiativeParticipant : Type 0 where
  pub id : String
  pub participant_type : String
  pub name : String
  pub initiative : Option ℤ
  pub player_id : String
  pub avatar_uri : String
  pub submitted_by_player_id : String
  pub submitted_at : Option ℕ
  pub is_skipped : Bool

pub record InitiativeCall : Type 0 where
  pub campaign_id : String
  pub id : String
  pub status : String
  pub started_at : ℕ
  pub updated_at : ℕ
  pub started_by_player_id : String
  pub participants : List InitiativeParticipant
  pub turn_order_participant_ids : List String
  pub current_turn_participant_id : String
  pub has_turn_cycle_started : Bool
  pub version : ℕ
  pub resolved_at : Option ℕ

-- The key by which `SortParticipants` compares: -999 where no roll is there.
abbrev pub sort_key : Option ℤ → ℤ
sort_key none = negsuc 998
sort_key (some v) = v

-- The comparator of `SortParticipants`: higher rolls first, ties by name.
unfoldable pub goes_before : InitiativeParticipant → InitiativeParticipant → Bool
goes_before p q =
    let li = sort_key p.initiative in
    let ri = sort_key q.initiative in
    if ltb_ℤ ri li then true else if ltb_ℤ li ri then false else str_less p.name q.name

-- One step of the stable sort: past those that go strictly before.
pub insert_participant :
    InitiativeParticipant → List InitiativeParticipant → List InitiativeParticipant
insert_participant p [] = p ∷ []
insert_participant p (q ∷ qs) =
    let rest = insert_participant p qs in if goes_before q p then q ∷ rest else p ∷ q ∷ qs

unfoldable pub sort_participants : List InitiativeParticipant → List InitiativeParticipant
unfolding insert_participant
sort_participants [] = []
sort_participants (p ∷ ps) = insert_participant p (sort_participants ps)

-- The first index of an id; `none` stands for -1.
abbrev pub index_of : String → List String → Option ℕ
index_of s [] = none
index_of s (x ∷ xs) =
    let later = index_of s xs in
    if x == s then some 0 else elim later [ none ↦ none | some i ↦ some (suc i) ]

-- `append(ids[idx:], ids[:idx]...)`, but for an index that is 0 or missing.
abbrev pub rotate_at : List String → Option ℕ → List String
rotate_at ids none = ids
rotate_at ids (some zero) = ids
rotate_at ids (some (suc i)) = drop (suc i) ids ++ take (suc i) ids

unfoldable pub rotate_ids_to_front : List String → String → List String
rotate_ids_to_front ids active = if active == "" then ids else rotate_at ids (index_of active ids)

abbrev pub is_some : Option ℤ → Bool
is_some none = false
is_some (some _) = true

-- The loop that collects those who rolled and are not skipped.
abbrev pub is_submitted : InitiativeParticipant → Bool
is_submitted p = is_some p.initiative && not p.is_skipped

unfoldable pub sorted_ids : List InitiativeParticipant → List String
sorted_ids ps = map (λ p. p.id) (sort_participants (filter is_submitted ps))

-- Those of the frozen order who are still in it, then those who are new to it.
unfoldable pub join_order : List String → List String → List String
join_order sorted [] = sorted
join_order sorted (p ∷ ps) = (p ∷ ps) ++ filter (λ id. not (contains (p ∷ ps) id)) sorted

unfoldable pub merge_order : List String → List String → List String
merge_order sorted frozen = join_order sorted (filter (contains sorted) frozen)

-- `TurnOrderParticipantIDs` on the sorted ids.
abbrev pub order_of : List String → Bool → List String → String → List String
order_of [] started frozen current = []
order_of (s ∷ ss) started frozen current =
    if started then rotate_ids_to_front (merge_order (s ∷ ss) frozen) current else s ∷ ss

unfoldable pub turn_order : InitiativeCall → List String
turn_order c =
    if c.status == "open"
    then order_of (sorted_ids c.participants) c.has_turn_cycle_started c.turn_order_participant_ids
        c.current_turn_participant_id
    else []

unfoldable pub resort : InitiativeCall → InitiativeCall
resort c = record c { turn_order_participant_ids = [] }

abbrev pub first_or_empty : List String → String
first_or_empty [] = ""
first_or_empty (x ∷ xs) = x

unfoldable pub sync_turn_state : InitiativeCall → InitiativeCall
sync_turn_state c =
    let order = turn_order c in
    record c {
      turn_order_participant_ids = order;
      current_turn_participant_id = first_or_empty order;
    }
