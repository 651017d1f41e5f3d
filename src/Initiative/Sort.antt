-- ===== src/Initiative/Sort.antt =====
-- The stable sort of the participants (`SortParticipants`): order and contents.
use rolebook_backend.Common.{
  ◌+◌, ◌<◌, ◌≡◌, refl, ◌⊎◌, inl, inr, true, false, Option, none, some, List, [], ◌∷◌, map, All,
  Bool-cases, arith, SameItems,
}
use mathlib.Core.List.{Permᴰ}
use rolebook_backend.Common.Int.{ℤ, negsuc, pos_part, neg_part, eq_of_parts}
use rolebook_backend.Common.Text.{str_less, str_less_asymm, str_less_negative_trans}
use rolebook_backend.Initiative.{
  InitiativeParticipant, goes_before, insert_participant, sort_participants,
}

-- Nobody stands behind someone whom the comparator puts strictly after them.
abbrev pub IsUnbeaten : List InitiativeParticipant → Type 0
IsUnbeaten [] = Unit
IsUnbeaten (p ∷ ps) = All (λ q. goes_before q p ≡ false) ps × IsUnbeaten ps

pub goes_before_asymm :
    (p q : InitiativeParticipant) → goes_before p q ≡ true → goes_before q p ≡ false
unfolding goes_before
goes_before_asymm p q h = ground (arith, str_less_asymm p.name q.name)

pub goes_before_negative_trans :
    (p q r : InitiativeParticipant)
    → goes_before q p ≡ false
    → goes_before r q ≡ false
    → goes_before r p ≡ false
unfolding goes_before
goes_before_negative_trans p q r h k = ground (arith, str_less_negative_trans p.name q.name r.name)

All-goes_before :
    (p q : InitiativeParticipant) (ps : List InitiativeParticipant)
    → goes_before q p ≡ false
    → All (λ r. goes_before r q ≡ false) ps
    → All (λ r. goes_before r p ≡ false) ps
All-goes_before p q [] h a = tt
All-goes_before p q (r ∷ ps) h (b, a) =
    (goes_before_negative_trans p q r h b, All-goes_before p q ps h a)

All-insert_participant :
    (P : InitiativeParticipant → Type 0) (p : InitiativeParticipant)
    (ps : List InitiativeParticipant)
    → P p
    → All P ps
    → All P (insert_participant p ps)
unfolding insert_participant
All-insert_participant P p [] h a = (h, tt)
All-insert_participant P p (q ∷ qs) h (b, a) = elim (Bool-cases (goes_before q p)) [
  | inl e ↦ rw e (b, All-insert_participant P p qs h a)
  | inr e ↦ rw e (h, (b, a))
]

insert_participant-IsUnbeaten :
    (p : InitiativeParticipant) (ps : List InitiativeParticipant)
    → IsUnbeaten ps
    → IsUnbeaten (insert_participant p ps)
unfolding insert_participant
insert_participant-IsUnbeaten p [] h = (tt, tt)
insert_participant-IsUnbeaten p (q ∷ qs) (a, h) = elim (Bool-cases (goes_before q p)) [
  | inl e ↦ rw e (
    All-insert_participant _ p qs (goes_before_asymm q p e) a,
    insert_participant-IsUnbeaten p qs h,
  )
  | inr e ↦ rw e ((e, All-goes_before p q qs e a), (a, h))
]

sort_participants-IsUnbeaten : (ps : List InitiativeParticipant) → IsUnbeaten (sort_participants ps)
unfolding sort_participants
sort_participants-IsUnbeaten [] = tt
sort_participants-IsUnbeaten (p ∷ ps) =
    insert_participant-IsUnbeaten p (sort_participants ps) (sort_participants-IsUnbeaten ps)

insert_participant-SameItems :
    (p : InitiativeParticipant) (ps : List InitiativeParticipant)
    → SameItems (map (λ q. q.id) (insert_participant p ps)) (p.id ∷ map (λ q. q.id) ps)
unfolding insert_participant
insert_participant-SameItems p [] s = refl
insert_participant-SameItems p (q ∷ qs) s = ground (arith, insert_participant-SameItems p qs s)

-- Sorting neither drops nor adds an id.
pub sort_participants-SameItems :
    (ps : List InitiativeParticipant)
    → SameItems (map (λ q. q.id) (sort_participants ps)) (map (λ q. q.id) ps)
unfolding sort_participants
sort_participants-SameItems [] s = refl
sort_participants-SameItems (p ∷ ps) s = ground (
  arith,
  insert_participant-SameItems p (sort_participants ps) s,
  sort_participants-SameItems ps s,
)

-- The roll that a participant is ranked by.
abbrev pub roll_of : Option ℤ → ℤ
roll_of none = negsuc 998
roll_of (some v) = v

-- p may stand in front of q: its roll is higher, or it is the same and q's name is not smaller.
abbrev pub IsAhead : InitiativeParticipant → InitiativeParticipant → Type 0
IsAhead p q =
    (pos_part (roll_of q.initiative) + neg_part (roll_of p.initiative)
      < pos_part (roll_of p.initiative) + neg_part (roll_of q.initiative))
    ⊎ ((roll_of q.initiative ≡ roll_of p.initiative) × (str_less q.name p.name ≡ false))

-- Everyone may stand in front of all that follow.
abbrev pub IsRanked : List InitiativeParticipant → Type 0
IsRanked [] = Unit
IsRanked (p ∷ ps) = All (IsAhead p) ps × IsRanked ps

goes_before-IsAhead : (p q : InitiativeParticipant) → goes_before q p ≡ false → IsAhead p q
unfolding goes_before
goes_before-IsAhead p q h =
    ground (arith, eq_of_parts (roll_of q.initiative) (roll_of p.initiative))

All-IsAhead :
    (p : InitiativeParticipant) (ps : List InitiativeParticipant)
    → All (λ q. goes_before q p ≡ false) ps
    → All (IsAhead p) ps
All-IsAhead p [] h = tt
All-IsAhead p (q ∷ qs) (a, h) = (goes_before-IsAhead p q a, All-IsAhead p qs h)

unbeaten-IsRanked : (ps : List InitiativeParticipant) → IsUnbeaten ps → IsRanked ps
unbeaten-IsRanked [] h = tt
unbeaten-IsRanked (p ∷ ps) (a, h) = (All-IsAhead p ps a, unbeaten-IsRanked ps h)

insert_participant-Perm :
    (p : InitiativeParticipant) (ps : List InitiativeParticipant)
    → Permᴰ (insert_participant p ps) (p ∷ ps)
unfolding insert_participant
insert_participant-Perm p [] = Permᴰ.cons refl Permᴰ.nil
insert_participant-Perm p (q ∷ qs) = elim (Bool-cases (goes_before q p)) [
  | inl e ↦
      rw e (Permᴰ.trans (Permᴰ.cons refl (insert_participant-Perm p qs)) (Permᴰ.swap refl refl))
  | inr e ↦ rw e (Permᴰ.trans (Permᴰ.swap refl refl) (Permᴰ.swap refl refl))
]

sort_participants-Perm : (ps : List InitiativeParticipant) → Permᴰ (sort_participants ps) ps
unfolding sort_participants
sort_participants-Perm [] = Permᴰ.nil
sort_participants-Perm (p ∷ ps) =
    Permᴰ.trans (insert_participant-Perm p (sort_participants ps))
      (Permᴰ.cons refl (sort_participants-Perm ps))

-- The sorted participants are the participants in another order: higher rolls first, a participant
-- without a roll as one of -999, and of two with the same roll the one with the smaller name.
pub sort_participants-IsRanked :
    (ps : List InitiativeParticipant)
    → IsRanked (sort_participants ps) × Permᴰ (sort_participants ps) ps
sort_participants-IsRanked ps =
    (unbeaten-IsRanked _ (sort_participants-IsUnbeaten ps), sort_participants-Perm ps)
