-- ===== src/Initiative/Merge.antt =====
-- Merging the frozen order with the sorted ids (`TurnOrderParticipantIDs`).
use rolebook_backend.Common.{
  ◌+◌, if◌then◌else◌, contains-filter, String, ◌≡◌, refl, sym, ◌∙◌, ap, true, not, List, [], ◌∷◌,
  ◌++◌, arith, filter, count, contains, SameItems, IsDistinct, count-append, count-filter,
  contains-append, contains-count, not-contains-count, filter_all, filter_none,
}
use mathlib.Core.List.{append-nil}
use mathlib.Core.Path.{◌≡⟨◌⟩◌, ◌∎}
use rolebook_backend.Initiative.{join_order, merge_order}

-- Whatever stayed of the frozen order.
join_order-append :
    (sorted kept : List String)
    → join_order sorted kept ≡ kept ++ filter (λ id. not (contains kept id)) sorted
unfolding join_order
join_order-append sorted [] = sym (filter_all (λ id. true) sorted (λ s h. refl))
join_order-append sorted (p ∷ ps) = refl

count-join_order :
    (s : String) (sorted kept : List String)
    → count s (join_order sorted kept)
      ≡ count s kept + (if not (contains kept s) then count s sorted else 0)
count-join_order s sorted kept =
    rw (join_order-append, count-append)
      (ap (λ n. count s kept + n) (count-filter s (λ id. not (contains kept id)) sorted))

-- Merged without a loss: with distinct ids on both sides, each sorted id comes exactly once.
pub merge_order-SameItems :
    (sorted frozen : List String)
    → IsDistinct sorted
    → IsDistinct frozen
    → SameItems (merge_order sorted frozen) sorted
unfolding merge_order
merge_order-SameItems sorted frozen h k s = ground (
  arith,
  h s,
  k s,
  count-join_order s sorted (filter (contains sorted) frozen),
  count-filter s (contains sorted) frozen,
  contains-count s sorted,
  not-contains-count s sorted,
  contains-count s (filter (contains sorted) frozen),
  not-contains-count s (filter (contains sorted) frozen),
)

-- An order with the same members as the sorted ids is left as it is.
pub merge_order_settled :
    (sorted frozen : List String)
    → ((s : String) → contains frozen s ≡ contains sorted s)
    → merge_order sorted frozen ≡ frozen
unfolding merge_order
merge_order_settled sorted frozen h =
    join_order sorted (filter (contains sorted) frozen)
    ≡⟨ ap (join_order sorted) (filter_all (contains sorted) frozen (λ s c. sym (h s) ∙ c)) ⟩
      join_order sorted frozen
    ≡⟨ join_order-append sorted frozen ⟩ frozen ++ filter (λ id. not (contains frozen id)) sorted
    ≡⟨ ap (λ l. frozen ++ l)
        (filter_none (λ id. not (contains frozen id)) sorted (λ s c. ap not (h s ∙ c))) ⟩
      frozen ++ []
    ≡⟨ append-nil frozen ⟩ frozen ∎

-- A member of the sorted ids is a member of the merged order, and the other way round.
pub contains-merge_order :
    (sorted frozen : List String) (s : String)
    → contains (merge_order sorted frozen) s ≡ contains sorted s
unfolding merge_order
contains-merge_order sorted frozen s =
    let kept : List String = filter (contains sorted) frozen in
    rw (join_order-append, contains-append, contains-filter s (λ id. not (contains kept id)) sorted)
      (ground (arith, contains-filter s (contains sorted) frozen))
