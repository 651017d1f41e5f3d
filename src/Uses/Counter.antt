-- ===== src/Uses/Counter.antt =====
-- The abstract counter of a limited use, and what the filters of a spending find of it.
use rolebook_backend.Common.{
  ◌-◌, String, ◌≡◌, ◌≢◌, refl, sym, ◌∙◌, ap, Bool, true, false, not, ◌&&◌, ◌||◌, Option, none, some,
  List, [], ◌∷◌, ◌==◌, nat_eq, ltb, if◌then◌else◌, All, arith, Bool-cases, inl, inr, eq_iff,
}
use rolebook_backend.Http.{fetched}
use rolebook_backend.Documents.{Collection}
use rolebook_backend.Uses.{
  LimitedUse, UsesSheet, Used, done, refused, no_uses_left, Spent, spent, removed, has_use,
  at_first, without_use, first_use, with_id,
}

-- The counter: nothing to spend, the last use of an ability that does not reset, or one use less.
unfoldable pub spend_counter : LimitedUse → Used Spent
spend_counter u =
    if nat_eq u.remaining 0
    then refused no_uses_left
    else if not u.resets && nat_eq u.remaining 1
    then done removed
    else done (spent (record u { remaining = u.remaining - 1 }))

-- What the counter leaves of the use.
abbrev pub left_of : Used Spent → LimitedUse → Option LimitedUse
left_of (refused e) u = some u
left_of (done removed) u = none
left_of (done (spent v)) u = some v

abbrev pub is_last : LimitedUse → Bool
is_last u = not u.resets && nat_eq u.remaining 1

abbrev pub has_more : LimitedUse → Bool
has_more u = ltb 0 u.remaining && (u.resets || ltb 1 u.remaining)

pub spend_counter-removed : (u : LimitedUse) → is_last u ≡ true → spend_counter u ≡ done removed
unfolding spend_counter
spend_counter-removed u h = ground arith

pub spend_counter-spent :
    (u : LimitedUse)
    → is_last u ≡ false
    → has_more u ≡ true
    → spend_counter u ≡ done (spent (record u { remaining = u.remaining - 1 }))
unfolding spend_counter
spend_counter-spent u l h = ground arith

pub spend_counter-refused :
    (u : LimitedUse)
    → is_last u ≡ false
    → has_more u ≡ false
    → (ltb 0 u.remaining ≡ false) × (spend_counter u ≡ refused no_uses_left)
unfolding spend_counter
spend_counter-refused u l h = ground arith

-- A collection whose reads and writes are answered.
pub record Answers (c : Collection UsesSheet) : Type 0 where
  pub find_one :
      (id : String) (test : UsesSheet → Bool) (db : c.Db)
      → (o : Option UsesSheet) × (c.find_one id test db ≡ fetched o)
  pub find_one_and_update :
      (id : String) (test : UsesSheet → Bool) (f : UsesSheet → UsesSheet) (db : c.Db)
      → (o : Option UsesSheet) × ((c.find_one_and_update id test f db).0 ≡ fetched o)
  pub update_one :
      (id : String) (test : UsesSheet → Bool) (f : UsesSheet → UsesSheet) (db : c.Db)
      → (b : Bool) × ((c.update_one id test f db).0 ≡ fetched b)

-- Only the use itself has its id.
abbrev pub IsAlone : String → LimitedUse → List LimitedUse → Type 0
IsAlone id u us = All (λ v. (v.id == id) ≡ true → v ≡ u) us

pub has_use-first_use :
    (id : String) (u : LimitedUse) (us : List LimitedUse)
    → first_use id us ≡ some u
    → has_use (with_id id) us ≡ true
has_use-first_use id u [] f = cc
has_use-first_use id u (v ∷ us) f = elim (Bool-cases (v.id == id)) [
  | inl e ↦ ground (arith, e)
  | inr e ↦
      let rest : first_use id us ≡ some u =
        sym (ap (λ (b : Bool). if b then some v else first_use id us) e) ∙ f in
      ground (arith, has_use-first_use id u us rest)
]

module _ (id : String) (u : LimitedUse) (t : LimitedUse → Bool) where
  abbrev pub test_of : LimitedUse → Bool
  test_of v = v.id == id && t v

  head_same :
      (v : LimitedUse) (us : List LimitedUse)
      → (v.id == id) ≡ true
      → first_use id (v ∷ us) ≡ some u
      → v ≡ u
  head_same v us e f =
      some_inj (sym (ap (λ (b : Bool). if b then some v else first_use id us) e) ∙ f)
    where
      some_inj : {a b : LimitedUse} → some a ≡ some b → a ≡ b
      some_inj q = cc

  pub has_use-false :
      (us : List LimitedUse) → IsAlone id u us → t u ≡ false → has_use test_of us ≡ false
  has_use-false [] a f = refl
  has_use-false (v ∷ us) (p, a) f = elim (Bool-cases (v.id == id)) [
    | inl e ↦ ground (arith, e, f, ap t (p e), has_use-false us a f)
    | inr e ↦ ground (arith, e, has_use-false us a f)
  ]

  pub has_use-true :
      (us : List LimitedUse) → first_use id us ≡ some u → t u ≡ true → has_use test_of us ≡ true
  has_use-true [] f h = cc
  has_use-true (v ∷ us) f h = elim (Bool-cases (v.id == id)) [
    | inl e ↦ ground (arith, e, h, ap t (head_same v us e f))
    | inr e ↦
        let rest : first_use id us ≡ some u =
          sym (ap (λ (b : Bool). if b then some v else first_use id us) e) ∙ f in
        ground (arith, has_use-true us rest h)
  ]

  pub first_use-at_first :
      (f : LimitedUse → LimitedUse) (us : List LimitedUse)
      → first_use id us ≡ some u
      → t u ≡ true
      → (f u).id ≡ u.id
      → first_use id (at_first test_of f us) ≡ some (f u)
  first_use-at_first f [] s h k = cc
  first_use-at_first f (v ∷ us) s h k = elim (Bool-cases (v.id == id)) [
    | inl e ↦
        let same : v ≡ u = head_same v us e s in
        let hit : test_of v ≡ true = ground (arith, e, ap t same ∙ h) in
        let kept_id : ((f v).id == id) ≡ true =
          ap (λ (x : LimitedUse). (f x).id == id) same
          ∙ ap (λ x. x == id) k
          ∙ sym (ap (λ (x : LimitedUse). x.id == id) same)
          ∙ e in
        ap (λ (b : Bool). first_use id (if b then f v ∷ us else v ∷ at_first test_of f us)) hit
        ∙ ap (λ (b : Bool). if b then some (f v) else first_use id us) kept_id
        ∙ ap (λ x. some (f x)) same
    | inr e ↦
        let rest : first_use id us ≡ some u =
          sym (ap (λ (b : Bool). if b then some v else first_use id us) e) ∙ s in
        let miss : test_of v ≡ false = ground (arith, e) in
        ap (λ (b : Bool). first_use id (if b then f v ∷ us else v ∷ at_first test_of f us)) miss
        ∙ ap (λ (b : Bool). if b then some v else first_use id (at_first test_of f us)) e
        ∙ first_use-at_first f us rest h k
  ]

-- The removal and the change of a use leave those of other ids.
pub first_use-without_use :
    (id : String) (us : List LimitedUse) → first_use id (without_use id us) ≡ none
first_use-without_use id [] = refl
first_use-without_use id (v ∷ us) = elim (Bool-cases (v.id == id)) [
  | inl e ↦ ground (arith, e, first_use-without_use id us)
  | inr e ↦ ground (arith, e, first_use-without_use id us)
]

pub first_use-without_use_other :
    (id k : String) (us : List LimitedUse)
    → k ≢ id
    → first_use k (without_use id us) ≡ first_use k us
first_use-without_use_other id k [] other = refl
first_use-without_use_other id k (v ∷ us) other = elim (Bool-cases (v.id == id)) [
  | inl e ↦
      ground
        (arith, e, other, eq_iff v.id id, eq_iff v.id k, first_use-without_use_other id k us other)
  | inr e ↦ ground (arith, e, first_use-without_use_other id k us other)
]

pub first_use-at_first_other :
    (id k : String) (t : LimitedUse → Bool) (f : LimitedUse → LimitedUse) (us : List LimitedUse)
    → ((v : LimitedUse) → (f v).id ≡ v.id)
    → k ≢ id
    → first_use k (at_first (λ v. v.id == id && t v) f us) ≡ first_use k us
first_use-at_first_other id k t f [] kept other = refl
first_use-at_first_other id k t f (v ∷ us) kept other = elim (Bool-cases (v.id == id && t v)) [
  | inl e ↦ ground (arith, e, other, kept v, eq_iff v.id id, eq_iff v.id k, eq_iff (f v).id k)
  | inr e ↦ ground (arith, e, first_use-at_first_other id k t f us kept other)
]
