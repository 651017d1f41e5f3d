-- ===== src/Documents/Laws.antt =====
-- What a write by `_id` leaves, seen from each id.
use rolebook_backend.Common.{
  String, ◌≡◌, refl, sym, ◌∙◌, ap, Bool, true, false, Option, none, some, ◌==◌, if◌then◌else◌, ◌⊎◌,
  inl, inr, eq_iff, Bool-cases, str_eq_self,
}
use mathlib.Core.Option
use mathlib.Core.Path.{subst}
use rolebook_backend.Http.{fetched}
use rolebook_backend.Documents.{selected, changed, unless_matched, at, Collection}

module _ {D : Type 0} where
  pub at_cases :
      (id k : String) (o : Option D) (before : String → Option D)
      → ((k ≡ id) × (at id o before k ≡ o)) ⊎ (at id o before k ≡ before k)
  at_cases id k o before = elim (Bool-cases (k == id)) [
    | inl e ↦ inl ((eq_iff k id).0 e, ap (λ (b : Bool). if b then o else before k) e)
    | inr e ↦ inr (ap (λ (b : Bool). if b then o else before k) e)
  ]

  pub at_same : (id : String) (o : Option D) (before : String → Option D) → at id o before id ≡ o
  at_same id o before = ap (λ (b : Bool). if b then o else before id) (str_eq_self id)

  pub selected-some :
      (test : D → Bool) (o : Option D) (d : D)
      → some d ≡ selected test o
      → (o ≡ some d) × (test d ≡ true)
  selected-some test none d e = cc
  selected-some test (some x) d e = elim (Bool-cases (test x)) [
    | inl t ↦
        let same : x ≡ d =
          selected_same x d (e ∙ ap (λ (b : Bool). if b then some x else none) t) in
        (ap some same, ap test (sym same) ∙ t)
    | inr f ↦ absurd_none d (e ∙ ap (λ (b : Bool). if b then some x else none) f)
  ]
    where
      selected_same : (x d : D) → some d ≡ some x → x ≡ d
      selected_same x d e = cc

      absurd_none : {P : Type 0} (d : D) → some d ≡ none → P
      absurd_none d e = cc

  pub changed_some :
      (test : D → Bool) (f : D → D) (d : D) → test d ≡ true → changed test f (some d) ≡ some (f d)
  changed_some test f d t = ap (λ (b : Bool). some (if b then f d else d)) t

  pub kept_some : (test : D → Bool) (d : D) → test d ≡ true → unless_matched test (some d) ≡ none
  kept_some test d t = ap (λ (b : Bool). if b then none else some d) t

  -- What a read by `_id` found is stored and passes the filter.
  pub find_one-some :
      (c : Collection D) (id : String) (test : D → Bool) (db : c.Db) (d : D)
      → c.find_one id test db ≡ fetched (some d)
      → (c.stored db id ≡ some d) × (test d ≡ true)
  find_one-some c id test db d e =
      selected-some test (c.stored db id) d (c.find_one_lem id test db (some d) e)

  mapped_some :
      (f : D → D) (o : Option D) (d : D)
      → some d ≡ Option.map f o
      → (x : D) × (o ≡ some x) × (f x ≡ d)
  mapped_some f none d e = cc
  mapped_some f (some x) d e = (x, refl, cc)

  -- An update that returned a document found one that passes the filter, and left the result in its
  -- place.
  pub find_one_and_update-some :
      (c : Collection D) (id : String) (test : D → Bool) (f : D → D) (db : c.Db) (d : D)
      → (c.find_one_and_update id test f db).0 ≡ fetched (some d)
      → (x : D) × (c.stored db id ≡ some x)
        × (test x ≡ true)
        × (f x ≡ d)
        × (c.stored (c.find_one_and_update id test f db).1 id ≡ some d)
  find_one_and_update-some c id test f db d e =
      let (result, put) = c.find_one_and_update_lem id test f db (some d) e in
      let (x, found, made) = mapped_some f (selected test (c.stored db id)) d result in
      let (here, passed) = selected-some test (c.stored db id) x (sym found) in
      (
        x,
        here,
        passed,
        made,
        put id
            ∙ at_same id (changed test f (c.stored db id)) (c.stored db)
            ∙ ap (changed test f) here
            ∙ changed_some test f x passed
            ∙ ap some made,
      )

  -- What holds of every stored document.
  abbrev pub IsOf : (D → Type 0) → Option D → Type 0
  IsOf P none = Unit
  IsOf P (some d) = P d

  abbrev pub Holds : (c : Collection D) → (D → Type 0) → c.Db → Type 0
  Holds c P db = (k : String) → IsOf P (c.stored db k)

  changed-IsOf :
      (P : D → Type 0) (test : D → Bool) (f : D → D)
      → ((d : D) → test d ≡ true → P d → P (f d))
      → (o : Option D) → IsOf P o
      → IsOf P (changed test f o)
  changed-IsOf P test f h none p = tt
  changed-IsOf P test f h (some d) p = by_test (test d) refl
    where
      by_test : (b : Bool) → test d ≡ b → P (if b then f d else d)
      by_test true e = h d e p
      by_test false e = p

  written_Holds :
      (c : Collection D) (P : D → Type 0) (id : String) (test : D → Bool) (f : D → D)
      (db db' : c.Db)
      → ((d : D) → test d ≡ true → P d → P (f d))
      → Holds c P db
      → ((k : String) → c.stored db' k ≡ c.stored db k)
        ⊎ ((k : String) → c.stored db' k ≡ at id (changed test f (c.stored db id)) (c.stored db) k)
      → Holds c P db'
  written_Holds c P id test f db db' h all (inl same) k = subst (IsOf P) (sym (same k)) (all k)
  written_Holds c P id test f db db' h all (inr put) k =
      elim (at_cases id k (changed test f (c.stored db id)) (c.stored db)) [
        | inl (here, e) ↦
            subst (IsOf P) (sym (put k ∙ e)) (changed-IsOf P test f h (c.stored db id) (all id))
        | inr e ↦ subst (IsOf P) (sym (put k ∙ e)) (all k)
      ]

  -- An update that keeps a property of the documents that pass its filter keeps it of all.
  pub find_one_and_update-Holds :
      (c : Collection D) (P : D → Type 0) (id : String) (test : D → Bool) (f : D → D) (db : c.Db)
      → ((d : D) → test d ≡ true → P d → P (f d))
      → Holds c P db
      → Holds c P (c.find_one_and_update id test f db).1
  find_one_and_update-Holds c P id test f db h all =
      written_Holds c P id test f db (c.find_one_and_update id test f db).1 h all
        (c.find_one_and_update_stored id test f db)

  pub update_one-Holds :
      (c : Collection D) (P : D → Type 0) (id : String) (test : D → Bool) (f : D → D) (db : c.Db)
      → ((d : D) → test d ≡ true → P d → P (f d))
      → Holds c P db
      → Holds c P (c.update_one id test f db).1
  update_one-Holds c P id test f db h all =
      written_Holds c P id test f db (c.update_one id test f db).1 h all
        (c.update_one_stored id test f db)

  changed_keeps :
      {O : Type 0} (g : D → O) (test : D → Bool) (f : D → D)
      → ((d : D) → g (f d) ≡ g d)
      → (o : Option D) → Option.map g (changed test f o) ≡ Option.map g o
  changed_keeps g test f h none = refl
  changed_keeps g test f h (some d) = ap some (by_test (test d))
    where
      by_test : (b : Bool) → g (if b then f d else d) ≡ g d
      by_test true = h d
      by_test false = refl

  -- What an update keeps of a document it keeps of every stored one, also where it fails.
  pub find_one_and_update_keeps :
      {O : Type 0} (g : D → O) (c : Collection D) (id : String) (test : D → Bool) (f : D → D)
      (db : c.Db) (k : String)
      → ((d : D) → g (f d) ≡ g d)
      → Option.map g (c.stored (c.find_one_and_update id test f db).1 k)
        ≡ Option.map g (c.stored db k)
  find_one_and_update_keeps g c id test f db k h =
      elim (c.find_one_and_update_stored id test f db) [
        | inl same ↦ ap (Option.map g) (same k)
        | inr put ↦ elim (at_cases id k (changed test f (c.stored db id)) (c.stored db)) [
          | inl (here, e) ↦
              ap (Option.map g) (put k ∙ e)
              ∙ changed_keeps g test f h (c.stored db id)
              ∙ ap (λ i. Option.map g (c.stored db i)) (sym here)
          | inr e ↦ ap (Option.map g) (put k ∙ e)
        ]
      ]
