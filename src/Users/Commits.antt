-- ===== src/Users/Commits.antt =====
-- What VerifyEmailChange leaves of the user.
use rolebook_backend.Common.{
  ℕ, String, ◌≡◌, refl, sym, ◌∙◌, ap, Bool, true, false, ◌||◌, Option, none, some, ◌==◌, ◌⊎◌, inl,
  inr, eq_iff, if◌then◌else◌,
}
use mathlib.Core.Path.{subst}
use rolebook_backend.Http.{
  Fetched, fetched, failed, Checked, pass, deny, pass_inj, >>=-eq-pass, >>-eq-pass,
}
use rolebook_backend.Documents.{Collection, selected, changed}
use rolebook_backend.Documents.Laws.{at_same}
use rolebook_backend.Accounts.{Settings, World}
use rolebook_backend.Users.{
  User, with_email, verified, no_error, find_by_email, get_by_id, update_by_id, commit_email_change,
  account_store,
}
use rolebook_backend.Users.Confirm.{invalid_code}
use rolebook_backend.Users.Change.{
  authenticated, known_caller, email_free_but_for, confirmable, committed, commit, confirm,
  verify_email_change,
}
use rolebook_backend.Users.Laws.{IsOpen, deny_if_pass, open_code_pass}
use rolebook_backend.Requests.Steps.{not_denied}

caller_known :
    (o : Fetched (Option User)) (u : User) → known_caller o ≡ pass u → o ≡ fetched (some u)
caller_known failed u e = cc
caller_known (fetched none) u e = cc
caller_known (fetched (some x)) u e = ap (λ y. fetched (some y)) (pass_inj e)

selected_all : (o : Option User) (u : User) → some u ≡ selected (λ x. true) o → o ≡ some u
selected_all none u e = cc
selected_all (some x) u e = sym e

error_free :
    (o : Fetched Bool) (t : Unit {0}) → no_error o ≡ fetched t → (b : Bool) × (o ≡ fetched b)
error_free failed t e = cc
error_free (fetched b) t e = (b, refl)

-- Nobody was found, or the user itself.
abbrev pub IsFree : String → Fetched (Option User) → Type 0
IsFree user found =
    (found ≡ fetched none) ⊎ ((x : User) × (found ≡ fetched (some x)) × (x.id ≡ user))

email_free_but_for-IsFree :
    (user : String) (o : Fetched (Option User)) (t : Unit {0})
    → email_free_but_for user o ≡ pass t
    → IsFree user o
email_free_but_for-IsFree user failed t e = cc
email_free_but_for-IsFree user (fetched none) t e = inl refl
email_free_but_for-IsFree user (fetched (some x)) t e =
    inr (x, refl, (eq_iff x.id user).0 (not_denied _ (deny_if_pass _ _ _ _ t e)))

-- What a confirmed change of the e-mail makes of a user.
abbrev pub IsSettled : String → User → User → Type 0
IsSettled email u d =
    (d.email ≡ email)
    × (d.email_verified ≡ true)
    × (d.pending_email ≡ "")
    × (d.verify_code_hash ≡ "")
    × (d.verify_code_attempts ≡ 0)
    × (d.id ≡ u.id)
    × (d.password_hash ≡ u.password_hash)
    × (d.password_changed_at ≡ u.password_changed_at)

module _ (c : Settings) (trim : String → String) (users : Collection User) (now : ℕ) where
  -- The stored user after an update without an error.
  update_by_id-stored :
      (id : String) (f : User → User) (db : users.Db) (t : Unit {0}) (u : User)
      → users.stored db id ≡ some u
      → (update_by_id users id f db).0 ≡ fetched t
      → users.stored (update_by_id users id f db).1 id ≡ some (f u)
  unfolding update_by_id
  update_by_id-stored id f db t u here e =
      let (b, q) = error_free _ t e in
      let (m, put) = users.update_one_lem id (λ x. true) f db b q in
      put id
      ∙ at_same id (changed (λ x. true) f (users.stored db id)) (users.stored db)
      ∙ ap (changed (λ x. true) f) here

  committed-pass :
      (u : User) (o : Fetched (Unit {0})) (w : World c (account_store users)) (email : String)
      → (committed c trim users now u o w).0 ≡ pass email
      → (t : Unit {0}) × (o ≡ fetched t)
        × (u.pending_email ≡ email)
        × ((committed c trim users now u o w).1.users ≡ w.users)
  committed-pass u failed w email e = cc
  committed-pass u (fetched t) w email e = (t, refl, pass_inj e, refl)

  commit-pass :
      (user : String) (u : User) (m : Checked (Unit {0})) (w : World c (account_store users))
      (email : String)
      → users.stored w.users user ≡ some u
      → (commit c trim users now user u m w).0 ≡ pass email
      → (t : Unit {0}) × (m ≡ pass t)
        × (u.pending_email ≡ email)
        × (users.stored (commit c trim users now user u m w).1.users user
            ≡ some (with_email u.pending_email u))
  unfolding commit_email_change
  commit-pass user u (deny status message code) w email here e = cc
  commit-pass user u (pass t) w email here e =
      let (d, q, same, left) =
        committed-pass u (commit_email_change users user u.pending_email w.users).0 _ email e in
      (
        t,
        refl,
        same,
        ap (λ db. users.stored db user) left
            ∙ update_by_id-stored user (with_email u.pending_email) w.users d u here q,
      )

  matched :
      (b : Bool) (x y : Checked String × World c (account_store users)) (email : String)
      → y.0 ≡ invalid_code
      → (if b then x else y).0 ≡ pass email
      → (b ≡ true) × ((if b then x else y) ≡ x)
  matched true x y email k e = (refl, refl)
  matched false x y email k e = cc

  confirm-pass :
      (user : String) (m : Checked (User × String)) (w : World c (account_store users))
      (email : String)
      → (confirm c trim users now user m w).0 ≡ pass email
      → (u : User) × (code : String) × (m ≡ pass (u, code))
        × (c.password_matches u.verify_code_hash code ≡ true)
        × (confirm c trim users now user m w
            ≡ commit c trim users now user u
                (email_free_but_for user (find_by_email users u.pending_email w.users))
                w)
  confirm-pass user (deny status message code) w email e = cc
  confirm-pass user (pass (u, code)) w email e =
      let (fits, same) = matched (c.password_matches u.verify_code_hash code) _ _ email refl e in
      (u, code, refl, fits, same)

  neither : (a b : Bool) → a || b ≡ false → (a ≡ false) × (b ≡ false)
  neither true b e = cc
  neither false b e = (refl, e)

  confirmable-pass :
      (user : String) (sent : Option String) (db : users.Db) (u : User) (code : String)
      → confirmable c trim users now user sent db ≡ pass (u, code)
      → (b : String) × (sent ≡ some b)
        × (code ≡ trim b)
        × (get_by_id users user db ≡ fetched (some u))
        × IsOpen c trim users now u
  unfolding confirmable
  confirmable-pass user none db u code e =
      let (t, e1, k1) = >>=-eq-pass (authenticated user) _ e in cc
  confirmable-pass user (some b) db u code e =
      let (t, e1, k1) = >>=-eq-pass (authenticated user) _ e in
      let (d1, k2) = >>-eq-pass (trim b == "") _ _ _ _ k1 in
      let (x, e2, k3) = >>=-eq-pass (known_caller (get_by_id users user db)) _ k2 in
      let (d2, k4) = >>-eq-pass (x.pending_email == "" || x.verify_code_hash == "") _ _ _ _ k3 in
      let (o, e3, k5) = >>=-eq-pass _ _ k4 in
      let (d3, d4) = open_code_pass c trim users now x o e3 in
      let same : x ≡ u = ap (λ (p : User × String). p.0) (pass_inj k5) in
      (
        b,
        refl,
        sym (ap (λ (p : User × String). p.1) (pass_inj k5)),
        caller_known _ x e2 ∙ ap (λ y. fetched (some y)) same,
        subst (IsOpen c trim users now) same ((neither _ _ d2).1, d3, d4),
      )

  -- VerifyEmailChange answers an address only where it is the pending one of the caller's user, the
  -- code matches the stored one, which is not cleared, not expired and tried fewer than five times,
  -- and no user or only the caller's was found with the address. The user is then stored with that
  -- e-mail, verified and without a pending address or a code, and is otherwise as before.
  pub verify_email_change-stored :
      (user : String) (sent : Option String) (w : World c (account_store users)) (email : String)
      → (verify_email_change c trim users now user sent w).0 ≡ pass email
      → (b : String) × (u d : User) × (sent ≡ some b)
        × (users.stored w.users user ≡ some u)
        × (u.pending_email ≡ email)
        × IsOpen c trim users now u
        × (c.password_matches u.verify_code_hash (trim b) ≡ true)
        × IsFree user (find_by_email users email w.users)
        × (users.stored (verify_email_change c trim users now user sent w).1.users user ≡ some d)
        × IsSettled email u d
  unfolding verify_email_change get_by_id with_email verified
  verify_email_change-stored user sent w email e =
      let (u, code, e1, fits, ran) =
        confirm-pass user (confirmable c trim users now user sent w.users) w email e in
      let (b, body, text, found, untried) = confirmable-pass user sent w.users u code e1 in
      let here : users.stored w.users user ≡ some u =
        selected_all _ u (users.find_one_lem user (λ x. true) w.users (some u) found) in
      let (t, free, same, put) =
        commit-pass user u (email_free_but_for user (find_by_email users u.pending_email w.users)) w
          email here (ap (λ x. x.0) (sym ran) ∙ e) in
      (
        b,
        u,
        with_email email u,
        body,
        here,
        same,
        untried,
        ap (c.password_matches u.verify_code_hash) (sym text) ∙ fits,
        email_free_but_for-IsFree user _ t
            (ap (λ x. email_free_but_for user (find_by_email users x w.users)) (sym same) ∙ free),
        ap (λ x. users.stored x.1.users user) ran ∙ put ∙ ap (λ x. some (with_email x u)) same,
        (refl, refl, refl, refl, refl, refl, refl, refl),
      )
