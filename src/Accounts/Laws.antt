-- ===== src/Accounts/Laws.antt =====
-- Who gets a token.
use rolebook_backend.Common.{
  ℕ, ◌+◌, String, ◌≡◌, ◌⊎◌, inl, inr, refl, sym, ◌∙◌, ap, Bool, true, false, ◌&&◌, Option, none,
  some, if◌then◌else◌, arith, Bool-cases,
}
use rolebook_backend.Http.{
  Fetched, fetched, failed, Checked, pass, deny, Reply, json, error, bare, >>=-eq-pass, check_read,
}
use rolebook_backend.Accounts.{
  Account, AccountStore, Settings, AuthRequest, AuthBody, authorized, verification_required,
  email_not_verified, AuthRound, World, auth_body, email_verification_blocks_login,
  check_credentials, login_with, login_checked, login, issue_signed, not_registered, register_with,
  register_unverified, created_unverified, register, new_account, verify_code_ttl,
}

abbrev status_of : Reply AuthBody → ℕ
status_of (json status body) = status
status_of (error status message code) = status
status_of (bare status) = status

module _ (c : Settings) (us : AccountStore) where
  -- What a token that a login answers rests on.
  abbrev pub IsEntitled : AuthRequest → us.Db → String → Type 0
  IsEntitled b db id =
      (u : Account) × (us.find_by_email b.email db ≡ fetched (some u))
      × (u.id ≡ id)
      × (c.password_matches u.password_hash b.password ≡ true)
      × ((c.verification_enabled ≡ false) ⊎ (u.email_verified ≡ true))

  token_issued :
      (u : Account) (o : Fetched String) (token id : String) (verified admin : Bool)
      → issue_signed c us 200 u o ≡ json 200 (authorized token id verified admin)
      → (u.id ≡ id) × (o ≡ fetched token)
  token_issued u failed token id verified admin e = cc
  token_issued u (fetched t) token id verified admin e = (cc, cc)

  -- A reply of 200 does not come from the branch that answers 403.
  opened :
      (b sent : Bool) (w1 w w' : World c us) (reply : Reply AuthBody) (body : AuthBody)
      → ◌≡◌ {A = Reply AuthBody × World c us}
          (if b then (json 403 (email_not_verified sent), w1) else (reply, w))
          (json 200 body, w')
      → (b ≡ false) × (reply ≡ json 200 body) × (w ≡ w')
  opened true sent w1 w w' reply body e =
      let clash : 403 ≡ status_of (json 200 body) =
        ap (λ (p : Reply AuthBody × World c us). status_of p.0) e in
      absurd (omega arith)
  opened false sent w1 w w' reply body e = (refl, ap (λ p. p.0) e, ap (λ p. p.1) e)

  verified_or_off :
      (u : Account)
      → c.verification_enabled && email_verification_blocks_login u ≡ false
      → (c.verification_enabled ≡ false) ⊎ (u.email_verified ≡ true)
  verified_or_off u h = ground arith

  login_with_sound :
      (r : AuthRound) (x : Checked Account) (w w' : World c us) (token id : String)
      (verified admin : Bool)
      → login_with c us r x w ≡ (json 200 (authorized token id verified admin), w')
      → (u : Account) × (x ≡ pass u)
        × (u.id ≡ id)
        × ((c.verification_enabled ≡ false) ⊎ (u.email_verified ≡ true))
        × (w ≡ w')
        × (r.token id ≡ fetched token)
  login_with_sound r (deny status message code) w w' token id verified admin e = cc
  login_with_sound r (pass u) w w' token id verified admin e =
      let (open_gate, reply, same) = opened _ _ _ w w' _ _ e in
      let (same_id, signed) = token_issued u (r.token u.id) token id verified admin reply in
      (u, refl, same_id, verified_or_off u open_gate, same, ap r.token (sym same_id) ∙ signed)

  check_credentials_sound :
      (password : String) (o : Fetched (Option Account)) (u : Account)
      → check_credentials c us password o ≡ pass u
      → (o ≡ fetched (some u)) × (c.password_matches u.password_hash password ≡ true)
  check_credentials_sound password failed u e = cc
  check_credentials_sound password (fetched none) u e = cc
  check_credentials_sound password (fetched (some v)) u e =
      elim (Bool-cases (c.password_matches v.password_hash password)) [
        | inl h ↦
            let same : v ≡ u = same_account (rw h at e) in
            (
              ap (λ (a : Account). fetched (some a)) same,
              ap (λ (a : Account). c.password_matches a.password_hash password) (sym same) ∙ h,
            )
        | inr h ↦ absurd (no_account (rw h at e))
      ]
    where
      same_account : {v u : Account} → pass v ≡ pass u → v ≡ u
      same_account h = cc

      no_account : {u : Account} → deny 401 "invalid credentials" "UNAUTHORIZED" ≡ pass u → ⊥
      no_account h = cc

  login_checked_sound :
      (r : AuthRound) (x : Checked AuthRequest) (w w' : World c us) (token id : String)
      (verified admin : Bool)
      → login_checked c us r x w ≡ (json 200 (authorized token id verified admin), w')
      → (b : AuthRequest) × (x ≡ pass b)
        × IsEntitled b w.users id
        × (w ≡ w')
        × (r.token id ≡ fetched token)
  login_checked_sound r (deny status message code) w w' token id verified admin e = cc
  login_checked_sound r (pass b) w w' token id verified admin e =
      let (u, found, same_id, gate, same, signed) =
        login_with_sound r _ w w' token id verified admin e in
      let (there, matches) = check_credentials_sound b.password _ u found in
      (b, refl, (u, there, same_id, matches, gate), same, signed)

  -- A login answers a token only to a request whose e-mail has an account and whose password is that
  -- account's, for that account, and, where verification is enabled, only if the e-mail is verified;
  -- the token is the one signed for the account's id, and the login changes nothing.
  pub login_sound :
      (r : AuthRound) (body : Option AuthRequest) (w w' : World c us) (token id : String)
      (verified admin : Bool)
      → login c us r body w ≡ (json 200 (authorized token id verified admin), w')
      → (b : AuthRequest) × (auth_body c us body ≡ pass b)
        × IsEntitled b w.users id
        × (w ≡ w')
        × (r.token id ≡ fetched token)
  unfolding login
  login_sound r body w w' token id verified admin e =
      login_checked_sound r (auth_body c us body) w w' token id verified admin e

  created_unverified_sound :
      (code : String) (u : Account) (o : Fetched (Unit {0})) (w w' : World c us) (status : ℕ)
      (reply : AuthBody)
      → created_unverified c us code u o w ≡ (json status reply, w')
      → (status ≡ 201) × (reply ≡ verification_required u.email)
  created_unverified_sound code u failed w w' status reply e = cc
  created_unverified_sound code u (fetched _) w w' status reply e = (cc, cc)

  register_unverified_sound :
      (r : AuthRound) (email hash : String) (code code_hash : Fetched String) (w w' : World c us)
      (status : ℕ) (reply : AuthBody)
      → register_unverified c us r email hash code code_hash w ≡ (json status reply, w')
      → (status ≡ 201) × (reply ≡ verification_required email)
  register_unverified_sound r email hash failed code_hash w w' status reply e = cc
  register_unverified_sound r email hash (fetched code) failed w w' status reply e = cc
  register_unverified_sound r email hash (fetched code) (fetched code_hash) w w' status reply e =
      created_unverified_sound code
        (new_account c us r email hash false code_hash (r.now + verify_code_ttl) r.now) _ _ w'
        status reply e

  register_with_sound :
      (r : AuthRound) (x : Checked (String × String)) (w w' : World c us) (status : ℕ)
      (reply : AuthBody)
      → c.verification_enabled ≡ true
      → register_with c us r x w ≡ (json status reply, w')
      → (eh : String × String) × (x ≡ pass eh)
        × (status ≡ 201)
        × (reply ≡ verification_required eh.0)
  register_with_sound r (deny s message code) w w' status reply enabled e = cc
  register_with_sound r (pass (email, hash)) w w' status reply enabled e =
      let (is_201, is_required) =
        register_unverified_sound r email hash r.code r.code_hash w w' status reply
          (rw enabled at e) in
      ((email, hash), refl, is_201, is_required)

  not_registered_sound :
      (o : Fetched (Option Account)) (a : Unit {0})
      → not_registered c us o ≡ pass a
      → o ≡ fetched none
  not_registered_sound failed a e = cc
  not_registered_sound (fetched none) a e = refl
  not_registered_sound (fetched (some u)) a e = cc

  -- Where verification is enabled no registration answers a token: what it answers, if no error, is
  -- 201 and that the e-mail is to be verified, and then no account had that e-mail.
  pub register_sound :
      (r : AuthRound) (body : Option AuthRequest) (w w' : World c us) (status : ℕ)
      (reply : AuthBody)
      → c.verification_enabled ≡ true
      → register c us r body w ≡ (json status reply, w')
      → (b : AuthRequest) × (auth_body c us body ≡ pass b)
        × (us.find_by_email b.email w.users ≡ fetched none)
        × (status ≡ 201)
        × (reply ≡ verification_required b.email)
  unfolding register
  register_sound r body w w' status reply enabled e =
      let (eh, passed, is_201, is_required) = register_with_sound r _ w w' status reply enabled e in
      let (b, e1, h1) = >>=-eq-pass (auth_body c us body) _ passed in
      let (_, e2, h2) = >>=-eq-pass (not_registered c us (us.find_by_email b.email w.users)) _ h1 in
      let (hash, e3, h3) = >>=-eq-pass (check_read r.password_hash) _ h2 in
      let same : b.email ≡ eh.0 = first_of h3 in
      (
        b,
        e1,
        not_registered_sound _ _ e2,
        is_201,
        is_required ∙ ap verification_required (sym same),
      )
    where
      first_of : {a b : String × String} → pass a ≡ pass b → a.0 ≡ b.0
      first_of h = cc
