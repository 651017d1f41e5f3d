-- ===== src/Users/Laws.antt =====
-- What a token of VerifyEmail and the address of VerifyEmailChange rest on.
use rolebook_backend.Common.{
  ℕ, String, ◌≡◌, refl, sym, ◌∙◌, ap, Bool, true, false, Option, none, some, ◌==◌, leb,
  if◌then◌else◌, eq_iff,
}
use rolebook_backend.Http.{
  Fetched, fetched, failed, Checked, pass, deny, deny_if, pass_inj, >>=-eq-pass, >>-eq-pass,
}
use rolebook_backend.Documents.{Collection}
use rolebook_backend.Accounts.{Settings, AuthBody, authorized}
use rolebook_backend.Sessions.{is_admin}
use rolebook_backend.Reset.Flow.{max_verify_attempts}
use rolebook_backend.Users.{User, find_by_email, mark_verified}
use rolebook_backend.Users.Confirm.{
  marked, token_of, code_expired, known_email, invalid_code, confirm_body, open_code, verifiable,
  tried, verify_email,
}

email_known : (o : Fetched (Option User)) (u : User) → known_email o ≡ pass u → o ≡ fetched (some u)
email_known failed u e = cc
email_known (fetched none) u e = cc
email_known (fetched (some x)) u e = ap (λ y. fetched (some y)) (pass_inj e)

pub deny_if_pass :
    (b : Bool) (status : ℕ) (message code : String) (t : Unit {0})
    → deny_if b status message code ≡ pass t
    → b ≡ false
deny_if_pass true status message code t e = cc
deny_if_pass false status message code t e = refl

matched_only :
    {D : Type 0} (b : Bool) (x : Checked AuthBody × D) (d : D) (body : AuthBody)
    → (if b then x else (invalid_code, d)).0 ≡ pass body
    → (b ≡ true) × (x.0 ≡ pass body)
matched_only true x d body e = (refl, e)
matched_only false x d body e = cc

module _ (c : Settings) (trim : String → String) (users : Collection User) (now : ℕ) where
  pub open_code_pass :
      (u : User) (t : Unit {0})
      → open_code c trim users now u ≡ pass t
      → (code_expired u.verify_code_expires_at now ≡ false)
        × (leb max_verify_attempts u.verify_code_attempts ≡ false)
  open_code_pass u t e =
      let (fresh, k) = >>-eq-pass _ _ _ _ _ e in (fresh, deny_if_pass _ _ _ _ t k)

  -- A stored user whose code is still open to a try of the code.
  abbrev pub IsOpen : User → Type 0
  IsOpen u =
      ((u.verify_code_hash == "") ≡ false)
      × (code_expired u.verify_code_expires_at now ≡ false)
      × (leb max_verify_attempts u.verify_code_attempts ≡ false)

  verifiable-pass :
      (sent : Option (String × String)) (db : users.Db) (u : User) (code : String)
      → verifiable c trim users now sent db ≡ pass (u, code)
      → (b : String × String) × (confirm_body c trim users now sent ≡ pass b)
        × (find_by_email users b.0 db ≡ fetched (some u))
        × (u.email_verified ≡ false)
        × IsOpen u
        × (code ≡ b.1)
  unfolding verifiable
  verifiable-pass sent db u code e =
      let (b, e1, k1) = >>=-eq-pass (confirm_body c trim users now sent) _ e in
      let (x, e2, k2) = >>=-eq-pass (known_email (find_by_email users b.0 db)) _ k1 in
      let (d1, k3) = >>-eq-pass x.email_verified _ _ _ _ k2 in
      let (d2, k4) = >>-eq-pass (x.verify_code_hash == "") _ _ _ _ k3 in
      let (t, e3, k5) = >>=-eq-pass (open_code c trim users now x) _ k4 in
      let (d3, d4) = open_code_pass x t e3 in
      let same : x ≡ u = ap (λ (p : User × String). p.0) (pass_inj k5) in
      let text : b.1 ≡ code = ap (λ (p : User × String). p.1) (pass_inj k5) in
      (
        b,
        e1,
        email_known _ x e2 ∙ ap (λ y. fetched (some y)) same,
        ap (λ (y : User). y.email_verified) (sym same) ∙ d1,
        (
          ap (λ (y : User). y.verify_code_hash == "") (sym same) ∙ d2,
          ap (λ (y : User). code_expired y.verify_code_expires_at now) (sym same) ∙ d3,
          ap (λ (y : User). leb max_verify_attempts y.verify_code_attempts) (sym same) ∙ d4,
        ),
        sym text,
      )

  -- The answer carries the token that was signed for the user's id.
  abbrev pub IsSigned : (String → Fetched String) → String → AuthBody → Type 0
  IsSigned token id body =
      (t : String) × (token id ≡ fetched t)
      × (body ≡ authorized t id true (is_admin c.admin_ids id))

  marked-pass :
      (token : String → Fetched String) (u : User) (reply : Fetched (Unit {0})) (body : AuthBody)
      → marked c trim users now u token reply ≡ pass body
      → IsSigned token u.id body
  marked-pass token u failed body e = cc
  marked-pass token u (fetched d) body e = signed (token u.id) refl e
    where
      signed :
          (o : Fetched String)
          → token u.id ≡ o
          → token_of c trim users now (record u { email_verified = true }) o ≡ pass body
          → IsSigned token u.id body
      signed failed at h = cc
      signed (fetched t) at h = (t, at, sym (pass_inj h))

  tried-pass :
      (token : String → Fetched String) (m : Checked (User × String)) (db : users.Db)
      (body : AuthBody)
      → (tried c trim users now token m db).0 ≡ pass body
      → (u : User) × (code : String) × (m ≡ pass (u, code))
        × (c.password_matches u.verify_code_hash code ≡ true)
        × IsSigned token u.id body
  tried-pass token (deny status message code) db body e = cc
  tried-pass token (pass (u, code)) db body e =
      let (fits, answered) = matched_only (c.password_matches u.verify_code_hash code) _ _ body e in
      (u, code, refl, fits, marked-pass token u (mark_verified users u.id db).0 body answered)

  -- VerifyEmail answers a token only where a user has the e-mail of the body and is not verified, and
  -- the code of the body matches the stored one, which is not cleared, not expired and tried fewer
  -- than five times; the token is the one signed for that user's id.
  pub verify_email-IsOpen :
      (token : String → Fetched String) (sent : Option (String × String)) (db : users.Db)
      (body : AuthBody)
      → (verify_email c trim users now token sent db).0 ≡ pass body
      → (b : String × String) × (u : User) × (confirm_body c trim users now sent ≡ pass b)
        × (find_by_email users b.0 db ≡ fetched (some u))
        × (u.email ≡ b.0)
        × (u.email_verified ≡ false)
        × IsOpen u
        × (c.password_matches u.verify_code_hash b.1 ≡ true)
        × IsSigned token u.id body
  unfolding verify_email find_by_email
  verify_email-IsOpen token sent db body e =
      let (u, code, e1, fits, signed) = tried-pass token _ db body e in
      let (b, sound, found, new, untried, text) = verifiable-pass sent db u code e1 in
      (
        b,
        u,
        sound,
        found,
        (eq_iff u.email b.0).0 (users.find_where_lem (λ x. x.email == b.0) db u found),
        new,
        untried,
        ap (c.password_matches u.verify_code_hash) (sym text) ∙ fits,
        signed,
      )
