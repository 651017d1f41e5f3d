-- ===== src/Users/Confirm.antt =====
-- VerifyEmail and ResendVerification of internal/handler/auth.go over the store of users. A body that
-- does not decode is `none`. A mail is its recipient and what varies in it. `trim` is
-- `strings.TrimSpace`.
use rolebook_backend.Common.{
  ℕ, String, Bool, true, not, ◌||◌, Option, none, some, ◌==◌, ltb, leb, if◌then◌else◌,
}
use rolebook_backend.Http.{
  Fetched, fetched, failed, Checked, pass, deny, deny_if, deny_internal, ◌>>=◌, ◌>>◌,
}
use rolebook_backend.Documents.{Collection}
use rolebook_backend.Sessions.{is_admin}
use rolebook_backend.Reset.Flow.{max_verify_attempts}
use rolebook_backend.Accounts.{
  Settings, AuthRound, AuthBody, authorized, World, issue_verification_code,
}
use rolebook_backend.Users.{
  User, account_of, find_by_email, increment_verify_attempts, mark_verified, account_store,
}

-- `now.After(expiresAt)`
abbrev pub code_expired : ℕ → ℕ → Bool
code_expired expires_at now = ltb expires_at now

abbrev pub parsed {ℓ} : {A : Type ℓ} → Option A → Checked A
parsed none = deny 400 "invalid request body" "BAD_REQUEST"
parsed (some body) = pass body

abbrev pub invalid_code {ℓ} : {A : Type ℓ} → Checked A
invalid_code = deny 400 "invalid or expired code" "INVALID_CODE"

abbrev pub known_email : Fetched (Option User) → Checked User
known_email failed = deny_internal
known_email (fetched none) = invalid_code
known_email (fetched (some u)) = pass u

module _ (c : Settings) (trim : String → String) (users : Collection User) (now : ℕ) where
  -- The body of `VerifyEmail`: e-mail and code.
  abbrev pub confirm_body : Option (String × String) → Checked (String × String)
  confirm_body sent = do
    b ← parsed sent
    deny_if (c.clean b.0 == "" || trim b.1 == "") 400 "email and code are required" "BAD_REQUEST"
    pass (c.clean b.0, trim b.1)

  -- A stored code that may be tried.
  abbrev pub open_code : User → Checked (Unit {0})
  open_code u = do
    deny_if (code_expired u.verify_code_expires_at now) 400 "invalid or expired code" "INVALID_CODE"
    deny_if (leb max_verify_attempts u.verify_code_attempts) 429
        "too many attempts, request a new code" "TOO_MANY_ATTEMPTS"

  unfoldable pub verifiable : Option (String × String) → users.Db → Checked (User × String)
  verifiable sent db = do
    b ← confirm_body sent
    u ← known_email (find_by_email users b.0 db)
    deny_if u.email_verified 400 "email already verified" "ALREADY_VERIFIED"
    deny_if (u.verify_code_hash == "") 400 "invalid or expired code" "INVALID_CODE"
    o ← open_code u
    pass (u, b.1)

  abbrev pub token_of : User → Fetched String → Checked AuthBody
  token_of u failed = deny_internal
  token_of u (fetched token) =
      pass (authorized token u.id u.email_verified (is_admin c.admin_ids u.id))

  abbrev pub marked : User → (String → Fetched String) → Fetched (Unit {0}) → Checked AuthBody
  marked u token failed = deny_internal
  marked u token (fetched t) = token_of (record u { email_verified = true }) (token u.id)

  abbrev pub tried :
      (String → Fetched String) → Checked (User × String) → users.Db → Checked AuthBody × users.Db
  tried token (deny status message code) db = (deny status message code, db)
  tried token (pass (u, code)) db =
      if c.password_matches u.verify_code_hash code
      then (marked u token (mark_verified users u.id db).0, (mark_verified users u.id db).1)
      else (invalid_code, (increment_verify_attempts users u.id db).1)

  unfoldable pub verify_email :
      (String → Fetched String) → Option (String × String) → users.Db → Checked AuthBody × users.Db
  verify_email token sent db = tried token (verifiable sent db) db

  abbrev pub resend_to :
      AuthRound
      → Fetched (Option User)
      → World c (account_store users)
      → Checked (Unit {0}) × World c (account_store users)
  resend_to r failed w = (deny_internal, w)
  resend_to r (fetched none) w = (pass tt, w)
  resend_to r (fetched (some u)) w =
      if not u.email_verified
      then (pass tt, (issue_verification_code c (account_store users) r (account_of u) w).1)
      else (pass tt, w)

  abbrev pub resend_body : Option String → Checked String
  resend_body sent = do
    email ← parsed sent
    deny_if (c.clean email == "") 400 "email is required" "BAD_REQUEST"
    pass (c.clean email)

  abbrev pub resend_checked :
      AuthRound
      → Checked String
      → World c (account_store users)
      → Checked (Unit {0}) × World c (account_store users)
  resend_checked r (deny status message code) w = (deny status message code, w)
  resend_checked r (pass email) w = resend_to r (find_by_email users email w.users) w

  unfoldable pub resend_verification :
      AuthRound
      → Option String
      → World c (account_store users)
      → Checked (Unit {0}) × World c (account_store users)
  resend_verification r sent w = resend_checked r (resend_body sent) w
