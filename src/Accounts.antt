-- ===== src/Accounts.antt =====
-- Registration and login of internal/handler/auth.go, with the gate of internal/handler/verification.go.
-- The collection of users, bcrypt, the standard library's texts and the signing of tokens are
-- parameters; a random value and the clock enter with the request. The zero time is 0.
pub mod Laws
use rolebook_backend.Common.{
  ℕ, ◌+◌, ◌*◌, String, Bool, true, false, not, ◌&&◌, ◌||◌, Option, none, some, List, [], ◌∷◌, ◌++◌,
  ◌==◌, ltb, nat_eq, if◌then◌else◌,
}
use rolebook_backend.Http.{
  Fetched, fetched, failed, Checked, pass, deny, deny_if, deny_internal, ◌>>=◌, ◌>>◌, check_read,
  Reply, json, error, internal_error,
}
use rolebook_backend.Sessions.{is_admin}

-- Of a `User`, what registration and login read or write.
pub record Account : Type 0 where
  pub id : String
  pub email : String
  pub password_hash : String
  pub email_verified : Bool
  pub verify_code_hash : String
  pub verify_code_expires_at : ℕ
  pub verify_code_sent_at : ℕ

pub record AccountStore : Type 1 where
  pub Db : Type 0
  pub find_by_email : String → Db → Fetched (Option Account)
  pub create : Account → Db → Fetched (Unit {0}) × Db
  pub set_verification_code : String → String → ℕ → ℕ → Db → Fetched (Unit {0}) × Db

-- `strings.ToLower(strings.TrimSpace(s))` and the comparison of bcrypt; the handler's settings.
pub record Settings : Type 0 where
  pub clean : String → String
  pub password_matches : String → String → Bool
  pub verification_enabled : Bool
  pub admin_ids : List String

abbrev pub verify_code_ttl : ℕ
verify_code_ttl = 10 * 60 * 1000000000

abbrev pub resend_cooldown : ℕ
resend_cooldown = 60 * 1000000000

pub record AuthRequest : Type 0 where
  pub email : String
  pub password : String

-- `authResponse`, `registerResponse`, and the body of a login that the gate stops.
pub data AuthBody : Type 0 where
  authorized : (token user_id : String) (email_verified admin : Bool) → AuthBody
  verification_required : String → AuthBody
  email_not_verified : (code_sent : Bool) → AuthBody

-- What a request meets: the clock, a new id, and what may fail.
pub record AuthRound : Type 0 where
  pub now : ℕ
  pub at_set : ℕ
  pub uuid : String
  pub password_hash : Fetched String
  pub code : Fetched String
  pub code_hash : Fetched String
  pub token : String → Fetched String

abbrev pub email_verification_blocks_login : Account → Bool
email_verification_blocks_login u = not u.email_verified

abbrev pub invalid_credentials {ℓ} : {A : Type ℓ} → Checked A
invalid_credentials = deny 401 "invalid credentials" "UNAUTHORIZED"

-- `time.Since(sentAt) < resendCooldown` for a code that was sent.
abbrev pub was_just_sent : ℕ → ℕ → Bool
was_just_sent sent now = not (nat_eq sent 0) && ltb now (sent + resend_cooldown)

module _ (c : Settings) (us : AccountStore) where
  pub record World : Type 0 where
    pub users : us.Db
    pub mails : List (String × String)

  unfoldable pub auth_body : Option AuthRequest → Checked AuthRequest
  auth_body none = deny 400 "invalid request body" "BAD_REQUEST"
  auth_body (some b) = do
    let email = c.clean b.email
    deny_if (email == "" || b.password == "") 400 "email and password are required" "BAD_REQUEST"
    pass (record b { email = email })

  abbrev pub code_persisted : String → String → Fetched (Unit {0}) → World → Bool × World
  code_persisted email code failed w = (false, w)
  code_persisted email code (fetched _) w =
      (true, record w { mails = w.mails ++ (email, code) ∷ [] })

  abbrev pub issue_fresh :
      AuthRound → Account → Fetched String → Fetched String → World → Bool × World
  issue_fresh r u failed hash w = (false, w)
  issue_fresh r u (fetched code) failed w = (false, w)
  issue_fresh r u (fetched code) (fetched hash) w =
      let (o, users) =
        us.set_verification_code u.id hash (r.at_set + verify_code_ttl) r.at_set w.users in
      code_persisted u.email code o (record w { users = users })

  unfoldable pub issue_verification_code : AuthRound → Account → World → Bool × World
  issue_verification_code r u w =
      if was_just_sent u.verify_code_sent_at r.now
      then (true, w)
      else issue_fresh r u r.code r.code_hash w

  -- `issueTokenWithStatus`
  abbrev pub issue_signed : ℕ → Account → Fetched String → Reply AuthBody
  issue_signed status u failed = internal_error
  issue_signed status u (fetched token) =
      json status (authorized token u.id u.email_verified (is_admin c.admin_ids u.id))

  abbrev pub issue_token_with_status : ℕ → Account → (String → Fetched String) → Reply AuthBody
  issue_token_with_status status u sign = issue_signed status u (sign u.id)

  abbrev pub check_credentials : String → Fetched (Option Account) → Checked Account
  check_credentials password failed = deny_internal
  check_credentials password (fetched none) = invalid_credentials
  check_credentials password (fetched (some u)) =
      if c.password_matches u.password_hash password then pass u else invalid_credentials

  -- The gate, then the token.
  abbrev pub logged_in : AuthRound → Account → World → Reply AuthBody × World
  logged_in r u w =
      if c.verification_enabled && email_verification_blocks_login u
      then (
        json 403 (email_not_verified (issue_verification_code r u w).0),
        (issue_verification_code r u w).1,
      )
      else (issue_token_with_status 200 u r.token, w)

  abbrev pub login_with : AuthRound → Checked Account → World → Reply AuthBody × World
  login_with r (deny status message code) w = (error status message code, w)
  login_with r (pass u) w = logged_in r u w

  abbrev pub login_checked : AuthRound → Checked AuthRequest → World → Reply AuthBody × World
  login_checked r (deny status message code) w = (error status message code, w)
  login_checked r (pass b) w =
      login_with r (check_credentials b.password (us.find_by_email b.email w.users)) w

  unfoldable pub login : AuthRound → Option AuthRequest → World → Reply AuthBody × World
  login r body w = login_checked r (auth_body body) w

  abbrev pub not_registered : Fetched (Option Account) → Checked (Unit {0})
  not_registered failed = deny_internal
  not_registered (fetched none) = pass tt
  not_registered (fetched (some u)) = deny 409 "email already registered" "EMAIL_TAKEN"

  abbrev pub new_account : AuthRound → String → String → Bool → String → ℕ → ℕ → Account
  new_account r email hash verified code_hash expires sent = record {
    id = r.uuid;
    email = email;
    password_hash = hash;
    email_verified = verified;
    verify_code_hash = code_hash;
    verify_code_expires_at = expires;
    verify_code_sent_at = sent;
  }

  abbrev pub created_verified :
      AuthRound → Account → Fetched (Unit {0}) → World → Reply AuthBody × World
  created_verified r u failed w = (internal_error, w)
  created_verified r u (fetched _) w = (issue_token_with_status 201 u r.token, w)

  abbrev pub created_unverified :
      String → Account → Fetched (Unit {0}) → World → Reply AuthBody × World
  created_unverified code u failed w = (internal_error, w)
  created_unverified code u (fetched _) w = (
    json 201 (verification_required u.email),
    record w { mails = w.mails ++ (u.email, code) ∷ [] },
  )

  abbrev pub register_verified : AuthRound → String → String → World → Reply AuthBody × World
  register_verified r email hash w =
      let u = new_account r email hash true "" 0 0 in
      let (o, users) = us.create u w.users in created_verified r u o (record w { users = users })

  abbrev pub register_unverified :
      AuthRound → String → String → Fetched String → Fetched String → World → Reply AuthBody × World
  register_unverified r email hash failed code_hash w = (internal_error, w)
  register_unverified r email hash (fetched code) failed w = (internal_error, w)
  register_unverified r email hash (fetched code) (fetched code_hash) w =
      let u = new_account r email hash false code_hash (r.now + verify_code_ttl) r.now in
      let (o, users) = us.create u w.users in
      created_unverified code u o (record w { users = users })

  abbrev pub register_with : AuthRound → Checked (String × String) → World → Reply AuthBody × World
  register_with r (deny status message code) w = (error status message code, w)
  register_with r (pass (email, hash)) w =
      if c.verification_enabled
      then register_unverified r email hash r.code r.code_hash w
      else register_verified r email hash w

  unfoldable pub register : AuthRound → Option AuthRequest → World → Reply AuthBody × World
  register r body w =
      register_with r
        (auth_body body >>= λ b.
          not_registered (us.find_by_email b.email w.users)
          >> (check_read r.password_hash >>= λ hash. pass (b.email, hash)))
        w
