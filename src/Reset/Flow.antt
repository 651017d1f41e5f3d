-- ===== src/Reset/Flow.antt =====
-- The password reset of internal/handler/auth.go, with the codes of internal/handler/verification.go.
-- The standard library's texts, bcrypt, SHA-256 and the collection of users are parameters; a random
-- value, a hash that may fail, and what other requests do in between enter with the request. What is
-- only logged is left out.
use rolebook_backend.Common.{
  ℕ, String, Bool, true, false, not, ◌||◌, Option, none, some, List, [], ◌∷◌, ◌++◌, ◌==◌, ltb, leb,
  nat_eq, if◌then◌else◌,
}
use rolebook_backend.Http.{
  Fetched, fetched, failed, Checked, pass, deny, deny_if, deny_internal, ◌>>=◌, ◌>>◌, Reply, json,
  error, bare, internal_error, check_read,
}
use rolebook_backend.Reset.{
  Memory, Session, mark_sent, set_code, get_session, incr_attempts, promote_to_token, clear,
}

-- `strings.ToLower(strings.TrimSpace(s))`, `strings.TrimSpace`, `len`, the comparison of bcrypt, and the
-- digest of a token.
pub record Texts : Type 0 where
  pub clean : String → String
  pub trim : String → String
  pub byte_length : String → ℕ
  pub code_matches : String → String → Bool
  pub hash_token : String → String

pub record UserRef : Type 0 where
  pub id : String
  pub email : String

pub record Users : Type 1 where
  pub Db : Type 0
  pub find_by_email : String → Db → Fetched (Option UserRef)
  pub mark_password_reset : String → String → ℕ → Db → Fetched (Unit {0}) × Db

-- `resetstore.Store`.
pub record ResetStore : Type 1 where
  pub State : Type 0
  pub mark_sent : String → ℕ → State → Fetched Bool × State
  pub set_code : String → String → ℕ → State → Fetched (Unit {0}) × State
  pub get : String → ℕ → State → Fetched (Option Session) × State
  pub incr_attempts : String → ℕ → State → Fetched ℕ × State
  pub promote_to_token : String → String → ℕ → State → Fetched (Unit {0}) × State
  pub clear : String → State → Fetched (Unit {0}) × State

-- The store in memory never fails.
abbrev pub memory_store : ResetStore
memory_store = record {
  State = Memory;
  mark_sent = λ email now m. (fetched (mark_sent email now m).0, (mark_sent email now m).1);
  set_code = λ email hash now m. (fetched tt, set_code email hash now m);
  get = λ email now m. (fetched (get_session email now m).0, (get_session email now m).1);
  incr_attempts =
      λ email now m. (fetched (incr_attempts email now m).0, (incr_attempts email now m).1);
  promote_to_token = λ email hash now m. (fetched tt, promote_to_token email hash now m);
  clear = λ email m. (fetched tt, clear email m);
}

pub data Mail : Type 0 where
  reset_code : String → String → Mail
  password_changed : String → Mail

abbrev pub max_verify_attempts : ℕ
max_verify_attempts = 5

abbrev pub min_password_length : ℕ
min_password_length = 8

pub record VerifyBody : Type 0 where
  pub email : String
  pub code : String

pub record ResetBody : Type 0 where
  pub email : String
  pub reset_token : String
  pub new_password : String

abbrev pub invalid_code {ℓ} : {A : Type ℓ} → Checked A
invalid_code = deny 400 "invalid or expired code" "INVALID_CODE"

abbrev pub too_many {ℓ} : {A : Type ℓ} → Checked A
too_many = deny 400 "too many attempts; request a new code" "TOO_MANY_ATTEMPTS"

abbrev pub invalid_token {ℓ} : {A : Type ℓ} → Checked A
invalid_token = deny 400 "invalid or expired reset token" "INVALID_TOKEN"

abbrev pub usable_code : Fetched (Option Session) → Checked Session
usable_code failed = deny_internal
usable_code (fetched none) = invalid_code
usable_code (fetched (some s)) =
    if s.code_hash == ""
    then invalid_code
    else if leb max_verify_attempts s.attempts
    then too_many
    else pass s

abbrev pub reserved : Fetched ℕ → Checked (Unit {0})
reserved failed = deny_internal
reserved (fetched n) =
    if nat_eq n 0 then invalid_code else if ltb max_verify_attempts n then too_many else pass tt

module _ (t : Texts) where
  unfoldable pub verify_body : Option VerifyBody → Checked VerifyBody
  verify_body none = deny 400 "invalid request body" "BAD_REQUEST"
  verify_body (some b) = do
    let email = t.clean b.email
    let code = t.trim b.code
    deny_if (email == "" || code == "") 400 "email and code are required" "BAD_REQUEST"
    pass (record { email = email; code = code })

  -- `validateNewPassword`, too.
  unfoldable pub reset_body : Option ResetBody → Checked ResetBody
  reset_body none = deny 400 "invalid request body" "BAD_REQUEST"
  reset_body (some b) = do
    let email = t.clean b.email
    deny_if (email == "" || b.reset_token == "" || b.new_password == "") 400
        "email, resetToken and newPassword are required" "BAD_REQUEST"
    deny_if (ltb (t.byte_length b.new_password) min_password_length) 400
        "new password must be at least 8 characters" "WEAK_PASSWORD"
    pass (record b { email = email })

  abbrev pub code_accepted : String → String → Checked (Unit {0})
  code_accepted hash code = if t.code_matches hash code then pass tt else invalid_code

  abbrev pub token_accepted : String → Fetched (Option Session) → Checked (Unit {0})
  token_accepted token failed = deny_internal
  token_accepted token (fetched none) = invalid_token
  token_accepted token (fetched (some s)) =
      if s.token_hash == "" || not (s.token_hash == t.hash_token token)
      then invalid_token
      else pass tt

abbrev pub known_user : Fetched (Option UserRef) → Checked UserRef
known_user failed = deny_internal
known_user (fetched none) = invalid_token
known_user (fetched (some u)) = pass u

module _ (t : Texts) (us : Users) (rs : ResetStore) where
  open rs use {State}

  pub record World : Type 0 where
    pub resets : State
    pub users : us.Db
    pub mails : List Mail

  -- What `issueResetCode` meets: the clock, the random code and its hash.
  pub record Issue : Type 0 where
    pub at_mark : ℕ
    pub at_set : ℕ
    pub code : Fetched String
    pub code_hash : Fetched String

  abbrev pub code_stored : String → String → Fetched (Unit {0}) → World → World
  code_stored email code failed w = w
  code_stored email code (fetched _) w = record w { mails = w.mails ++ reset_code email code ∷ [] }

  abbrev pub send_code : Issue → String → Fetched String → Fetched String → World → World
  send_code i email failed hash w = w
  send_code i email (fetched code) failed w = w
  send_code i email (fetched code) (fetched hash) w =
      let (o, resets) = rs.set_code email hash i.at_set w.resets in
      code_stored email code o (record w { resets = resets })

  abbrev pub when_allowed : Issue → String → Fetched Bool → World → World
  when_allowed i email failed w = w
  when_allowed i email (fetched false) w = w
  when_allowed i email (fetched true) w = send_code i email i.code i.code_hash w

  unfoldable pub issue_reset_code : Issue → String → World → World
  issue_reset_code i email w =
      let (allowed, resets) = rs.mark_sent email i.at_mark w.resets in
      when_allowed i email allowed (record w { resets = resets })

  abbrev pub issue_if_known : Issue → String → Fetched (Option UserRef) → World → World
  issue_if_known i email failed w = w
  issue_if_known i email (fetched none) w = w
  issue_if_known i email (fetched (some u)) w = issue_reset_code i email w

  unfoldable pub forgot_password : Issue → Option String → World → Reply String × World
  forgot_password i none w = (error 400 "invalid request body" "BAD_REQUEST", w)
  forgot_password i (some body) w =
      let email = t.clean body in
      (
        json 200 "reset_requested",
        if email == "" then w else issue_if_known i email (us.find_by_email email w.users) w,
      )

  -- What `VerifyResetCode` meets: the clock, the random token, and what other requests do before its
  -- attempt is counted and before its token is stored.
  pub record Verify : Type 0 where
    pub at_get : ℕ
    pub at_reserve : ℕ
    pub at_promote : ℕ
    pub token : Fetched String
    pub before_reserve : State → State
    pub before_promote : State → State

  abbrev pub promoted : String → Fetched (Unit {0}) → World → Reply String × World
  promoted token failed w = (internal_error, w)
  promoted token (fetched _) w = (json 200 token, w)

  -- After the guess: its token replaces the code.
  abbrev pub guessed : Verify → VerifyBody → Checked String → World → Reply String × World
  guessed v b (deny status message code) w = (error status message code, w)
  guessed v b (pass token) w =
      let (p, resets) =
        rs.promote_to_token b.email (t.hash_token token) v.at_promote (v.before_promote w.resets) in
      promoted token p (record w { resets = resets })

  abbrev pub guess : Verify → VerifyBody → Session → Fetched ℕ → Checked String
  guess v b s n = reserved n >> (code_accepted t s.code_hash b.code >> check_read v.token)

  -- After the session was read: the attempt is counted before the codes are compared.
  abbrev pub looked_up : Verify → VerifyBody → Checked Session → World → Reply String × World
  looked_up v b (deny status message code) w = (error status message code, w)
  looked_up v b (pass s) w =
      let (n, resets) = rs.incr_attempts b.email v.at_reserve (v.before_reserve w.resets) in
      guessed v b (guess v b s n) (record w { resets = resets })

  abbrev pub verify_checked : Verify → Checked VerifyBody → World → Reply String × World
  verify_checked v (deny status message code) w = (error status message code, w)
  verify_checked v (pass b) w =
      let (o, resets) = rs.get b.email v.at_get w.resets in
      looked_up v b (usable_code o) (record w { resets = resets })

  unfoldable pub verify_reset_code : Verify → Option VerifyBody → World → Reply String × World
  verify_reset_code v body w = verify_checked v (verify_body t body) w

  -- What `ResetPassword` meets: the clock and the hash of the new password.
  pub record Exchange : Type 0 where
    pub at_get : ℕ
    pub at_mark : ℕ
    pub password_hash : Fetched String

  abbrev pub password_stored :
      ResetBody → UserRef → Fetched (Unit {0}) → World → Reply String × World
  password_stored b u failed w = (internal_error, w)
  password_stored b u (fetched _) w = (
    bare 204,
    record w {
      resets = (rs.clear b.email w.resets).1;
      mails = w.mails ++ password_changed u.email ∷ [];
    },
  )

  abbrev pub exchanged :
      Exchange → ResetBody → Checked (UserRef × String) → World → Reply String × World
  exchanged x b (deny status message code) w = (error status message code, w)
  exchanged x b (pass (u, hash)) w =
      let (m, users) = us.mark_password_reset u.id hash x.at_mark w.users in
      password_stored b u m (record w { users = users })

  -- The token, then the user, then the hash.
  abbrev pub exchange :
      Exchange → ResetBody → Fetched (Option Session) → us.Db → Checked (UserRef × String)
  exchange x b o db = do
    token_accepted t b.reset_token o
    u ← known_user (us.find_by_email b.email db)
    hash ← check_read x.password_hash
    pass (u, hash)

  abbrev pub reset_checked : Exchange → Checked ResetBody → World → Reply String × World
  reset_checked x (deny status message code) w = (error status message code, w)
  reset_checked x (pass b) w =
      let (o, resets) = rs.get b.email x.at_get w.resets in
      exchanged x b (exchange x b o w.users) (record w { resets = resets })

  unfoldable pub reset_password : Exchange → Option ResetBody → World → Reply String × World
  reset_password x body w = reset_checked x (reset_body t body) w
