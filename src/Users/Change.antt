-- ===== src/Users/Change.antt =====
-- ChangePassword, ChangeEmail, VerifyEmailChange and ResendEmailChange of internal/handler/auth.go.
-- `user` is the user of the request's token, "" where there is none. `byte_length` is a text's length
-- in bytes.
use rolebook_backend.Common.{
  ℕ, ◌+◌, String, Bool, not, ◌||◌, Option, none, some, [], ◌∷◌, ◌++◌, ◌==◌, leb, if◌then◌else◌,
}
use Prim.Native.String.{len as byte_length}
use rolebook_backend.Http.{
  Fetched, fetched, failed, Checked, pass, deny, deny_if, deny_internal, ◌>>=◌, ◌>>◌,
}
use rolebook_backend.Documents.{Collection}
use rolebook_backend.Reset.Flow.{min_password_length}
use rolebook_backend.Accounts.{Settings, AuthRound, verify_code_ttl, was_just_sent, World}
use rolebook_backend.Users.{
  User, find_by_email, get_by_id, increment_verify_attempts, update_password_hash,
  set_pending_email_code, commit_email_change, account_store,
}
use rolebook_backend.Users.Confirm.{parsed, invalid_code, open_code}

abbrev pub authenticated : String → Checked (Unit {0})
authenticated user = deny_if (user == "") 401 "missing or invalid token" "UNAUTHORIZED"

abbrev pub known_caller : Fetched (Option User) → Checked User
known_caller failed = deny_internal
known_caller (fetched none) = deny 401 "invalid credentials" "UNAUTHORIZED"
known_caller (fetched (some u)) = pass u

abbrev pub email_free : Fetched (Option User) → Checked (Unit {0})
email_free failed = deny_internal
email_free (fetched none) = pass tt
email_free (fetched (some u)) = deny 409 "email already registered" "EMAIL_TAKEN"

abbrev pub email_free_but_for : String → Fetched (Option User) → Checked (Unit {0})
email_free_but_for user failed = deny_internal
email_free_but_for user (fetched none) = pass tt
email_free_but_for user (fetched (some u)) =
    deny_if (not (u.id == user)) 409 "email already registered" "EMAIL_TAKEN"

unfoldable pub validate_new_password : String → Bool
validate_new_password pw = leb min_password_length (byte_length pw)

module _ (c : Settings) (trim : String → String) (users : Collection User) (now : ℕ) where
  unfoldable pub check_new_password :
      String → Option (String × String) → users.Db → Checked (User × String)
  check_new_password user sent db = do
    a ← authenticated user
    b ← parsed sent
    deny_if (b.0 == "" || b.1 == "") 400 "current and new password are required" "BAD_REQUEST"
    deny_if (not (validate_new_password b.1)) 400 "new password must be at least 8 characters"
        "WEAK_PASSWORD"
    u ← known_caller (get_by_id users user db)
    deny_if (not (c.password_matches u.password_hash b.0)) 400 "current password is incorrect"
        "INVALID_CURRENT_PASSWORD"
    pass (u, b.1)

  -- `hash` is bcrypt's of the new password.
  abbrev pub store_password :
      String
      → String
      → Checked (User × String)
      → World c (account_store users)
      → Checked (Unit {0}) × World c (account_store users)
  store_password user hash (deny status message code) w = (deny status message code, w)
  store_password user hash (pass (u, pw)) w =
      let (reply, db) = update_password_hash users user hash w.users in
      elim reply [
        | failed ↦ (deny_internal, record w { users = db })
        | fetched t ↦ (
          pass tt,
          record w { users = db; mails = w.mails ++ (u.email, "password changed") ∷ [] },
        )
      ]

  unfoldable pub change_password :
      String
      → Fetched String
      → Option (String × String)
      → World c (account_store users)
      → Checked (Unit {0}) × World c (account_store users)
  change_password user failed sent w =
      (check_new_password user sent w.users >>= λ (u, pw). deny_internal, w)
  change_password user (fetched hash) sent w =
      store_password user hash (check_new_password user sent w.users) w

  unfoldable pub check_new_email :
      String → Option (String × String) → users.Db → Checked (User × String)
  check_new_email user sent db = do
    a ← authenticated user
    b ← parsed sent
    deny_if (c.clean b.0 == "" || b.1 == "") 400 "new email and current password are required"
        "BAD_REQUEST"
    u ← known_caller (get_by_id users user db)
    deny_if (c.clean b.0 == u.email) 400 "new email matches the current email" "SAME_EMAIL"
    deny_if (not (c.password_matches u.password_hash b.1)) 400 "current password is incorrect"
        "INVALID_CURRENT_PASSWORD"
    f ← email_free (find_by_email users (c.clean b.0) db)
    pass (u, c.clean b.0)

  -- The new code is stored with the pending address, and mailed to it.
  abbrev pub send_pending :
      AuthRound
      → String
      → String
      → World c (account_store users)
      → Checked String × World c (account_store users)
  send_pending r user pending w = elim r.code [
    | failed ↦ (deny_internal, w)
    | fetched code ↦ elim r.code_hash [
      | failed ↦ (deny_internal, w)
      | fetched hash ↦
          let (reply, db) =
            set_pending_email_code users user pending hash (r.at_set + verify_code_ttl) r.at_set
              w.users in
          elim reply [
            | failed ↦ (deny_internal, record w { users = db })
            | fetched t ↦
                (pass pending, record w { users = db; mails = w.mails ++ (pending, code) ∷ [] })
          ]
    ]
  ]

  abbrev pub change_checked :
      AuthRound
      → String
      → Checked (User × String)
      → World c (account_store users)
      → Checked String × World c (account_store users)
  change_checked r user (deny status message code) w = (deny status message code, w)
  change_checked r user (pass (u, email)) w = send_pending r user email w

  unfoldable pub change_email :
      AuthRound
      → String
      → Option (String × String)
      → World c (account_store users)
      → Checked String × World c (account_store users)
  change_email r user sent w = change_checked r user (check_new_email user sent w.users) w

  unfoldable pub confirmable : String → Option String → users.Db → Checked (User × String)
  confirmable user sent db = do
    a ← authenticated user
    b ← parsed sent
    deny_if (trim b == "") 400 "code is required" "BAD_REQUEST"
    u ← known_caller (get_by_id users user db)
    deny_if (u.pending_email == "" || u.verify_code_hash == "") 400 "no pending email change"
        "NO_PENDING_CHANGE"
    o ← open_code c trim users now u
    pass (u, trim b)

  -- The old address hears of the change.
  abbrev pub committed :
      User
      → Fetched (Unit {0})
      → World c (account_store users)
      → Checked String × World c (account_store users)
  committed u failed w = (deny_internal, w)
  committed u (fetched t) w =
      (pass u.pending_email, record w { mails = w.mails ++ (u.email, u.pending_email) ∷ [] })

  abbrev pub commit :
      String
      → User
      → Checked (Unit {0})
      → World c (account_store users)
      → Checked String × World c (account_store users)
  commit user u (deny status message code) w = (deny status message code, w)
  commit user u (pass t) w =
      let (reply, db) = commit_email_change users user u.pending_email w.users in
      committed u reply (record w { users = db })

  abbrev pub confirm :
      String
      → Checked (User × String)
      → World c (account_store users)
      → Checked String × World c (account_store users)
  confirm user (deny status message code) w = (deny status message code, w)
  confirm user (pass (u, code)) w =
      if c.password_matches u.verify_code_hash code
      then commit user u (email_free_but_for user (find_by_email users u.pending_email w.users)) w
      else (invalid_code, record w { users = (increment_verify_attempts users user w.users).1 })

  unfoldable pub verify_email_change :
      String
      → Option String
      → World c (account_store users)
      → Checked String × World c (account_store users)
  verify_email_change user sent w = confirm user (confirmable user sent w.users) w

  abbrev pub pending_of : Fetched (Option User) → Checked User
  pending_of failed = deny_internal
  pending_of (fetched none) = deny 400 "no pending email change" "NO_PENDING_CHANGE"
  pending_of (fetched (some u)) =
      deny_if (u.pending_email == "") 400 "no pending email change" "NO_PENDING_CHANGE" >> pass u

  abbrev pub resend_pending :
      AuthRound
      → String
      → Checked User
      → World c (account_store users)
      → Checked (Unit {0}) × World c (account_store users)
  resend_pending r user (deny status message code) w = (deny status message code, w)
  resend_pending r user (pass u) w =
      if was_just_sent u.verify_code_sent_at r.now
      then (pass tt, w)
      else (pass tt, (send_pending r user u.pending_email w).1)

  unfoldable pub resend_email_change :
      AuthRound
      → String
      → World c (account_store users)
      → Checked (Unit {0}) × World c (account_store users)
  resend_email_change r user w =
      resend_pending r user (authenticated user >> pending_of (get_by_id users user w.users)) w
