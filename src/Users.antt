-- ===== src/Users.antt =====
-- internal/store/user.go over the collection of users, which is a parameter, and the store of accounts
-- that it makes. The zero time is 0, and `$unset` of a field is its zero value.
pub mod Confirm
pub mod Change
pub mod Laws
pub mod Commits
use rolebook_backend.Common.{
  ℕ, suc, String, Bool, true, false, Option, none, some, ◌==◌, if◌then◌else◌,
}
use rolebook_backend.Http.{Fetched, fetched, failed}
use rolebook_backend.Documents.{Collection, Inserted, inserted, duplicate, insert_failed}
use rolebook_backend.Accounts.{Account, AccountStore}

pub record User : Type 0 where
  pub id : String
  pub email : String
  pub password_hash : String
  pub email_verified : Bool
  pub pending_email : String
  pub verify_code_hash : String
  pub verify_code_expires_at : ℕ
  pub verify_code_attempts : ℕ
  pub verify_code_sent_at : ℕ
  pub password_changed_at : ℕ

abbrev pub account_of : User → Account
account_of u = record {
  id = u.id;
  email = u.email;
  password_hash = u.password_hash;
  email_verified = u.email_verified;
  verify_code_hash = u.verify_code_hash;
  verify_code_expires_at = u.verify_code_expires_at;
  verify_code_sent_at = u.verify_code_sent_at;
}

abbrev pub user_of : Account → User
user_of a = record {
  id = a.id;
  email = a.email;
  password_hash = a.password_hash;
  email_verified = a.email_verified;
  pending_email = "";
  verify_code_hash = a.verify_code_hash;
  verify_code_expires_at = a.verify_code_expires_at;
  verify_code_attempts = 0;
  verify_code_sent_at = a.verify_code_sent_at;
  password_changed_at = 0;
}

-- The effects of the updates.
unfoldable pub with_code : String → ℕ → ℕ → User → User
with_code hash expires sent u = record u {
  verify_code_hash = hash;
  verify_code_expires_at = expires;
  verify_code_sent_at = sent;
  verify_code_attempts = 0;
}

unfoldable pub verified : User → User
verified u = record u {
  email_verified = true;
  verify_code_hash = "";
  verify_code_expires_at = 0;
  verify_code_attempts = 0;
  verify_code_sent_at = 0;
}

unfoldable pub with_pending : String → String → ℕ → ℕ → User → User
with_pending pending hash expires sent u = record (with_code hash expires sent u) {
  pending_email = pending;
}

unfoldable pub with_email : String → User → User
with_email email u = record (verified u) { email = email; pending_email = "" }

abbrev pub no_error {ℓ} : {A : Type ℓ} → Fetched A → Fetched (Unit {0})
no_error failed = failed
no_error (fetched a) = fetched tt

abbrev pub no_insert_error : Inserted → Fetched (Unit {0})
no_insert_error inserted = fetched tt
no_insert_error duplicate = failed
no_insert_error insert_failed = failed

abbrev pub account_found : Fetched (Option User) → Fetched (Option Account)
account_found failed = failed
account_found (fetched none) = fetched none
account_found (fetched (some u)) = fetched (some (account_of u))

abbrev pub changed_at_of : Fetched (Option User) → Fetched ℕ
changed_at_of failed = failed
changed_at_of (fetched none) = fetched 0
changed_at_of (fetched (some u)) = fetched u.password_changed_at

module _ (users : Collection User) where
  open users use {Db, find_one, find_where, insert_one, update_one}

  unfoldable pub find_by_email : String → Db → Fetched (Option User)
  find_by_email email db = find_where (λ u. u.email == email) db

  unfoldable pub get_by_id : String → Db → Fetched (Option User)
  get_by_id id db = find_one id (λ u. true) db

  -- `UpdateByID`: no error where no user has the id.
  unfoldable pub update_by_id : String → (User → User) → Db → Fetched (Unit {0}) × Db
  update_by_id id f db = let (reply, db') = update_one id (λ u. true) f db in (no_error reply, db')

  unfoldable pub set_verification_code : String → String → ℕ → ℕ → Db → Fetched (Unit {0}) × Db
  set_verification_code id hash expires sent db = update_by_id id (with_code hash expires sent) db

  unfoldable pub increment_verify_attempts : String → Db → Fetched (Unit {0}) × Db
  increment_verify_attempts id db =
      update_by_id id (λ u. record u { verify_code_attempts = suc u.verify_code_attempts }) db

  unfoldable pub mark_verified : String → Db → Fetched (Unit {0}) × Db
  mark_verified id db = update_by_id id verified db

  unfoldable pub update_password_hash : String → String → Db → Fetched (Unit {0}) × Db
  update_password_hash id hash db = update_by_id id (λ u. record u { password_hash = hash }) db

  unfoldable pub set_pending_email_code :
      String → String → String → ℕ → ℕ → Db → Fetched (Unit {0}) × Db
  set_pending_email_code id pending hash expires sent db =
      update_by_id id (with_pending pending hash expires sent) db

  unfoldable pub commit_email_change : String → String → Db → Fetched (Unit {0}) × Db
  commit_email_change id email db = update_by_id id (with_email email) db

  unfoldable pub mark_password_reset : String → String → ℕ → Db → Fetched (Unit {0}) × Db
  mark_password_reset id hash changed_at db =
      update_by_id id
        (λ u. record u {
          password_hash = hash;
          password_changed_at = changed_at;
          email_verified = true;
        })
        db

  unfoldable pub password_changed_at : String → Db → Fetched ℕ
  password_changed_at id db = changed_at_of (find_one id (λ u. true) db)

  unfoldable pub create_user : User → Db → Fetched (Unit {0}) × Db
  create_user u db = let (reply, db') = insert_one u.id u db in (no_insert_error reply, db')

  -- The store of accounts of Register, Login and issueVerificationCode.
  abbrev pub account_store : AccountStore
  account_store = record {
    Db = Db;
    find_by_email = λ email db. account_found (find_by_email email db);
    create = λ a db. create_user (user_of a) db;
    set_verification_code = set_verification_code;
  }
