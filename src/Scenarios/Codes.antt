-- ===== src/Scenarios/Codes.antt =====
-- Confirmations of an address at concrete inputs.
use rolebook_backend.Common.{
  String, ◌≡◌, refl, true, false, Option, none, some, [], ◌∷◌, ◌==◌, if◌then◌else◌,
}
use Prim.Native.String.{◌++◌ as concat}
use rolebook_backend.Http.{fetched, pass}
use rolebook_backend.Sessions.{is_admin}
use rolebook_backend.Documents.{Collection}
use rolebook_backend.Accounts.{Settings, authorized, World}
use rolebook_backend.Users.{
  User, account_store, find_by_email, get_by_id, update_by_id, mark_verified, commit_email_change,
}
use rolebook_backend.Users.Confirm.{confirm_body, verifiable, verify_email}
use rolebook_backend.Users.Change.{confirmable, verify_email_change}
use rolebook_backend.Users.Laws.{IsOpen, IsSigned, verify_email-IsOpen}
use rolebook_backend.Users.Commits.{IsFree, IsSettled, verify_email_change-stored}
use rolebook_backend.Scenarios.Shelves.{shelf}

abbrev gia : User
gia = record {
  id = "u3";
  email = "gia@example.org";
  password_hash = "hash seven";
  email_verified = false;
  pending_email = "gia@example.com";
  verify_code_hash = "hash 004217";
  verify_code_expires_at = 2000;
  verify_code_attempts = 4;
  verify_code_sent_at = 900;
  password_changed_at = 0;
}

abbrev settings : Settings
settings = record {
  clean = λ s. s;
  password_matches = λ hash password. hash == concat "hash " password;
  verification_enabled = true;
  admin_ids = [];
}

abbrev users : Collection User
users = shelf ("u3" ∷ [])

abbrev stored : String → Option User
stored k = if k == "u3" then some gia else none

abbrev same : String → String
same s = s

abbrev world : World settings (account_store users)
world = record { users = stored; mails = [] }

abbrev by_mail : Option (String × String)
by_mail = some ("gia@example.org", "004217")

gia_verified :
    (verify_email settings same users 1000 (λ id. fetched "jwt") by_mail stored).0
    ≡ pass (authorized "jwt" "u3" true false)
unfolding verify_email verifiable find_by_email mark_verified update_by_id is_admin
gia_verified = refl

verify_email-IsOpen_example :
    (b : String × String) × (u : User) × (confirm_body settings same users 1000 by_mail ≡ pass b)
    × (find_by_email users b.0 stored ≡ fetched (some u))
    × (u.email ≡ b.0)
    × (u.email_verified ≡ false)
    × IsOpen settings same users 1000 u
    × (settings.password_matches u.verify_code_hash b.1 ≡ true)
    × IsSigned settings same users 1000
        (λ id. fetched "jwt")
        u.id
        (authorized "jwt" "u3" true false)
verify_email-IsOpen_example =
    verify_email-IsOpen settings same users 1000 (λ id. fetched "jwt") by_mail stored
      (authorized "jwt" "u3" true false) gia_verified

gia_moved :
    (verify_email_change settings same users 1000 "u3" (some "004217") world).0
    ≡ pass "gia@example.com"
unfolding verify_email_change confirmable get_by_id find_by_email commit_email_change update_by_id
gia_moved = refl

verify_email_change-stored_example :
    (b : String) × (u d : User) × (some "004217" ≡ some b)
    × (users.stored world.users "u3" ≡ some u)
    × (u.pending_email ≡ "gia@example.com")
    × IsOpen settings same users 1000 u
    × (settings.password_matches u.verify_code_hash (same b) ≡ true)
    × IsFree "u3" (find_by_email users "gia@example.com" world.users)
    × (users.stored
          (verify_email_change settings same users 1000 "u3" (some "004217") world).1.users
          "u3"
        ≡ some d)
    × IsSettled "gia@example.com" u d
verify_email_change-stored_example =
    verify_email_change-stored settings same users 1000 "u3" (some "004217") world "gia@example.com"
      gia_moved
