-- ===== src/Scenarios/Logins.antt =====
-- A login and a registration at concrete inputs.
use rolebook_backend.Common.{
  ℕ, String, ◌≡◌, refl, true, false, Option, none, some, [], ◌==◌, if◌then◌else◌,
}
use Prim.Native.String.{◌++◌ as concat}
use rolebook_backend.Http.{fetched, pass, json}
use rolebook_backend.Sessions.{is_admin}
use rolebook_backend.Accounts.{
  Account, AccountStore, Settings, AuthRequest, authorized, verification_required, AuthRound, World,
  auth_body, login, register,
}
use rolebook_backend.Accounts.Laws.{IsEntitled, login_sound, register_sound}

abbrev ana : Account
ana = record {
  id = "u1";
  email = "ana@example.org";
  password_hash = "hash dragonfly";
  email_verified = true;
  verify_code_hash = "";
  verify_code_expires_at = 0;
  verify_code_sent_at = 0;
}

-- The accounts in memory, without the codes of later logins.
abbrev accounts : AccountStore
accounts = record {
  Db = String → Option Account;
  find_by_email = λ email db. fetched (db email);
  create = λ u db. (fetched tt, λ k. if k == u.email then some u else db k);
  set_verification_code = λ id hash expires sent db. (fetched tt, db);
}

abbrev settings : Settings
settings = record {
  clean = λ s. s;
  password_matches = λ hash password. hash == concat "hash " password;
  verification_enabled = true;
  admin_ids = [];
}

abbrev world : World settings accounts
world = record { users = λ k. if k == "ana@example.org" then some ana else none; mails = [] }

abbrev round : AuthRound
round = record {
  now = 1000;
  at_set = 1001;
  uuid = "u2";
  password_hash = fetched "hash x";
  code = fetched "004217";
  code_hash = fetched "code 004217";
  token = λ id. fetched "jwt";
}

abbrev by_ana : AuthRequest
by_ana = record { email = "ana@example.org"; password = "dragonfly" }

ana_logged_in :
    login settings accounts round (some by_ana) world
    ≡ (json 200 (authorized "jwt" "u1" true false), world)
unfolding login auth_body is_admin
ana_logged_in = refl

login_sound_example :
    (b : AuthRequest) × (auth_body settings accounts (some by_ana) ≡ pass b)
    × IsEntitled settings accounts b world.users "u1"
    × (world ≡ world)
    × (round.token "u1" ≡ fetched "jwt")
login_sound_example =
    login_sound settings accounts round (some by_ana) world world "jwt" "u1" true false
      ana_logged_in

abbrev by_bo : AuthRequest
by_bo = record { email = "bo@example.org"; password = "x" }

abbrev bo_known : World settings accounts
bo_known = (register settings accounts round (some by_bo) world).1

bo_registered :
    register settings accounts round (some by_bo) world
    ≡ (json 201 (verification_required "bo@example.org"), bo_known)
unfolding register auth_body
bo_registered = refl

register_sound_example :
    (b : AuthRequest) × (auth_body settings accounts (some by_bo) ≡ pass b)
    × (accounts.find_by_email b.email world.users ≡ fetched none)
    × ((let status : ℕ = 201 in status) ≡ 201)
    × (verification_required "bo@example.org" ≡ verification_required b.email)
register_sound_example =
    register_sound settings accounts round (some by_bo) world bo_known 201
      (verification_required "bo@example.org") refl bo_registered
