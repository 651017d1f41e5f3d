-- ===== src/Sessions.antt =====
-- internal/middleware/auth.go: whose request it is, and who is an admin. Parsing and checking a token
-- is the JWT library's, a parameter; a time is in nanoseconds, and the zero time is 0.
pub mod Laws
use Prim.Native.Nat.{◌/◌, ◌*◌}
use rolebook_backend.Common.{
  ℕ, String, Bool, true, false, not, ◌&&◌, Option, none, some, List, [], ◌∷◌, contains, ◌==◌,
  nat_eq, ltb, if◌then◌else◌,
}
use rolebook_backend.Http.{Fetched, fetched, failed, Checked, pass, deny, deny_if, ◌>>=◌, ◌>>◌}

pub record Claims : Type 0 where
  pub subject : String
  pub issued_at : Option ℕ

abbrev pub second : ℕ
second = 1000000000

-- `t.Truncate(time.Second)`
abbrev pub truncated : ℕ → ℕ
truncated t = t / second * second

abbrev pub issued_before : Option ℕ → ℕ → Bool
issued_before none t = false
issued_before (some i) t = ltb i t

-- A failed look-up revokes nothing.
unfoldable pub is_revoked : Option ℕ → Fetched ℕ → Bool
is_revoked issued failed = false
is_revoked issued (fetched changed_at) =
    not (nat_eq changed_at 0) && issued_before issued (truncated changed_at)

abbrev pub unauthorized {ℓ} : {A : Type ℓ} → Checked A
unauthorized = deny 401 "missing or invalid token" "UNAUTHORIZED"

abbrev pub claims_of : Option Claims → Checked Claims
claims_of none = unauthorized
claims_of (some c) = pass c

abbrev pub bearer : Option String → Checked String
bearer none = unauthorized
bearer (some token) = pass token

-- `token` is `none` where the header is no bearer's; `parse` gives the claims of a valid token.
unfoldable pub authenticate :
    (String → Option Claims) → (String → Fetched ℕ) → Option String → Checked String
authenticate parse changed_at token = do
  t ← bearer token
  c ← claims_of (parse t)
  deny_if (is_revoked c.issued_at (changed_at c.subject)) 401 "missing or invalid token"
      "UNAUTHORIZED"
  pass c.subject

unfoldable pub is_admin : List String → String → Bool
is_admin admins user = if user == "" then false else contains admins user

unfoldable pub require_admin : List String → String → Checked (Unit {0})
require_admin admins user = deny_if (not (is_admin admins user)) 403 "forbidden" "FORBIDDEN"
