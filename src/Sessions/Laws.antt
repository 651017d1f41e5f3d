-- ===== src/Sessions/Laws.antt =====
-- Which sessions a password reset ends.
use Prim.Native.Nat.{◌/◌}
use rolebook_backend.Common.{
  ℕ, ◌≤◌, String, ◌≡◌, ◌≢◌, ◌↔◌, refl, true, false, not, ◌&&◌, Option, some, List, contains, nat_eq,
  ltb, arith, eq_iff,
}
use rolebook_backend.Http.{Fetched, fetched, pass, >>-eq-pass}
use rolebook_backend.Sessions.{
  Claims, second, truncated, is_revoked, authenticate, is_admin, require_admin,
}

earlier_second :
    (i c : ℕ)
    → c ≢ 0
    → (not (nat_eq c 0) && ltb i (truncated c) ≡ false) ↔ (c / second ≤ i / second)
earlier_second i c h = (λ e. ground arith, λ e. ground arith)

-- After a password was reset, a valid token with an issue time gets through exactly where it was
-- issued in the second of the reset or in a later one.
pub authenticate_iff :
    (parse : String → Option Claims) (changed_at : String → Fetched ℕ) (token : String) (c : Claims)
    (issued changed : ℕ)
    → parse token ≡ some c
    → c.issued_at ≡ some issued
    → changed_at c.subject ≡ fetched changed
    → changed ≢ 0
    → (authenticate parse changed_at (some token) ≡ pass c.subject)
      ↔ (changed / second ≤ issued / second)
unfolding authenticate is_revoked
authenticate_iff parse changed_at token c issued changed parsed at reset ne =
    let e = earlier_second issued changed ne in
    rw (parsed, at, reset)
      (
        λ h. e.0 (>>-eq-pass _ 401 "missing or invalid token" "UNAUTHORIZED" (pass c.subject) h).0,
        λ h. rw (e.1 h) refl,
      )

-- A route for admins lets through exactly the users of the list, and never a request without a user.
pub require_admin_iff :
    (admins : List String) (user : String)
    → (require_admin admins user ≡ pass tt) ↔ ((user ≢ "") × (contains admins user ≡ true))
unfolding require_admin is_admin
require_admin_iff admins user =
    (λ h. ground (arith, eq_iff user ""), λ h. ground (arith, eq_iff user ""))
