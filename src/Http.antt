-- ===== src/Http.antt =====
-- internal/handler/response.go: what a handler answers. A check before the work either passes a
-- value on or writes an error and returns; `Fetched` is the (value, error) pair of a database call.
use rolebook_backend.Common.{ℕ, String, ◌≡◌, refl, ap, Bool, true, false}

pub data Fetched {ℓ} (A : Type ℓ) : Type ℓ where
  fetched : A → Fetched A
  failed : Fetched A

pub data Checked {ℓ} (A : Type ℓ) : Type ℓ where
  pass : A → Checked A
  deny : (status : ℕ) (message code : String) → Checked A

infixl 5 ◌>>=◌ ◌>>◌
abbrev pub ◌>>=◌ {ℓ κ} : {A : Type ℓ} {B : Type κ} → Checked A → (A → Checked B) → Checked B
pass a >>= f = f a
deny status message code >>= f = deny status message code

abbrev pub ◌>>◌ {ℓ} : {B : Type ℓ} → Checked (Unit {0}) → Checked B → Checked B
m >> k = m >>= λ _. k

-- `if refused { writeError(...); return }`
abbrev pub deny_if : Bool → ℕ → String → String → Checked (Unit {0})
deny_if true status message code = deny status message code
deny_if false status message code = pass tt

-- A chain of checks passes where each of them does.
pub >>=-eq-pass {ℓ κ} :
    {A : Type ℓ} {B : Type κ} (m : Checked A) (f : A → Checked B) {b : B}
    → (m >>= f) ≡ pass b
    → (a : A) × (m ≡ pass a) × (f a ≡ pass b)
>>=-eq-pass (pass a) f h = (a, refl, h)
>>=-eq-pass (deny status message code) f h = cc

pub >>-eq-pass {κ} :
    {B : Type κ} (refused : Bool) (status : ℕ) (message code : String) (k : Checked B) {b : B}
    → (deny_if refused status message code >> k) ≡ pass b
    → (refused ≡ false) × (k ≡ pass b)
>>-eq-pass true status message code k h = cc
>>-eq-pass false status message code k h = (refl, h)

-- `writeJSON`, `writeError`, and a status with no body.
pub data Reply {ℓ} (A : Type ℓ) : Type ℓ where
  json : (status : ℕ) → A → Reply A
  error : (status : ℕ) (message code : String) → Reply A
  bare : (status : ℕ) → Reply A

-- `writeError(w, 500, "internal server error", "INTERNAL_ERROR")`
abbrev pub internal_error {ℓ} : {A : Type ℓ} → Reply A
internal_error = error 500 "internal server error" "INTERNAL_ERROR"

abbrev pub deny_internal {ℓ} : {A : Type ℓ} → Checked A
deny_internal = deny 500 "internal server error" "INTERNAL_ERROR"

-- A failed read ends a request with `internal_error`.
abbrev pub check_read {ℓ} : {A : Type ℓ} → Fetched A → Checked A
check_read failed = deny_internal
check_read (fetched a) = pass a

pub pass_inj {ℓ} : {A : Type ℓ} {a b : A} → pass a ≡ pass b → a ≡ b
pass_inj {A} {a} {b} e = ap (passed a) e
  where
    passed : {A : Type ℓ} → A → Checked A → A
    passed x (deny status message code) = x
    passed x (pass y) = y
