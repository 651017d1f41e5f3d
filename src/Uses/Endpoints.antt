-- ===== src/Uses/Endpoints.antt =====
-- The endpoints of internal/handler/limited_uses.go. `access` is the result of `resolvePlayerAccess`,
-- and a body that does not decode to an object is `none`.
use rolebook_backend.Common.{ℕ, String, Option, none, some, List}
use rolebook_backend.Http.{Checked, pass, deny, ◌>>=◌}
use rolebook_backend.Documents.{Collection}
use rolebook_backend.Access.{PlayerAccess}
use rolebook_backend.Uses.{
  LimitedUse, UsesSheet, UseError, limited_use_not_found, no_uses_left, already_full,
  not_resettable, limit_reached, limited_use_changed, player_missing, use_failed, Used, done,
  refused, Spent, add_limited_use, change_limited_use, remove_limited_use, spend_limited_use,
  restore_limited_use, reset_limited_use,
}
use rolebook_backend.Uses.Parse.{Body, parse_limited_use_create, parse_limited_use_patch}

-- `writeLimitedUseStoreError`
unfoldable pub limited_use_store_error {ℓ} : {A : Type ℓ} → UseError → Checked A
limited_use_store_error limited_use_not_found =
    deny 404 "limited use not found" "LIMITED_USE_NOT_FOUND"
limited_use_store_error no_uses_left = deny 409 "no uses left" "NO_USES_LEFT"
limited_use_store_error already_full = deny 409 "already at max uses" "ALREADY_FULL"
limited_use_store_error limited_use_changed =
    deny 409 "limited use changed, please retry" "LIMITED_USE_CHANGED"
limited_use_store_error not_resettable = deny 400 "this ability does not reset" "NOT_RESETTABLE"
limited_use_store_error limit_reached =
    deny 400 "at most 50 limited uses per character" "LIMIT_REACHED"
limited_use_store_error player_missing = deny 404 "player not found" "NOT_FOUND"
limited_use_store_error use_failed = deny 500 "internal server error" "INTERNAL_ERROR"

abbrev pub answer_of {ℓ} : {A : Type ℓ} → Used A → Checked A
answer_of (done a) = pass a
answer_of (refused e) = limited_use_store_error e

abbrev pub decode_body : Option Body → Checked Body
decode_body none = deny 400 "invalid request body" "BAD_REQUEST"
decode_body (some body) = pass body

-- `List`: the player was read by the access check.
unfoldable pub list_uses : Checked PlayerAccess → List LimitedUse → Checked (List LimitedUse)
list_uses access uses = access >>= λ a. pass uses

module _ (players : Collection UsesSheet) (trim : String → String) (now : ℕ)
    (others : ℕ → ℕ → players.Db → players.Db) where
  open players use {Db}

  -- A handler with a body writes where access and body pass.
  abbrev pub with_input {ℓ κ} :
      {A : Type ℓ} {B : Type κ} → Checked A → (A → Db → Used B × Db) → Db → Checked B × Db
  with_input (deny status message code) write db = (deny status message code, db)
  with_input (pass a) write db = let (r, db') = write a db in (answer_of r, db')

  unfoldable pub create_use :
      Checked PlayerAccess → (player id : String) → Option Body → Db → Checked LimitedUse × Db
  create_use access player id sent =
      with_input
        (access >>= λ a. decode_body sent >>= λ body. parse_limited_use_create trim id body)
        (λ lu. add_limited_use players now others player lu)

  unfoldable pub update_use :
      Checked PlayerAccess → (player id : String) → Option Body → Db → Checked LimitedUse × Db
  update_use access player id sent =
      with_input (access >>= λ a. decode_body sent >>= λ body. parse_limited_use_patch trim body)
        (λ p. change_limited_use players now player id p)

  unfoldable pub delete_use :
      Checked PlayerAccess → (player id : String) → Db → Checked (Unit {0}) × Db
  delete_use access player id = with_input access (λ a. remove_limited_use players now player id)

  unfoldable pub use_one : Checked PlayerAccess → (player id : String) → Db → Checked Spent × Db
  use_one access player id =
      with_input access (λ a. spend_limited_use players now others 1 player id)

  unfoldable pub restore_use :
      Checked PlayerAccess → (player id : String) → Db → Checked LimitedUse × Db
  restore_use access player id =
      with_input access (λ a. restore_limited_use players now others player id)

  unfoldable pub reset_use :
      Checked PlayerAccess → (player id : String) → Db → Checked LimitedUse × Db
  reset_use access player id =
      with_input access (λ a. reset_limited_use players now others player id)
