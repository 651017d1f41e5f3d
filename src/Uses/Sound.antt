-- ===== src/Uses/Sound.antt =====
-- The endpoints of the limited uses as one transition function.
use Prim.Native.Nat.{◌≤◌}
use rolebook_backend.Common.{ℕ, String, ◌≡◌, refl, Option, none, some, arith}
use mathlib.Core.Path.{subst}
use rolebook_backend.Common.Int.{pos, negsuc}
use rolebook_backend.Http.{Checked, pass, deny, ◌>>=◌, pass_inj, >>=-eq-pass, >>-eq-pass}
use rolebook_backend.Access.{PlayerAccess}
use rolebook_backend.Documents.{Collection}
use rolebook_backend.Documents.Laws.{Holds}
use rolebook_backend.Uses.{
  LimitedUse, LimitedUsePatch, UsesSheet, Used, remove_limited_use, spend_limited_use,
  restore_limited_use, reset_limited_use, limited_use_max_uses, or_old,
}
use rolebook_backend.Uses.Parse.{
  JsonValue, text, whole, flag, fraction, other, Body, parse_limited_use_name,
  parse_limited_use_note, parse_limited_use_max, parse_limited_use_resets, required, note_or_empty,
  optional, parse_limited_use_create, parse_limited_use_patch,
}
use rolebook_backend.Uses.Endpoints.{
  decode_body, with_input, create_use, update_use, delete_use, use_one, restore_use, reset_use,
}
use rolebook_backend.Uses.Laws.{IsUse, IsSound, IsPatch}
use rolebook_backend.Uses.Keeps.{
  add_limited_use-Holds, change_limited_use-Holds, remove_limited_use-Holds,
}
use rolebook_backend.Uses.Retries.{
  spend_limited_use-Holds, restore_limited_use-Holds, reset_limited_use-Holds,
}

max_in_range :
    (v : JsonValue) (n : ℕ)
    → parse_limited_use_max v ≡ pass n
    → (1 ≤ n) × (n ≤ limited_use_max_uses)
unfolding parse_limited_use_max
max_in_range (whole (pos m)) n e = ground arith
max_in_range (whole (negsuc m)) n e = cc
max_in_range (text s) n e = cc
max_in_range (flag b) n e = cc
max_in_range fraction n e = cc
max_in_range other n e = cc

-- An accepted body makes a use of 1 to 99 uses, all of which remain.
pub parse_limited_use_create-IsUse :
    (trim : String → String) (id : String) (body : Body) (u : LimitedUse)
    → parse_limited_use_create trim id body ≡ pass u
    → IsUse u × (u.remaining ≡ u.max)
unfolding parse_limited_use_create
parse_limited_use_create-IsUse trim id body u e =
    let (n0, e0, k0) = >>=-eq-pass (required "name is required" (body "name")) _ e in
    let (n1, e1, k1) = >>=-eq-pass (parse_limited_use_name trim n0) _ k0 in
    let (n2, e2, k2) =
      >>=-eq-pass (note_or_empty (parse_limited_use_note trim) (body "note")) _ k1 in
    let (n3, e3, k3) = >>=-eq-pass (required "max is required" (body "max")) _ k2 in
    let (n4, e4, k4) = >>=-eq-pass (parse_limited_use_max n3) _ k3 in
    let (n5, e5, k5) = >>=-eq-pass (required "resets is required" (body "resets")) _ k4 in
    let (n6, e6, k6) = >>=-eq-pass (parse_limited_use_resets n5) _ k5 in
    let (low, high) = max_in_range n3 n4 e4 in
    subst (λ (x : LimitedUse). IsUse x × (x.remaining ≡ x.max)) (pass_inj k6)
      ((low, high, omega arith), refl)

optional_in_range :
    (o : Option JsonValue) (p : Option ℕ)
    → optional parse_limited_use_max o ≡ pass p
    → (1 ≤ or_old p 1) × (or_old p 1 ≤ limited_use_max_uses)
optional_in_range none p e =
    subst (λ q. (1 ≤ or_old q 1) × (or_old q 1 ≤ limited_use_max_uses)) (pass_inj e)
      (omega arith, omega arith)
optional_in_range (some v) p e =
    let (n, e1, k) = >>=-eq-pass (parse_limited_use_max v) _ e in
    subst (λ q. (1 ≤ or_old q 1) × (or_old q 1 ≤ limited_use_max_uses)) (pass_inj k)
      (max_in_range v n e1)

parse_limited_use_patch-IsPatch :
    (trim : String → String) (body : Body) (p : LimitedUsePatch)
    → parse_limited_use_patch trim body ≡ pass p
    → IsPatch p
unfolding parse_limited_use_patch
parse_limited_use_patch-IsPatch trim body p e =
    let (n1, e1, k1) = >>=-eq-pass (optional (parse_limited_use_name trim) (body "name")) _ e in
    let (n2, e2, k2) = >>=-eq-pass (optional (parse_limited_use_note trim) (body "note")) _ k1 in
    let (n3, e3, k3) = >>=-eq-pass (optional parse_limited_use_max (body "max")) _ k2 in
    let (n4, e4, k4) = >>=-eq-pass (optional parse_limited_use_resets (body "resets")) _ k3 in
    let (d, k5) = >>-eq-pass _ _ _ _ _ k4 in
    subst IsPatch (pass_inj k5) (optional_in_range (body "max") n3 e3)

-- A request to one of the endpoints that write; `id` is the new or the named use's.
pub data UseRequest : Type 0 where
  create_request update_request : (player id : String) → Option Body → UseRequest
  delete_request use_request restore_request reset_request : (player id : String) → UseRequest

module _ (c : Collection UsesSheet) (trim : String → String) (now : ℕ)
    (others : ℕ → ℕ → c.Db → c.Db) (access : Checked PlayerAccess) where
  unfoldable pub serve_use : UseRequest → c.Db → c.Db
  serve_use (create_request player id body) db =
      (create_use c trim now others access player id body db).1
  serve_use (update_request player id body) db =
      (update_use c trim now others access player id body db).1
  serve_use (delete_request player id) db = (delete_use c trim now others access player id db).1
  serve_use (use_request player id) db = (use_one c trim now others access player id db).1
  serve_use (restore_request player id) db = (restore_use c trim now others access player id db).1
  serve_use (reset_request player id) db = (reset_use c trim now others access player id db).1

  with_input-Holds {ℓ κ} :
      {A : Type ℓ} {B : Type κ} (input : Checked A) (write : A → c.Db → Used B × c.Db) (db : c.Db)
      → ((a : A) → input ≡ pass a → Holds c IsSound (write a db).1)
      → Holds c IsSound db
      → Holds c IsSound (with_input c trim now others input write db).1
  with_input-Holds (deny status message code) write db h all = all
  with_input-Holds (pass a) write db h all = h a refl

  created :
      (id : String) (body : Option Body) (lu : LimitedUse)
      → (access >>= λ a. decode_body body >>= λ b. parse_limited_use_create trim id b) ≡ pass lu
      → IsUse lu
  created id body lu e =
      let (a, e1, k1) = >>=-eq-pass access _ e in
      let (b, e2, k2) = >>=-eq-pass (decode_body body) _ k1 in
      (parse_limited_use_create-IsUse trim id b lu k2).0

  sent-IsPatch :
      (body : Option Body) (p : LimitedUsePatch)
      → (access >>= λ a. decode_body body >>= λ b. parse_limited_use_patch trim b) ≡ pass p
      → IsPatch p
  sent-IsPatch body p e =
      let (a, e1, k1) = >>=-eq-pass access _ e in
      let (b, e2, k2) = >>=-eq-pass (decode_body body) _ k1 in
      parse_limited_use_patch-IsPatch trim b p k2

  -- Every request leaves every player with at most 50 limited uses, each of 1 to 99 uses of which no
  -- more than all remain, where that holds before and other clients keep it between the accesses.
  pub serve_use-Holds :
      ((i j : ℕ) (db : c.Db) → Holds c IsSound db → Holds c IsSound (others i j db))
      → (r : UseRequest) (db : c.Db) → Holds c IsSound db
      → Holds c IsSound (serve_use r db)
  unfolding serve_use create_use update_use delete_use use_one restore_use reset_use
  serve_use-Holds stable (create_request player id body) db all =
      with_input-Holds _ _ db
        (λ lu e.
          let (low, high, rest) = created id body lu e in
          add_limited_use-Holds c now others stable player lu db low high all)
        all
  serve_use-Holds stable (update_request player id body) db all =
      with_input-Holds _ _ db
        (λ p e. change_limited_use-Holds c now player id p db (sent-IsPatch body p e) all) all
  serve_use-Holds stable (delete_request player id) db all =
      with_input-Holds access (λ a. remove_limited_use c now player id) db
        (λ a e. remove_limited_use-Holds c now player id db all) all
  serve_use-Holds stable (use_request player id) db all =
      with_input-Holds access (λ a. spend_limited_use c now others 1 player id) db
        (λ a e. spend_limited_use-Holds c now others stable 1 player id db all) all
  serve_use-Holds stable (restore_request player id) db all =
      with_input-Holds access (λ a. restore_limited_use c now others player id) db
        (λ a e. restore_limited_use-Holds c now others stable player id db all) all
  serve_use-Holds stable (reset_request player id) db all =
      with_input-Holds access (λ a. reset_limited_use c now others player id) db
        (λ a e. reset_limited_use-Holds c now others stable player id db all) all
