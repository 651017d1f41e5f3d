-- ===== src/Scenarios/Resets.antt =====
-- A password reset at concrete inputs.
use rolebook_backend.Common.{
  ◌≤◌, String, ◌≡◌, refl, true, false, none, some, [], ◌∷◌, ◌==◌, if◌then◌else◌, arith,
}
use Prim.Native.String.{◌++◌ as concat}
use rolebook_backend.Http.{fetched, pass, json, bare, error}
use rolebook_backend.Reset.{
  new_memory, set_code, mark_sent, get_session, incr_attempts, promote_to_token, clear, live,
}
use rolebook_backend.Reset.Attempts.{
  marks_sent, sets_code, gets, increments, guesses, guesses_bounded, after_calls, mark_sent_cools,
}
use rolebook_backend.Reset.Flow.{
  Texts, Users, UserRef, World, Exchange, Verify, VerifyBody, ResetBody, memory_store, verify_body,
  reset_body, verify_reset_code, reset_password,
}
use rolebook_backend.Reset.Tokens.{
  HasCode, token_entry, reset_password_once, verify_reset_code_sound,
  reset_password-verify_reset_code,
}

abbrev texts : Texts
texts = record {
  clean = λ s. s;
  trim = λ s. s;
  byte_length = λ s. if s == "short" then 5 else 9;
  code_matches = λ hash code. hash == concat "code " code;
  hash_token = λ token. concat "token " token;
}

abbrev ana : UserRef
ana = record { id = "u1"; email = "ana@example.org" }

-- The users' collection, of which only Ana's password hash is kept.
abbrev users : Users
users = record {
  Db = String;
  find_by_email = λ email db. fetched (if email == "ana@example.org" then some ana else none);
  mark_password_reset = λ id hash at db. (fetched tt, hash);
}

abbrev asked : World texts users memory_store
asked = record {
  resets = set_code "ana@example.org" "code 004217" 1000 new_memory;
  users = "old";
  mails = [];
}

abbrev code_body : VerifyBody
code_body = record { email = "ana@example.org"; code = "004217" }

abbrev calm : Verify texts users memory_store
calm = record {
  at_get = 2000;
  at_reserve = 2001;
  at_promote = 2002;
  token = fetched "t0";
  before_reserve = λ m. m;
  before_promote = λ m. m;
}

abbrev verified : World texts users memory_store
verified = (verify_reset_code texts users memory_store calm (some code_body) asked).1

code_body_passes : verify_body texts (some code_body) ≡ pass code_body
unfolding verify_body
code_body_passes = refl

code_verified :
    verify_reset_code texts users memory_store calm (some code_body) asked
    ≡ (json 200 "t0", verified)
unfolding verify_reset_code verify_body set_code get_session incr_attempts promote_to_token
    new_memory
code_verified = refl

abbrev new_password : ResetBody
new_password = record { email = "ana@example.org"; reset_token = "t0"; new_password = "dragonfly" }

new_password_passes : reset_body texts (some new_password) ≡ pass new_password
unfolding reset_body
new_password_passes = refl

abbrev an_exchange : Exchange texts users memory_store
an_exchange = record { at_get = 3000; at_mark = 3001; password_hash = fetched "new" }

abbrev done : World texts users memory_store
done = (reset_password texts users memory_store an_exchange (some new_password) verified).1

password_reset :
    reset_password texts users memory_store an_exchange (some new_password) verified
    ≡ (bare 204, done)
unfolding reset_password reset_body verify_reset_code verify_body set_code get_session incr_attempts
    promote_to_token new_memory clear
password_reset = refl

guesses_bounded_example :
    guesses "ana@example.org"
      (increments "ana@example.org" 2
        ∷ increments "ana@example.org" 3
        ∷ gets "bo@example.org" 4
        ∷ [])
      (set_code "ana@example.org" "code 004217" 1 new_memory)
    ≤ 5
guesses_bounded_example =
    guesses_bounded "ana@example.org" "code 004217" 1
      (increments "ana@example.org" 2
        ∷ increments "ana@example.org" 3
        ∷ gets "bo@example.org" 4
        ∷ [])
      new_memory (tt, (tt, (tt, tt)))

first_allowed : (mark_sent "ana@example.org" 1 new_memory).0 ≡ true
unfolding mark_sent new_memory
first_allowed = refl

mark_sent_cools_example :
    (mark_sent "ana@example.org" 9 (
      after_calls
        (sets_code "ana@example.org" "code 004217" 2 ∷ marks_sent "bo@example.org" 3 ∷ [])
        (mark_sent "ana@example.org" 1 new_memory).1)).0
    ≡ false
mark_sent_cools_example =
    mark_sent_cools "ana@example.org" 1 9
      (sets_code "ana@example.org" "code 004217" 2 ∷ marks_sent "bo@example.org" 3 ∷ []) new_memory
      first_allowed (tt, (tt, tt)) (omega arith)

verify_reset_code_sound_example :
    (b : VerifyBody) × (verify_body texts (some code_body) ≡ pass b)
    × HasCode texts users b (live 2000 (asked.resets.sessions b.email))
    × (verified.resets.sessions b.email ≡ some (token_entry texts users "t0" 2002))
verify_reset_code_sound_example =
    verify_reset_code_sound texts users calm (some code_body) asked verified "t0" code_verified

reset_password-verify_reset_code_example :
    (reset_password texts users memory_store an_exchange (some new_password) verified).0 ≡ bare 204
reset_password-verify_reset_code_example =
    reset_password-verify_reset_code texts users calm an_exchange (some code_body)
      (some new_password) asked verified "t0" code_body new_password ana "new" code_verified
      code_body_passes new_password_passes refl refl (λ e. cc) (omega arith) refl refl refl

reset_password_once_example :
    (reset_password texts users memory_store an_exchange (some new_password) done).0
    ≡ error 400 "invalid or expired reset token" "INVALID_TOKEN"
reset_password_once_example =
    reset_password_once texts users an_exchange an_exchange new_password new_password
      (some new_password) (some new_password) verified done password_reset new_password_passes
      new_password_passes refl
