-- ===== src/Reset/Tokens.antt =====
-- What the requests of a password reset come to over the store in memory.
use rolebook_backend.Common.{
  ℕ, ◌+◌, ◌≤◌, ◌<◌, String, ◌≡◌, ◌≢◌, refl, sym, ◌∙◌, ap, true, false, Option, none, some, ◌==◌,
  eq_iff, arith, str_eq_self,
}
use rolebook_backend.Http.{
  Fetched, fetched, failed, Checked, pass, deny, >>=-eq-pass, json, error, bare,
}
use rolebook_backend.Reset.{
  MemEntry, Session, get_session, incr_attempts, promote_to_token, clear, live, put, code_ttl,
  token_session,
}
use rolebook_backend.Reset.Flow.{
  Texts, Users, UserRef, World, Exchange, Verify, VerifyBody, ResetBody, memory_store, verify_body,
  reset_body, token_accepted, code_accepted, usable_code, reserved, verify_reset_code,
  reset_password, password_stored, exchanged, exchange, reset_checked, guessed, looked_up,
  verify_checked,
}

-- The session that an accepted token belongs to.
abbrev pub HasToken : Texts → String → Option Session → Type 0
HasToken t token o =
    (s : Session) × (o ≡ some s) × (s.token_hash ≡ t.hash_token token) × (s.token_hash ≢ "")

token_accepted_sound :
    (t : Texts) (token : String) (o : Option Session) (a : Unit {0})
    → token_accepted t token (fetched o) ≡ pass a
    → HasToken t token o
token_accepted_sound t token none a e = cc
token_accepted_sound t token (some s) a e = (
  s,
  refl,
  ground (arith, eq_iff s.token_hash (t.hash_token token)),
  ground (arith, eq_iff s.token_hash ""),
)

module _ (t : Texts) (us : Users) where
  abbrev StoreWorld : Type 0
  StoreWorld = World t us memory_store

  password_stored-cleared :
      (b : ResetBody) (u : UserRef) (m : Fetched (Unit {0})) (w w' : StoreWorld)
      → password_stored t us memory_store b u m w ≡ (bare 204, w')
      → w'.resets.sessions b.email ≡ none
  unfolding clear
  password_stored-cleared b u failed w w' e = cc
  password_stored-cleared b u (fetched _) w w' e =
      sym (ap (λ p. p.1.resets.sessions b.email) e) ∙ ground (arith, str_eq_self b.email)

  exchanged-cleared :
      (x : Exchange t us memory_store) (b : ResetBody) (c : Checked (UserRef × String))
      (w w' : StoreWorld)
      → exchanged t us memory_store x b c w ≡ (bare 204, w')
      → ((uh : UserRef × String) × (c ≡ pass uh)) × (w'.resets.sessions b.email ≡ none)
  exchanged-cleared x b (deny status message code) w w' e = cc
  exchanged-cleared x b (pass (u, hash)) w w' e =
      (((u, hash), refl), password_stored-cleared b u _ _ w' e)

  reset_checked_sound :
      (x : Exchange t us memory_store) (c : Checked ResetBody) (w w' : StoreWorld)
      → reset_checked t us memory_store x c w ≡ (bare 204, w')
      → (b : ResetBody) × (c ≡ pass b)
        × HasToken t b.reset_token (live x.at_get (w.resets.sessions b.email))
        × (w'.resets.sessions b.email ≡ none)
  unfolding get_session
  reset_checked_sound x (deny status message code) w w' e = cc
  reset_checked_sound x (pass b) w w' e =
      let ((uh, e2), cleared) = exchanged-cleared x b _ _ w' e in
      let (_, e3, _) =
        >>=-eq-pass
          (token_accepted t b.reset_token (fetched (live x.at_get (w.resets.sessions b.email)))) _
          e2 in
      (b, refl, token_accepted_sound t b.reset_token _ _ e3, cleared)

  -- A password is reset only with the token of a session that has not expired, and that session is
  -- gone afterwards.
  pub reset_password_sound :
      (x : Exchange t us memory_store) (body : Option ResetBody) (w w' : StoreWorld)
      → reset_password t us memory_store x body w ≡ (bare 204, w')
      → (b : ResetBody) × (reset_body t body ≡ pass b)
        × HasToken t b.reset_token (live x.at_get (w.resets.sessions b.email))
        × (w'.resets.sessions b.email ≡ none)
  unfolding reset_password
  reset_password_sound x body w w' e = reset_checked_sound x (reset_body t body) w w' e

  no_session_refused :
      (y : Exchange t us memory_store) (b : ResetBody) (w : StoreWorld)
      → w.resets.sessions b.email ≡ none
      → (reset_checked t us memory_store y (pass b) w).0
        ≡ error 400 "invalid or expired reset token" "INVALID_TOKEN"
  unfolding get_session
  no_session_refused y b w e = rw e refl

  -- A token is good for one reset: right after one, no well-formed request for the same e-mail is
  -- accepted, whatever token it brings.
  pub reset_password_once :
      (x y : Exchange t us memory_store) (b b' : ResetBody) (body body' : Option ResetBody)
      (w w' : StoreWorld)
      → reset_password t us memory_store x body w ≡ (bare 204, w')
      → reset_body t body ≡ pass b
      → reset_body t body' ≡ pass b'
      → b'.email ≡ b.email
      → (reset_password t us memory_store y body' w').0
        ≡ error 400 "invalid or expired reset token" "INVALID_TOKEN"
  unfolding reset_password
  reset_password_once x y b b' body body' w w' e is_b is_b' same =
      let (b0, is_b0, _, gone) = reset_checked_sound x (reset_body t body) w w' e in
      let same0 : b0 ≡ b = cc in
      rw is_b' (
        no_session_refused y b' w' (
          ap (λ k. w'.resets.sessions k) (same ∙ ap (λ (r : ResetBody). r.email) (sym same0))
          ∙ gone))

  abbrev pub token_entry : String → ℕ → MemEntry
  token_entry token at = record {
    session = token_session (t.hash_token token);
    expires_at = at + code_ttl;
  }

  -- What a verified code rests on.
  abbrev pub HasCode : VerifyBody → Option Session → Type 0
  HasCode b o =
      (s : Session) × (o ≡ some s)
      × (s.code_hash ≢ "")
      × (s.attempts < 5)
      × (t.code_matches s.code_hash b.code ≡ true)

  usable_code_sound :
      (o : Option Session) (s : Session)
      → usable_code (fetched o) ≡ pass s
      → (o ≡ some s) × (s.code_hash ≢ "") × (s.attempts < 5)
  usable_code_sound none s e = cc
  usable_code_sound (some s0) s e = ground (arith, eq_iff s0.code_hash "")

  put_own : (k : String) (x : MemEntry) (f : String → Option MemEntry) → put k (some x) f k ≡ some x
  put_own k x f = ground (arith, str_eq_self k)

  reserved_sound : (n : ℕ) (a : Unit {0}) → reserved (fetched n) ≡ pass a → (0 < n) × (n ≤ 5)
  reserved_sound n a e = ground arith

  guessed_sound :
      (v : Verify t us memory_store) (b : VerifyBody) (c : Checked String) (w w' : StoreWorld)
      (token : String)
      → guessed t us memory_store v b c w ≡ (json 200 token, w')
      → (c ≡ pass token) × (w'.resets.sessions b.email ≡ some (token_entry token v.at_promote))
  unfolding promote_to_token
  guessed_sound v b (deny status message code) w w' token e = cc
  guessed_sound v b (pass token0) w w' token e =
      let same : token0 ≡ token = cc in
      (
        ap pass same,
        sym (ap (λ p. p.1.resets.sessions b.email) e)
            ∙ put_own b.email (token_entry token0 v.at_promote) (v.before_promote w.resets).sessions
            ∙ ap (λ k. some (token_entry k v.at_promote)) same,
      )

  code_accepted_sound :
      (hash code : String) (a : Unit {0})
      → code_accepted t hash code ≡ pass a
      → t.code_matches hash code ≡ true
  code_accepted_sound hash code a e = ground arith

  looked_up_sound :
      (v : Verify t us memory_store) (b : VerifyBody) (c : Checked Session) (w w' : StoreWorld)
      (token : String)
      → looked_up t us memory_store v b c w ≡ (json 200 token, w')
      → (s : Session) × (c ≡ pass s)
        × (t.code_matches s.code_hash b.code ≡ true)
        × (0 < (incr_attempts b.email v.at_reserve (v.before_reserve w.resets)).0)
        × ((incr_attempts b.email v.at_reserve (v.before_reserve w.resets)).0 ≤ 5)
        × (w'.resets.sessions b.email ≡ some (token_entry token v.at_promote))
  looked_up_sound v b (deny status message code) w w' token e = cc
  looked_up_sound v b (pass s) w w' token e =
      let n = (incr_attempts b.email v.at_reserve (v.before_reserve w.resets)).0 in
      let (e1, stored) = guessed_sound v b _ _ w' token e in
      let (_, e2, e3) = >>=-eq-pass (reserved (fetched n)) _ e1 in
      let (_, e4, _) = >>=-eq-pass (code_accepted t s.code_hash b.code) _ e3 in
      let (low, high) = reserved_sound n _ e2 in
      (s, refl, code_accepted_sound s.code_hash b.code _ e4, low, high, stored)

  verify_checked_sound :
      (v : Verify t us memory_store) (c : Checked VerifyBody) (w w' : StoreWorld) (token : String)
      → verify_checked t us memory_store v c w ≡ (json 200 token, w')
      → (b : VerifyBody) × (c ≡ pass b)
        × HasCode b (live v.at_get (w.resets.sessions b.email))
        × (w'.resets.sessions b.email ≡ some (token_entry token v.at_promote))
  unfolding get_session
  verify_checked_sound v (deny status message code) w w' token e = cc
  verify_checked_sound v (pass b) w w' token e =
      let (s, e1, matched, _, _, stored) = looked_up_sound v b _ _ w' token e in
      let (there, coded, few) =
        usable_code_sound (live v.at_get (w.resets.sessions b.email)) s e1 in
      (b, refl, (s, there, coded, few, matched), stored)

  -- A token is handed out only for the code of a session that has not expired and has had fewer than
  -- five attempts, and what is stored is the digest of that token, for ten minutes, in place of the
  -- code; whatever other requests do in between.
  pub verify_reset_code_sound :
      (v : Verify t us memory_store) (body : Option VerifyBody) (w w' : StoreWorld) (token : String)
      → verify_reset_code t us memory_store v body w ≡ (json 200 token, w')
      → (b : VerifyBody) × (verify_body t body ≡ pass b)
        × HasCode b (live v.at_get (w.resets.sessions b.email))
        × (w'.resets.sessions b.email ≡ some (token_entry token v.at_promote))
  unfolding verify_reset_code
  verify_reset_code_sound v body w w' token e =
      verify_checked_sound v (verify_body t body) w w' token e

  live-token_entry :
      (token : String) (at now : ℕ)
      → now ≤ at + code_ttl
      → live now (some (token_entry token at)) ≡ some (token_session (t.hash_token token))
  live-token_entry token at now h = ground arith

  exchange_accepts :
      (x : Exchange t us memory_store) (b : ResetBody) (db : us.Db) (u : UserRef) (hash : String)
      → t.hash_token b.reset_token ≢ ""
      → us.find_by_email b.email db ≡ fetched (some u)
      → x.password_hash ≡ fetched hash
      → exchange t us memory_store x b
          (fetched (some (token_session (t.hash_token b.reset_token))))
          db
        ≡ pass (u, hash)
  exchange_accepts x b db u hash ne known hashed =
      let nonempty : t.hash_token b.reset_token == "" ≡ false =
        ground (arith, eq_iff (t.hash_token b.reset_token) "") in
      rw (nonempty, str_eq_self (t.hash_token b.reset_token), known, hashed) refl

  reset_checked_accepts :
      (x : Exchange t us memory_store) (b : ResetBody) (w : StoreWorld) (u : UserRef)
      (hash : String)
      → live x.at_get (w.resets.sessions b.email)
        ≡ some (token_session (t.hash_token b.reset_token))
      → t.hash_token b.reset_token ≢ ""
      → us.find_by_email b.email w.users ≡ fetched (some u)
      → x.password_hash ≡ fetched hash
      → (us.mark_password_reset u.id hash x.at_mark w.users).0 ≡ fetched tt
      → (reset_checked t us memory_store x (pass b) w).0 ≡ bare 204
  unfolding get_session
  reset_checked_accepts x b w u hash here ne known hashed marked =
      let r = (get_session b.email x.at_get w.resets).1 in
      let m = us.mark_password_reset u.id hash x.at_mark w.users in
      ap
        (λ o.
          (exchanged t us memory_store x b (exchange t us memory_store x b (fetched o) w.users)
            (record w { resets = r })).0)
        here
      ∙ ap (λ c. (exchanged t us memory_store x b c (record w { resets = r })).0)
          (exchange_accepts x b w.users u hash ne known hashed)
      ∙ ap (λ o. (password_stored t us memory_store b u o (record w { resets = r; users = m.1 })).0)
          marked

  -- The token that a verified code returns resets the password of its e-mail within ten minutes, where
  -- the user is found and the writes succeed.
  pub reset_password-verify_reset_code :
      (v : Verify t us memory_store) (x : Exchange t us memory_store)
      (code_body : Option VerifyBody) (body : Option ResetBody) (w w' : StoreWorld) (token : String)
      (c : VerifyBody) (b : ResetBody) (u : UserRef) (hash : String)
      → verify_reset_code t us memory_store v code_body w ≡ (json 200 token, w')
      → verify_body t code_body ≡ pass c
      → reset_body t body ≡ pass b
      → b.email ≡ c.email
      → b.reset_token ≡ token
      → t.hash_token token ≢ ""
      → x.at_get ≤ v.at_promote + code_ttl
      → us.find_by_email b.email w'.users ≡ fetched (some u)
      → x.password_hash ≡ fetched hash
      → (us.mark_password_reset u.id hash x.at_mark w'.users).0 ≡ fetched tt
      → (reset_password t us memory_store x body w').0 ≡ bare 204
  unfolding reset_password
  reset_password-verify_reset_code v x code_body body w w' token c b u hash e is_c is_b same
        is_token ne soon known hashed marked =
      let (c0, is_c0, _, stored) =
        verify_checked_sound v (verify_body t code_body) w w' token
          (unfold verify_reset_code in e) in
      let key : c0 ≡ c = cc in
      let there : w'.resets.sessions b.email ≡ some (token_entry b.reset_token v.at_promote) =
        ap (λ k. w'.resets.sessions k) (same ∙ ap (λ (r : VerifyBody). r.email) (sym key))
        ∙ stored
        ∙ ap (λ k. some (token_entry k v.at_promote)) (sym is_token) in
      rw is_b (
        reset_checked_accepts x b w' u hash
          (ap (live x.at_get) there ∙ live-token_entry b.reset_token v.at_promote x.at_get soon)
          (λ h. ne (ap t.hash_token (sym is_token) ∙ h)) known hashed marked)
