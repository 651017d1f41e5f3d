-- ===== src/Reset/Attempts.antt =====
-- How often a code can be guessed, whatever the requests and however they interleave.
use rolebook_backend.Common.{
  ℕ, ◌+◌, ◌-◌, ◌≤◌, ◌<◌, String, ◌≡◌, ◌≢◌, refl, Bool, true, false, ◌&&◌, Option, none, some, List,
  [], ◌∷◌, ◌==◌, eq_iff, ltb, leb, if◌then◌else◌, arith, Bool-cases, inl, inr, All, str_eq_self,
}
use rolebook_backend.Reset.{
  Memory, MemEntry, mark_sent, set_code, get_session, incr_attempts, promote_to_token, clear,
  incr_entry, cooldown_ttl, is_cooling, kept,
}

-- The calls that the store gets, each with the clock's reading.
pub data StoreCall : Type 0 where
  marks_sent : String → ℕ → StoreCall
  sets_code : String → String → ℕ → StoreCall
  gets : String → ℕ → StoreCall
  increments : String → ℕ → StoreCall
  promotes : String → String → ℕ → StoreCall
  clears : String → StoreCall

unfoldable pub after_call : StoreCall → Memory → Memory
after_call (marks_sent k now) m = (mark_sent k now m).1
after_call (sets_code k hash now) m = set_code k hash now m
after_call (gets k now) m = (get_session k now m).1
after_call (increments k now) m = (incr_attempts k now m).1
after_call (promotes k hash now) m = promote_to_token k hash now m
after_call (clears k) m = clear k m

-- A call that starts no new session for the e-mail.
abbrev pub IsNoNewSession : String → StoreCall → Type 0
IsNoNewSession email (sets_code k hash now) = k ≢ email
IsNoNewSession email (promotes k hash now) = k ≢ email
IsNoNewSession email _ = Unit

-- A reservation lets a guess through when the counter that it returns is between 1 and 5.
abbrev pub lets_guess : ℕ → Bool
lets_guess n = ltb 0 n && leb n 5

abbrev guess_of : String → StoreCall → Memory → ℕ
guess_of email (increments k now) m =
    if (k == email) && lets_guess (incr_attempts k now m).0 then 1 else 0
guess_of email _ m = 0

-- How many reservations for the e-mail let a guess through.
unfoldable pub guesses : String → List StoreCall → Memory → ℕ
guesses email [] m = 0
guesses email (c ∷ cs) m = guess_of email c m + guesses email cs (after_call c m)

-- The attempts that are left of an e-mail's session.
abbrev left_of : Option MemEntry → ℕ
left_of none = 0
left_of (some e) = 5 - e.session.attempts

kept-left : (now : ℕ) (o : Option MemEntry) → left_of (kept now o) ≤ left_of o
kept-left now none = omega arith
kept-left now (some e) = ground arith

incr_entry-left :
    (email k : String) (now : ℕ) (o : Option MemEntry) (m : Memory)
    → m.sessions k ≡ o
    → (if (k == email) && lets_guess (incr_entry k now o m).0 then 1 else 0)
        + left_of ((incr_entry k now o m).1.sessions email)
      ≤ left_of (m.sessions email)
incr_entry-left email k now none m e = ground arith
incr_entry-left email k now (some x) m e = elim (Bool-cases (k == email)) [
  | inl hit ↦
      let same : k ≡ email = (eq_iff k email).0 hit in
      let there : m.sessions email ≡ some x = rw (← same) e in
      rw (same, there) (ground (arith, str_eq_self email))
  | inr miss ↦ ground (arith, eq_iff k email, eq_iff email k)
]

guess_of-left :
    (email : String) (c : StoreCall) (m : Memory)
    → IsNoNewSession email c
    → guess_of email c m + left_of ((after_call c m).sessions email) ≤ left_of (m.sessions email)
unfolding after_call mark_sent set_code get_session incr_attempts promote_to_token clear
guess_of-left email (marks_sent k now) m h = ground arith
guess_of-left email (sets_code k hash now) m h = ground (arith, eq_iff email k)
guess_of-left email (gets k now) m h = ground (arith, kept-left now (m.sessions k), eq_iff email k)
guess_of-left email (increments k now) m h = incr_entry-left email k now (m.sessions k) m refl
guess_of-left email (promotes k hash now) m h = ground (arith, eq_iff email k)
guess_of-left email (clears k) m h = ground (arith, eq_iff email k)

guesses-left :
    (email : String) (cs : List StoreCall) (m : Memory)
    → All (IsNoNewSession email) cs
    → guesses email cs m ≤ left_of (m.sessions email)
unfolding guesses
guesses-left email [] m h = omega arith
guesses-left email (c ∷ cs) m (h, hs) =
    omega (arith, guess_of-left email c m h, guesses-left email cs (after_call c m) hs)

-- However the requests for an e-mail and for others interleave, until a new code or a token is stored
-- for the e-mail at most five reservations let a guess of its code through.
pub guesses_bounded :
    (email hash : String) (now : ℕ) (cs : List StoreCall) (m : Memory)
    → All (IsNoNewSession email) cs
    → guesses email cs (set_code email hash now m) ≤ 5
unfolding set_code
guesses_bounded email hash now cs m h =
    ground (arith, guesses-left email cs (set_code email hash now m) h, str_eq_self email)

-- A call that does not clear the e-mail's state.
abbrev pub IsNoClear : String → StoreCall → Type 0
IsNoClear email (clears k) = k ≢ email
IsNoClear email _ = Unit

-- A cooldown that lasts until `b` at least.
abbrev lasts : ℕ → Option ℕ → Bool
lasts b none = false
lasts b (some until) = leb b until

pub after_calls : List StoreCall → Memory → Memory
after_calls [] m = m
after_calls (c ∷ cs) m = after_calls cs (after_call c m)

renewed-lasts :
    (b now : ℕ) (o : Option ℕ)
    → is_cooling now o ≡ false
    → lasts b o ≡ true
    → leb b (now + cooldown_ttl) ≡ true
renewed-lasts b now none e h = cc
renewed-lasts b now (some until) e h = ground arith

mark_sent-lasts :
    (email k : String) (b now : ℕ) (m : Memory)
    → lasts b (m.cooldowns email) ≡ true
    → lasts b ((mark_sent k now m).1.cooldowns email) ≡ true
unfolding mark_sent
mark_sent-lasts email k b now m h = elim (Bool-cases (is_cooling now (m.cooldowns k))) [
  | inl e ↦ rw e h
  | inr e ↦ rw e (elim (Bool-cases (email == k)) [
    | inl hit ↦ rw hit (renewed-lasts b now (m.cooldowns email) (rw ((eq_iff email k).0 hit) e) h)
    | inr miss ↦ rw miss h
  ])
]

incr_entry-lasts :
    (email k : String) (b now : ℕ) (o : Option MemEntry) (m : Memory)
    → lasts b (m.cooldowns email) ≡ true
    → lasts b ((incr_entry k now o m).1.cooldowns email) ≡ true
incr_entry-lasts email k b now none m h = h
incr_entry-lasts email k b now (some e) m h = ground arith

after_call-lasts :
    (email : String) (b : ℕ) (c : StoreCall) (m : Memory)
    → IsNoClear email c
    → lasts b (m.cooldowns email) ≡ true
    → lasts b ((after_call c m).cooldowns email) ≡ true
unfolding after_call set_code get_session incr_attempts promote_to_token clear
after_call-lasts email b (marks_sent k now) m n h = mark_sent-lasts email k b now m h
after_call-lasts email b (sets_code k hash now) m n h = h
after_call-lasts email b (gets k now) m n h = h
after_call-lasts email b (increments k now) m n h =
    incr_entry-lasts email k b now (m.sessions k) m h
after_call-lasts email b (promotes k hash now) m n h = h
after_call-lasts email b (clears k) m n h = ground (arith, eq_iff email k)

after_calls-lasts :
    (email : String) (b : ℕ) (cs : List StoreCall) (m : Memory)
    → All (IsNoClear email) cs
    → lasts b (m.cooldowns email) ≡ true
    → lasts b ((after_calls cs m).cooldowns email) ≡ true
unfolding after_calls
after_calls-lasts email b [] m n h = h
after_calls-lasts email b (c ∷ cs) m (n, ns) h =
    after_calls-lasts email b cs (after_call c m) ns (after_call-lasts email b c m n h)

cools-lasts :
    (b later : ℕ) (o : Option ℕ) → lasts b o ≡ true → later < b → is_cooling later o ≡ true
cools-lasts b later none h l = cc
cools-lasts b later (some until) h l = ground arith

mark_sent-cools :
    (email : String) (now : ℕ) (m : Memory)
    → (mark_sent email now m).0 ≡ true
    → lasts (now + cooldown_ttl) ((mark_sent email now m).1.cooldowns email) ≡ true
unfolding mark_sent
mark_sent-cools email now m sent = elim (Bool-cases (is_cooling now (m.cooldowns email))) [
  | inl e ↦ ground arith
  | inr e ↦ rw (e, str_eq_self email) (ground arith)
]

-- After a code was allowed at `now`, and whatever else happens short of clearing the e-mail's state, no
-- other is allowed for it within 60 seconds, whichever way the clock is read in between.
pub mark_sent_cools :
    (email : String) (now later : ℕ) (cs : List StoreCall) (m : Memory)
    → (mark_sent email now m).0 ≡ true
    → All (IsNoClear email) cs
    → later < now + cooldown_ttl
    → (mark_sent email later (after_calls cs (mark_sent email now m).1)).0 ≡ false
mark_sent_cools email now later cs m sent n before =
    let still =
      after_calls-lasts email (now + cooldown_ttl) cs (mark_sent email now m).1 n
        (mark_sent-cools email now m sent) in
    unfold mark_sent in
    (rw
      (cools-lasts (now + cooldown_ttl) later
        ((after_calls cs (mark_sent email now m).1).cooldowns email) still before)
      refl)
