-- ===== src/Reset.antt =====
-- internal/resetstore: the state of a password reset, and the store that keeps it in memory. A map is a
-- function into `Option`; the clock is read in nanoseconds, and every method runs under the lock.

pub mod Flow
pub mod Attempts
pub mod Tokens
use rolebook_backend.Common.{
  ℕ, ◌+◌, ◌*◌, String, Bool, true, false, not, Option, none, some, ◌==◌, ltb, if◌then◌else◌,
}

-- `CodeTTL` and `CooldownTTL`.
abbrev pub code_ttl : ℕ
code_ttl = 10 * 60 * 1000000000

abbrev pub cooldown_ttl : ℕ
cooldown_ttl = 60 * 1000000000

pub record Session : Type 0 where
  pub code_hash : String
  pub attempts : ℕ
  pub token_hash : String

pub record MemEntry : Type 0 where
  pub session : Session
  pub expires_at : ℕ

pub record Memory : Type 0 where
  pub sessions : String → Option MemEntry
  pub cooldowns : String → Option ℕ

unfoldable pub new_memory : Memory
new_memory = record { sessions = λ k. none; cooldowns = λ k. none }

abbrev pub put {ℓ} : {A : Type ℓ} → String → Option A → (String → Option A) → (String → Option A)
put email a f k = if k == email then a else f k

-- `ok && now.Before(until)`
abbrev pub is_cooling : ℕ → Option ℕ → Bool
is_cooling now none = false
is_cooling now (some until) = ltb now until

unfoldable pub mark_sent : String → ℕ → Memory → Bool × Memory
mark_sent email now m =
    if is_cooling now (m.cooldowns email)
    then (false, m)
    else (true, record m { cooldowns = put email (some (now + cooldown_ttl)) m.cooldowns })

abbrev pub code_session : String → Session
code_session hash = record { code_hash = hash; attempts = 0; token_hash = "" }

abbrev pub token_session : String → Session
token_session hash = record { code_hash = ""; attempts = 0; token_hash = hash }

unfoldable pub set_code : String → String → ℕ → Memory → Memory
set_code email hash now m = record m {
  sessions =
      put email (some (record { session = code_session hash; expires_at = now + code_ttl }))
        m.sessions;
}

-- The session that is read at `now`: none where there is none or where it has expired.
abbrev pub live : ℕ → Option MemEntry → Option Session
live now none = none
live now (some e) = if ltb e.expires_at now then none else some e.session

-- An entry that has expired is deleted by the read.
abbrev pub kept : ℕ → Option MemEntry → Option MemEntry
kept now none = none
kept now (some e) = if ltb e.expires_at now then none else some e

unfoldable pub get_session : String → ℕ → Memory → Option Session × Memory
get_session email now m = (
  live now (m.sessions email),
  record m { sessions = put email (kept now (m.sessions email)) m.sessions },
)

abbrev pub incremented : MemEntry → MemEntry
incremented e = record e { session = record e.session { attempts = e.session.attempts + 1 } }

abbrev pub incr_entry : String → ℕ → Option MemEntry → Memory → ℕ × Memory
incr_entry email now none m = (0, m)
incr_entry email now (some e) m = if ltb e.expires_at now then (0, m) else (
  e.session.attempts + 1,
  record m { sessions = put email (some (incremented e)) m.sessions },
)

unfoldable pub incr_attempts : String → ℕ → Memory → ℕ × Memory
incr_attempts email now m = incr_entry email now (m.sessions email) m

unfoldable pub promote_to_token : String → String → ℕ → Memory → Memory
promote_to_token email hash now m = record m {
  sessions =
      put email (some (record { session = token_session hash; expires_at = now + code_ttl }))
        m.sessions;
}

unfoldable pub clear : String → Memory → Memory
clear email m = record m {
  sessions = put email none m.sessions;
  cooldowns = put email none m.cooldowns;
}
