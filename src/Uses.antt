-- ===== src/Uses.antt =====
-- internal/store/player_limited_uses.go and the types and limits of internal/model/player.go: abilities
-- of a player that can be used a number of times. A count is a natural number. What other clients do
-- before each access of a store call is a parameter: `others` takes the attempts that are left
-- and the access's number.
pub mod Parse
pub mod Endpoints
pub mod Laws
pub mod Keeps
pub mod Retries
pub mod Sound
pub mod Counter
pub mod Accesses
pub mod Spending
use rolebook_backend.Common.{
  ℕ, zero, suc, ◌-◌, String, Bool, true, false, not, ◌&&◌, ◌||◌, Option, none, some, List, [], ◌∷◌,
  ◌++◌, length, ◌==◌, nat_eq, ltb, leb, if◌then◌else◌,
}
use rolebook_backend.Http.{Fetched, fetched, failed}
use rolebook_backend.Documents.{Collection}

pub record LimitedUse : Type 0 where
  pub id : String
  pub name : String
  pub note : String
  pub max : ℕ
  pub remaining : ℕ
  pub resets : Bool

abbrev pub limited_use_name_max : ℕ
limited_use_name_max = 60

abbrev pub limited_use_note_max : ℕ
limited_use_note_max = 200

abbrev pub limited_use_max_uses : ℕ
limited_use_max_uses = 99

abbrev pub limited_use_max_count : ℕ
limited_use_max_count = 50

-- What these operations read and write of a player's document.
pub record UsesSheet : Type 0 where
  pub limited_uses : List LimitedUse
  pub updated_at : ℕ

pub record LimitedUsePatch : Type 0 where
  pub name : Option String
  pub note : Option String
  pub max : Option ℕ
  pub resets : Option Bool

pub data UseError : Type 0 where
  limited_use_not_found no_uses_left already_full not_resettable limit_reached limited_use_changed
        player_missing use_failed :
      UseError

pub data Used {ℓ} (A : Type ℓ) : Type ℓ where
  done : A → Used A
  refused : UseError → Used A

-- `$elemMatch`, the positional `$`, `$pull`, and the projection to the first element of an id.
abbrev pub has_use : (LimitedUse → Bool) → List LimitedUse → Bool
has_use test [] = false
has_use test (u ∷ us) = test u || has_use test us

abbrev pub at_first :
    (LimitedUse → Bool) → (LimitedUse → LimitedUse) → List LimitedUse → List LimitedUse
at_first test f [] = []
at_first test f (u ∷ us) = let rest = at_first test f us in if test u then f u ∷ us else u ∷ rest

abbrev pub without_use : String → List LimitedUse → List LimitedUse
without_use id [] = []
without_use id (u ∷ us) = let rest = without_use id us in if u.id == id then rest else u ∷ rest

abbrev pub first_use : String → List LimitedUse → Option LimitedUse
first_use id [] = none
first_use id (u ∷ us) = let rest = first_use id us in if u.id == id then some u else rest

abbrev pub with_id : String → LimitedUse → Bool
with_id id u = u.id == id

-- `decodeLimitedUse`
unfoldable pub decode_limited_use :
    String → Fetched (Option UsesSheet) → Fetched (Option LimitedUse)
decode_limited_use id failed = failed
decode_limited_use id (fetched none) = fetched none
decode_limited_use id (fetched (some s)) = fetched (first_use id s.limited_uses)

abbrev pub or_old {ℓ} : {A : Type ℓ} → Option A → A → A
or_old none old = old
or_old (some new) old = new

-- `$min` on what remains, where the maximum is patched.
abbrev pub clamped : Option ℕ → ℕ → ℕ
clamped none remaining = remaining
clamped (some max) remaining = if ltb max remaining then max else remaining

unfoldable pub patched : LimitedUsePatch → LimitedUse → LimitedUse
patched p u = record u {
  name = or_old p.name u.name;
  note = or_old p.note u.note;
  max = or_old p.max u.max;
  remaining = clamped p.max u.remaining;
  resets = or_old p.resets u.resets;
}

-- The two filters of `spendLimitedUse`.
abbrev pub last_of_one_time : String → LimitedUse → Bool
last_of_one_time id u = u.id == id && (not u.resets && nat_eq u.remaining 1)

abbrev pub can_spend : String → LimitedUse → Bool
can_spend id u = u.id == id && (ltb 0 u.remaining && (u.resets || ltb 1 u.remaining))

abbrev pub spend_one : LimitedUse → LimitedUse
spend_one u = record u { remaining = u.remaining - 1 }

-- The filter of `casLimitedUseWith`; `extra` holds its further conditions.
abbrev pub unchanged_use : String → (LimitedUse → Bool) → LimitedUse → LimitedUse → Bool
unchanged_use id extra cur u =
    u.id == id && (nat_eq u.remaining cur.remaining && (nat_eq u.max cur.max && extra u))

abbrev pub set_remaining : ℕ → LimitedUse → LimitedUse
set_remaining n u = record u { remaining = n }

pub data Spent : Type 0 where
  spent : LimitedUse → Spent
  removed : Spent

-- What `RestoreLimitedUse` and `ResetLimitedUse` write.
abbrev pub one_more : LimitedUse → Used ℕ
one_more cur = if leb cur.max cur.remaining then refused already_full else done (suc cur.remaining)

abbrev pub refill : LimitedUse → Used ℕ
refill cur = if not cur.resets then refused not_resettable else done cur.max

abbrev pub cas_attempts : ℕ
cas_attempts = 2

module _ (players : Collection UsesSheet) (now : ℕ) where
  open players use {Db, find_one, find_one_and_update, update_one}

  -- `updateLimitedUse`: the filter is the player and a test of the uses.
  unfoldable pub update_limited_use :
      String
      → (List LimitedUse → Bool)
      → (List LimitedUse → List LimitedUse)
      → String
      → Db
      → Fetched (Option LimitedUse) × Db
  update_limited_use player test f id db =
      let (reply, db') =
        find_one_and_update player (λ s. test s.limited_uses)
          (λ s. record { limited_uses = f s.limited_uses; updated_at = now }) db in
      (decode_limited_use id reply, db')

  unfoldable pub get_limited_use : String → String → Db → Fetched (Option LimitedUse)
  get_limited_use player id db =
      decode_limited_use id (find_one player (λ s. has_use (with_id id) s.limited_uses) db)

  -- A filter miss is the player's absence or a full list.
  abbrev pub why_not_added : Fetched (Option UsesSheet) → Used LimitedUse
  why_not_added failed = refused use_failed
  why_not_added (fetched none) = refused player_missing
  why_not_added (fetched (some s)) = refused limit_reached

  abbrev pub after_add :
      (others : ℕ → ℕ → Db → Db) (player : String)
      → Fetched (Option LimitedUse) × Db
      → Used LimitedUse × Db
  after_add others player (failed, db) = (refused use_failed, db)
  after_add others player (fetched (some u), db) = (done u, db)
  after_add others player (fetched none, db) =
      let db' = others 0 1 db in (why_not_added (find_one player (λ s. true) db'), db')

  unfoldable pub add_limited_use :
      (others : ℕ → ℕ → Db → Db) → String → LimitedUse → Db → Used LimitedUse × Db
  add_limited_use others player lu db = after_add others player (
      update_limited_use player (λ us. ltb (length us) limited_use_max_count)
        (λ us. us ++ record lu { remaining = lu.max } ∷ []) lu.id (others 0 0 db))

  abbrev pub found_use : Fetched (Option LimitedUse) → Used LimitedUse
  found_use failed = refused use_failed
  found_use (fetched none) = refused limited_use_not_found
  found_use (fetched (some u)) = done u

  unfoldable pub change_limited_use : String → String → LimitedUsePatch → Db → Used LimitedUse × Db
  change_limited_use player id p db =
      let (reply, db') =
        update_limited_use player (has_use (with_id id)) (at_first (with_id id) (patched p)) id
          db in
      (found_use reply, db')

  abbrev pub matched : Fetched Bool → Used (Unit {0})
  matched failed = refused use_failed
  matched (fetched true) = done tt
  matched (fetched false) = refused limited_use_not_found

  unfoldable pub remove_limited_use : String → String → Db → Used (Unit {0}) × Db
  remove_limited_use player id db =
      let (reply, db') =
        update_one player (λ s. has_use (with_id id) s.limited_uses)
          (λ s. record { limited_uses = without_use id s.limited_uses; updated_at = now }) db in
      (matched reply, db')

  -- The read after both writes missed; `again` is the retry, where there is one.
  abbrev pub after_misses :
      Option (Db → Used Spent × Db) → Fetched (Option LimitedUse) → Db → Used Spent × Db
  after_misses again failed db = (refused use_failed, db)
  after_misses again (fetched none) db = (refused limited_use_not_found, db)
  after_misses none (fetched (some cur)) db = (refused no_uses_left, db)
  after_misses (some again) (fetched (some cur)) db = elim (ltb 0 cur.remaining) [
    | true ↦ again db
    | false ↦ (refused no_uses_left, db)
  ]

  abbrev pub after_spend :
      (others : ℕ → ℕ → Db → Db) (left : ℕ) (player id : String)
      → Option (Db → Used Spent × Db)
      → Fetched (Option LimitedUse) × Db
      → Used Spent × Db
  after_spend others left player id again (failed, db) = (refused use_failed, db)
  after_spend others left player id again (fetched (some u), db) = (done (spent u), db)
  after_spend others left player id again (fetched none, db) =
      let db' = others left 2 db in after_misses again (get_limited_use player id db') db'

  abbrev pub after_pull :
      (others : ℕ → ℕ → Db → Db) (left : ℕ) (player id : String)
      → Option (Db → Used Spent × Db)
      → Fetched Bool × Db
      → Used Spent × Db
  after_pull others left player id again (failed, db) = (refused use_failed, db)
  after_pull others left player id again (fetched true, db) = (done removed, db)
  after_pull others left player id again (fetched false, db) =
      after_spend others left player id again (
        update_limited_use player (has_use (can_spend id)) (at_first (can_spend id) spend_one) id
          (others left 1 db))

  -- `spendLimitedUse` with the retries that are left, of which `SpendLimitedUse` gives one.
  unfoldable pub spend_limited_use :
      (others : ℕ → ℕ → Db → Db) (retries : ℕ) (player id : String) → Db → Used Spent × Db
  spend_limited_use others zero player id db = after_pull others 0 player id none (
      update_one player (λ s. has_use (last_of_one_time id) s.limited_uses)
        (λ s. record { limited_uses = without_use id s.limited_uses; updated_at = now })
        (others 0 0 db))
  spend_limited_use others (suc n) player id db =
      after_pull others (suc n) player id (some (spend_limited_use others n player id)) (
        update_one player (λ s. has_use (last_of_one_time id) s.limited_uses)
          (λ s. record { limited_uses = without_use id s.limited_uses; updated_at = now })
          (others (suc n) 0 db))

  abbrev pub after_cas :
      (Db → Used LimitedUse × Db) → Fetched (Option LimitedUse) × Db → Used LimitedUse × Db
  after_cas again (failed, db) = (refused use_failed, db)
  after_cas again (fetched (some u), db) = (done u, db)
  after_cas again (fetched none, db) = again db

  abbrev pub write_next :
      (extra : LimitedUse → Bool) (player id : String)
      → (Db → Used LimitedUse × Db)
      → LimitedUse
      → Used ℕ
      → Db
      → (Db → Db)
      → Used LimitedUse × Db
  write_next extra player id again cur (refused e) db others = (refused e, db)
  write_next extra player id again cur (done n) db others = after_cas again (
      update_limited_use player (has_use (unchanged_use id extra cur))
        (at_first (unchanged_use id extra cur) (set_remaining n)) id (others db))

  abbrev pub cas_read :
      (extra : LimitedUse → Bool) (next : LimitedUse → Used ℕ) (player id : String)
      → (Db → Used LimitedUse × Db)
      → Fetched (Option LimitedUse)
      → Db
      → (Db → Db)
      → Used LimitedUse × Db
  cas_read extra next player id again failed db others = (refused use_failed, db)
  cas_read extra next player id again (fetched none) db others = (refused limited_use_not_found, db)
  cas_read extra next player id again (fetched (some cur)) db others =
      write_next extra player id again cur (next cur) db others

  -- `casLimitedUseWith` with the attempts that are left.
  unfoldable pub cas_limited_use_with :
      (others : ℕ → ℕ → Db → Db) (extra : LimitedUse → Bool) (next : LimitedUse → Used ℕ)
      (attempts : ℕ) (player id : String)
      → Db
      → Used LimitedUse × Db
  cas_limited_use_with others extra next zero player id db = (refused limited_use_changed, db)
  cas_limited_use_with others extra next (suc n) player id db =
      let db' = others n 0 db in
      cas_read extra next player id (cas_limited_use_with others extra next n player id)
        (get_limited_use player id db') db' (others n 1)

  unfoldable pub restore_limited_use :
      (others : ℕ → ℕ → Db → Db) → String → String → Db → Used LimitedUse × Db
  restore_limited_use others player id db =
      cas_limited_use_with others (λ u. true) one_more cas_attempts player id db

  unfoldable pub reset_limited_use :
      (others : ℕ → ℕ → Db → Db) → String → String → Db → Used LimitedUse × Db
  reset_limited_use others player id db =
      cas_limited_use_with others (λ u. u.resets) refill cas_attempts player id db
