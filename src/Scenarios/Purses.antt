-- ===== src/Scenarios/Purses.antt =====
-- Purses, shared entries and sessions at concrete inputs.
use Prim.Native.Nat.{◌/◌}
use rolebook_backend.Common.{
  ◌≤◌, String, ◌≡◌, ◌≢◌, ◌↔◌, refl, ap, true, false, Option, none, some, List, [], ◌∷◌, ◌==◌,
  if◌then◌else◌, arith,
}
use mathlib.Core.Option
use rolebook_backend.Common.Int.{ℤ, pos, negsuc}
use rolebook_backend.Http.{fetched, pass}
use rolebook_backend.Access.{player, dm, Campaign}
use rolebook_backend.Coins.{
  Coins, coin_value_cp, converted, converted_amount, is_coin_denomination, count_of, add_to,
  add_all, covers, debits, select_purse, put_purse, PurseCollection, purse, adjust_coins,
  convert_coins,
}
use rolebook_backend.Coins.Laws.{worth, convert_coins-worth}
use rolebook_backend.Sharing.{
  Visibility, can_player_see_entry, allowed_player_ids_for_cascade, resolve_share_recipients,
}
use rolebook_backend.Sharing.Laws.{
  keeps, can_player_see_entry-keeps, IsResolved, resolve_share_recipients-IsResolved,
}
use rolebook_backend.Sessions.{Claims, second, authenticate}
use rolebook_backend.Sessions.Laws.{authenticate_iff}

put_same :
    (a o : Option Coins) (id : String) (db : String → Option Coins)
    → fetched a ≡ fetched o
    → (o ≡ a) × ((k : String) → put_purse a id db k ≡ put_purse o id db k)
put_same a o id db e =
    let same : a ≡ o = cc in (cc, λ k. ap (λ (x : Option Coins). put_purse x id db k) same)

abbrev silver : String
silver = "sp"

abbrev owner : String
owner = "ana"

abbrev stranger : String
stranger = "u1"

-- Purses in memory.
abbrev purses : PurseCollection
purses = record {
  Db = String → Option Coins;
  stored = λ db k. db k;
  find_one_and_inc = λ id gs ds db. (
    fetched (Option.map (add_all ds) (select_purse gs (db id))),
    put_purse (Option.map (add_all ds) (select_purse gs (db id))) id db,
  );
  find_one_and_inc_lem = λ id gs ds db o e. put_same _ o id db e;
}

abbrev rich : Coins
rich = record { cp = 3; sp = 20; ep = 0; gp = 1; pp = 0 }

abbrev hoard : String → Option Coins
hoard id = if id == "ana" then some rich else none

ten_for_one : converted_amount "sp" "gp" (pos 20) ≡ converted 2
unfolding converted_amount is_coin_denomination coin_value_cp
ten_for_one = refl

abbrev changed : Coins
changed = record { cp = 3; sp = 0; ep = 0; gp = 3; pp = 0 }

silver_changed : (convert_coins purses "ana" "sp" "gp" 20 2 hoard).0 ≡ purse changed
unfolding convert_coins covers count_of add_all add_to
silver_changed = refl

convert_coins-worth_example :
    (old : Coins) × (purses.stored hoard "ana" ≡ some old)
    × (20 ≤ count_of "sp" old)
    × (worth changed ≡ worth old)
    × (purses.stored (convert_coins purses "ana" "sp" "gp" 20 2 hoard).1 "ana" ≡ some changed)
    × ((k : String)
        → k ≢ "ana"
        → purses.stored (convert_coins purses "ana" "sp" "gp" 20 2 hoard).1 k
          ≡ purses.stored hoard k)
convert_coins-worth_example =
    convert_coins-worth purses "ana" "sp" "gp" (pos 20) 2 hoard changed ten_for_one silver_changed

abbrev spending : List (String × ℤ)
spending = ("sp", negsuc 4) ∷ ("cp", pos 7) ∷ []

abbrev spent : Coins
spent = record { cp = 10; sp = 15; ep = 0; gp = 1; pp = 0 }

spending_done : (adjust_coins purses "ana" spending hoard).0 ≡ purse spent
unfolding adjust_coins debits covers count_of add_all add_to
spending_done = refl

can_player_see_entry-keeps_example :
    can_player_see_entry (λ s. s) "players" ("ana" ∷ []) "bo" false
    ≡ keeps (allowed_player_ids_for_cascade (λ s. s) "players" ("ana" ∷ [])) "bo"
can_player_see_entry-keeps_example = can_player_see_entry-keeps (λ s. s) "players" ("ana" ∷ []) "bo"

abbrev for_bo : Visibility
for_bo = record { shared_with_all = false; shared_player_ids = "bo" ∷ [] }

abbrev camp : Campaign
camp = record {
  id = "camp";
  members =
      record { user_id = "u1"; player_id = "ana"; role = player; is_active = true }
      ∷ record { user_id = "u2"; player_id = "master"; role = dm; is_active = true }
      ∷ [];
}

resolve_share_recipients-IsResolved_example :
    IsResolved "ana" camp.members
      (resolve_share_recipients (fetched (some camp)) "ana" ("master" ∷ "ana" ∷ []) false)
resolve_share_recipients-IsResolved_example =
    resolve_share_recipients-IsResolved camp "ana" ("master" ∷ "ana" ∷ []) false

abbrev claims : Claims
claims = record { subject = "u1"; issued_at = some 5000000000 }

authenticate_iff_example :
    (authenticate (λ t. some claims) (λ u. fetched 6100000000) (some "t") ≡ pass "u1")
    ↔ (6100000000 / second ≤ 5000000000 / second)
authenticate_iff_example =
    authenticate_iff (λ t. some claims) (λ u. fetched 6100000000) "t" claims 5000000000 6100000000
      refl refl refl (λ e. omega arith)
