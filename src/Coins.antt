-- ===== src/Coins.antt =====
-- internal/model/coins.go, the purse updates of internal/store/player.go and the endpoints of
-- internal/handler/coins.go. A purse counts coins by natural numbers. The collection of players is a
-- parameter, of which a purse is kept per player.
pub mod Laws
use Prim.Native.Nat.{◌/◌, ◌%◌, ◌*◌, ◌^◌}
use rolebook_backend.Common.{
  ℕ, zero, suc, ◌+◌, ◌-◌, String, ◌≡◌, Bool, true, false, not, ◌&&◌, ◌||◌, Option, none, some, List,
  [], ◌∷◌, ◌==◌, nat_eq, ltb, leb, if◌then◌else◌,
}
use mathlib.Core.Option
use rolebook_backend.Common.Int.{ℤ, pos, negsuc}
use rolebook_backend.Http.{
  Fetched, fetched, failed, Checked, pass, deny, deny_if, deny_internal, ◌>>=◌, ◌>>◌,
}

pub record Coins : Type 0 where
  pub cp : ℕ
  pub sp : ℕ
  pub ep : ℕ
  pub gp : ℕ
  pub pp : ℕ

-- `CoinValueCP`: 0 where the key is missing.
unfoldable pub coin_value_cp : String → ℕ
coin_value_cp key =
    if key == "cp"
    then 1
    else if key == "sp"
    then 10
    else if key == "ep"
    then 50
    else if key == "gp"
    then 100
    else if key == "pp"
    then 1000
    else 0

abbrev pub max_coin_amount : ℕ
max_coin_amount = 1000000000

unfoldable pub is_coin_denomination : String → Bool
is_coin_denomination key =
    key == "cp" || (key == "sp" || (key == "ep" || (key == "gp" || key == "pp")))

pub data Conversion : Type 0 where
  converted : ℕ → Conversion
  invalid_conversion : Conversion
  uneven_conversion : Conversion

-- `amount < 1 || amount > MaxCoinAmount`
abbrev pub in_range : ℤ → Bool
in_range (negsuc n) = false
in_range (pos n) = leb 1 n && leb n max_coin_amount

abbrev pub amount_of : ℤ → ℕ
amount_of (negsuc n) = 0
amount_of (pos n) = n

-- The product in a 64-bit int.
abbrev pub total_cp : String → ℤ → ℕ
total_cp from amount = (amount_of amount * coin_value_cp from) % 2 ^ 64

unfoldable pub converted_amount : String → String → ℤ → Conversion
converted_amount from to amount =
    if not (is_coin_denomination from)
      || (not (is_coin_denomination to) || (from == to || not (in_range amount)))
    then invalid_conversion
    else if nat_eq (total_cp from amount % coin_value_cp to) 0
    then converted (total_cp from amount / coin_value_cp to)
    else uneven_conversion

-- `coins.<key>` of a purse, and `$inc` on it.
unfoldable pub count_of : String → Coins → ℕ
count_of key c =
    if key == "cp"
    then c.cp
    else if key == "sp"
    then c.sp
    else if key == "ep"
    then c.ep
    else if key == "gp"
    then c.gp
    else if key == "pp"
    then c.pp
    else 0

abbrev pub inc : ℤ → ℕ → ℕ
inc (pos n) c = c + n
inc (negsuc n) c = c - suc n

unfoldable pub add_to : String → ℤ → Coins → Coins
add_to key d c =
    if key == "cp"
    then record c { cp = inc d c.cp }
    else if key == "sp"
    then record c { sp = inc d c.sp }
    else if key == "ep"
    then record c { ep = inc d c.ep }
    else if key == "gp"
    then record c { gp = inc d c.gp }
    else if key == "pp"
    then record c { pp = inc d c.pp }
    else c

unfoldable pub add_all : List (String × ℤ) → Coins → Coins
add_all [] c = c
add_all ((key, d) ∷ ds) c = add_all ds (add_to key d c)

-- The guards of a filter: coins.<key> {$gte: n}.
unfoldable pub covers : List (String × ℕ) → Coins → Bool
covers [] c = true
covers ((key, n) ∷ gs) c = leb n (count_of key c) && covers gs c

abbrev pub select_purse : List (String × ℕ) → Option Coins → Option Coins
select_purse gs none = none
select_purse gs (some c) = if covers gs c then some c else none

abbrev pub put_purse : Option Coins → String → (String → Option Coins) → (String → Option Coins)
put_purse none id before k = before k
put_purse (some c) id before k = if k == id then some c else before k

-- FindOneAndUpdate by `_id` and guards, with `$inc`, returning the purse after.
pub record PurseCollection : Type 1 where
  pub Db : Type 0
  pub stored : Db → String → Option Coins
  pub find_one_and_inc :
      String → List (String × ℕ) → List (String × ℤ) → Db → Fetched (Option Coins) × Db
  pub find_one_and_inc_lem :
      (id : String) (gs : List (String × ℕ)) (ds : List (String × ℤ)) (db : Db) (o : Option Coins)
      → (find_one_and_inc id gs ds db).0 ≡ fetched o
      → (o ≡ Option.map (add_all ds) (select_purse gs (stored db id)))
        × ((k : String) → stored (find_one_and_inc id gs ds db).1 k ≡ put_purse o id (stored db) k)

pub data CoinUpdate : Type 0 where
  purse : Coins → CoinUpdate
  insufficient_coins : CoinUpdate
  coins_failed : CoinUpdate

abbrev pub coin_result : Fetched (Option Coins) → CoinUpdate
coin_result failed = coins_failed
coin_result (fetched none) = insufficient_coins
coin_result (fetched (some c)) = purse c

-- Every debit is guarded.
unfoldable pub debits : List (String × ℤ) → List (String × ℕ)
debits [] = []
debits ((key, pos n) ∷ ds) = debits ds
debits ((key, negsuc n) ∷ ds) = (key, suc n) ∷ debits ds

abbrev pub negated : ℕ → ℤ
negated zero = pos zero
negated (suc n) = negsuc n

-- A value of the body of an adjustment: an integral number, another number, or another value.
pub data BodyValue : Type 0 where
  integral : ℤ → BodyValue
  fraction : BodyValue
  not_a_number : BodyValue

abbrev pub magnitude : ℤ → ℕ
magnitude (pos n) = n
magnitude (negsuc n) = suc n

abbrev pub with_delta :
    String → BodyValue → Checked (List (String × ℤ)) → Checked (List (String × ℤ))
with_delta key fraction rest = deny 400 "must be an integer" "BAD_REQUEST"
with_delta key not_a_number rest = deny 400 "must be an integer" "BAD_REQUEST"
with_delta key (integral d) rest =
    if ltb max_coin_amount (magnitude d)
    then deny 400 "out of range" "BAD_REQUEST"
    else if nat_eq (magnitude d) 0
    then rest
    else rest >>= λ ds. pass ((key, d) ∷ ds)

-- The body's entries, in the order in which they are visited; a message leaves out the key.
unfoldable pub deltas_of : List (String × BodyValue) → Checked (List (String × ℤ))
deltas_of [] = pass []
deltas_of ((key, v) ∷ es) =
    let rest = deltas_of es in
    if is_coin_denomination key
    then with_delta key v rest
    else deny 400 "unknown coin denomination" "BAD_REQUEST"

abbrev pub some_delta : List (String × ℤ) → Checked (List (String × ℤ))
some_delta [] = deny 400 "at least one non-zero coin amount is required" "BAD_REQUEST"
some_delta (d ∷ ds) = pass (d ∷ ds)

unfoldable pub parse_coin_deltas : List (String × BodyValue) → Checked (List (String × ℤ))
parse_coin_deltas body = deltas_of body >>= some_delta

module _ (m : PurseCollection) where
  open m use {Db, find_one_and_inc}

  unfoldable pub adjust_coins : String → List (String × ℤ) → Db → CoinUpdate × Db
  adjust_coins id ds db = (
    coin_result (find_one_and_inc id (debits ds) ds db).0,
    (find_one_and_inc id (debits ds) ds db).1,
  )

  unfoldable pub convert_coins : String → String → String → ℕ → ℕ → Db → CoinUpdate × Db
  convert_coins id from to amount gained db =
      let r =
        find_one_and_inc id ((from, amount) ∷ []) ((from, negated amount) ∷ (to, pos gained) ∷ [])
          db in
      (coin_result r.0, r.1)

  abbrev pub check_purse : CoinUpdate → Checked Coins
  check_purse (purse c) = pass c
  check_purse insufficient_coins = deny 409 "not enough coins" "INSUFFICIENT_COINS"
  check_purse coins_failed = deny_internal

  -- `Adjust` after the access check: a body that does not decode is `none`.
  unfoldable pub adjust : String → Option (List (String × BodyValue)) → Db → Checked Coins × Db
  adjust id none db = (deny 400 "invalid request body" "BAD_REQUEST", db)
  adjust id (some body) db = elim (parse_coin_deltas body) [
    | deny status message code ↦ (deny status message code, db)
    | pass ds ↦ let (u, db') = adjust_coins id ds db in (check_purse u, db')
  ]

  abbrev pub convert_with : String → String → String → ℤ → Conversion → Db → Checked Coins × Db
  convert_with id from to amount invalid_conversion db =
      (deny 400 "invalid conversion" "BAD_REQUEST", db)
  convert_with id from to amount uneven_conversion db =
      (deny 400 "conversion does not divide evenly" "UNEVEN_CONVERSION", db)
  convert_with id from to amount (converted gained) db =
      let (u, db') = convert_coins id from to (amount_of amount) gained db in (check_purse u, db')

  -- `Convert` after the access check.
  unfoldable pub convert : String → Option (String × String × ℤ) → Db → Checked Coins × Db
  convert id none db = (deny 400 "invalid request body" "BAD_REQUEST", db)
  convert id (some (from, to, amount)) db =
      convert_with id from to amount (converted_amount from to amount) db
