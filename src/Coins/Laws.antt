-- ===== src/Coins/Laws.antt =====
-- A conversion keeps the worth of a purse, and an adjustment takes no more than there is.
use Prim.Native.Nat.{◌/◌, ◌%◌, ◌*◌, ◌^◌}
use native.Mathlib.Nat.{mod-add-div'}
use rolebook_backend.Common.{
  ℕ, zero, suc, ◌+◌, ◌≤◌, ◌<◌, String, ◌≡◌, ◌≢◌, refl, sym, ◌∙◌, ap, Bool, true, not, ◌||◌, Option,
  none, some, List, [], ◌∷◌, ◌==◌, nat_eq, if◌then◌else◌, arith, eq_iff, Bool-cases, inl, inr, All,
  str_eq_self,
}
use mathlib.Core.Option
use mathlib.Core.Path.{subst}
use rolebook_backend.Common.Int.{ℤ, pos, negsuc}
use rolebook_backend.Http.{Fetched, fetched, failed}
use rolebook_backend.Coins.{
  Coins, coin_value_cp, is_coin_denomination, converted, invalid_conversion, uneven_conversion,
  in_range, amount_of, total_cp, converted_amount, count_of, add_to, add_all, covers, select_purse,
  put_purse, PurseCollection, purse, coin_result, debits, negated, adjust_coins, convert_coins,
}

-- What a purse is worth in copper pieces.
abbrev pub worth : Coins → ℕ
worth c = c.cp + c.sp * 10 + c.ep * 50 + c.gp * 100 + c.pp * 1000

-- What holds of the five denominations holds of every key that passes the test.
by_denomination :
    (P : String → Type 0)
    → P "cp"
    → P "sp"
    → P "ep"
    → P "gp"
    → P "pp"
    → (key : String) → is_coin_denomination key ≡ true
    → P key
unfolding is_coin_denomination
by_denomination P c s e g p key h = elim (Bool-cases (key == "cp")) [
  | inl k ↦ subst P (sym ((eq_iff key "cp").0 k)) c
  | inr k1 ↦ elim (Bool-cases (key == "sp")) [
    | inl k ↦ subst P (sym ((eq_iff key "sp").0 k)) s
    | inr k2 ↦ elim (Bool-cases (key == "ep")) [
      | inl k ↦ subst P (sym ((eq_iff key "ep").0 k)) e
      | inr k3 ↦ elim (Bool-cases (key == "gp")) [
        | inl k ↦ subst P (sym ((eq_iff key "gp").0 k)) g
        | inr k4 ↦ subst P (sym ((eq_iff key "pp").0 (ground arith))) p
      ]
    ]
  ]
]

product_small :
    (n : ℕ)
    → n ≤ 1000000000
    → (key : String) → is_coin_denomination key ≡ true
    → n * coin_value_cp key < 2 ^ 63
unfolding coin_value_cp
product_small n h =
    by_denomination (λ key. n * coin_value_cp key < 2 ^ 63) (omega arith) (omega arith)
      (omega arith) (omega arith) (omega arith)

no_wrap : (p : ℕ) → p < 2 ^ 63 → p % 2 ^ 64 ≡ p
no_wrap p h = omega arith

-- What an accepted conversion has passed.
accepted :
    (from to : String) (amount : ℤ) (gained : ℕ)
    → converted_amount from to amount ≡ converted gained
    → (is_coin_denomination from ≡ true)
      × (is_coin_denomination to ≡ true)
      × (from ≢ to)
      × (in_range amount ≡ true)
      × (total_cp from amount % coin_value_cp to ≡ 0)
      × (total_cp from amount / coin_value_cp to ≡ gained)
unfolding converted_amount
accepted from to amount gained e =
    accepted_from (is_coin_denomination from) (is_coin_denomination to) (in_range amount)
      (total_cp from amount % coin_value_cp to) (total_cp from amount / coin_value_cp to) from to
      gained e
  where
    accepted_from :
        (a b c : Bool) (r q : ℕ) (from to : String) (gained : ℕ)
        → (if not a || (not b || (from == to || not c))
            then invalid_conversion
            else if nat_eq r 0
            then converted q
            else uneven_conversion)
          ≡ converted gained
        → (a ≡ true) × (b ≡ true) × (from ≢ to) × (c ≡ true) × (r ≡ 0) × (q ≡ gained)
    accepted_from a b c r q from to gained e = ground (arith, eq_iff from to)

in_range_le :
    (amount : ℤ) → in_range amount ≡ true → (1 ≤ amount_of amount) × (amount_of amount ≤ 1000000000)
in_range_le (pos n) h = ground arith
in_range_le (negsuc n) h = cc

-- An accepted conversion is of two different denominations and of 1 to 10^9 coins; its total does not
-- wrap around, and the coins gained are worth as much as the coins given.
pub converted_amount_exact :
    (from to : String) (amount : ℤ) (gained : ℕ)
    → converted_amount from to amount ≡ converted gained
    → (from ≢ to)
      × (1 ≤ amount_of amount)
      × (amount_of amount ≤ 1000000000)
      × (amount_of amount * coin_value_cp from < 2 ^ 63)
      × (gained * coin_value_cp to ≡ amount_of amount * coin_value_cp from)
converted_amount_exact from to amount gained e =
    let (coin, coin', differ, ranged, whole, quotient) = accepted from to amount gained e in
    let (low, high) = in_range_le amount ranged in
    let small = product_small (amount_of amount) high from coin in
    (
      differ,
      low,
      high,
      small,
      ap (λ q. q * coin_value_cp to) (sym quotient)
          ∙ omega (arith, mod-add-div' (total_cp from amount) (coin_value_cp to), whole)
          ∙ no_wrap _ small,
    )

worth-add_to :
    (key : String) (n : ℕ) (c : Coins)
    → is_coin_denomination key ≡ true
    → worth (add_to key (pos n) c) ≡ worth c + n * coin_value_cp key
unfolding add_to coin_value_cp
worth-add_to key n c h =
    by_denomination (λ k. worth (add_to k (pos n) c) ≡ worth c + n * coin_value_cp k) (omega arith)
      (omega arith) (omega arith) (omega arith) (omega arith) key h

worth-take :
    (key : String) (n : ℕ) (c : Coins)
    → is_coin_denomination key ≡ true
    → n ≤ count_of key c
    → worth (add_to key (negated n) c) + n * coin_value_cp key ≡ worth c
unfolding add_to coin_value_cp count_of
worth-take key zero c h le =
    by_denomination (λ k. worth (add_to k (pos 0) c) + 0 * coin_value_cp k ≡ worth c) (omega arith)
      (omega arith) (omega arith) (omega arith) (omega arith) key h
worth-take key (suc n) c h le =
    by_denomination
      (λ k.
        suc n ≤ count_of k c → worth (add_to k (negsuc n) c) + suc n * coin_value_cp k ≡ worth c)
      (λ l. omega arith) (λ l. omega arith) (λ l. omega arith) (λ l. omega arith) (λ l. omega arith)
      key h le

coin_result_purse :
    (o : Fetched (Option Coins)) (c : Coins) → coin_result o ≡ purse c → o ≡ fetched (some c)
coin_result_purse failed c e = cc
coin_result_purse (fetched none) c e = cc
coin_result_purse (fetched (some d)) c e = cc

select_purse-some :
    (gs : List (String × ℕ)) (ds : List (String × ℤ)) (o : Option Coins) (c : Coins)
    → some c ≡ Option.map (add_all ds) (select_purse gs o)
    → (old : Coins) × (o ≡ some old) × (covers gs old ≡ true) × (c ≡ add_all ds old)
select_purse-some gs ds none c e = cc
select_purse-some gs ds (some old) c e = (old, refl, ground arith, ground arith)

put_own :
    (id : String) (c : Coins) (f : String → Option Coins) → put_purse (some c) id f id ≡ some c
put_own id c f = ground (arith, str_eq_self id)

put_other :
    (id k : String) (c : Coins) (f : String → Option Coins)
    → k ≢ id
    → put_purse (some c) id f k ≡ f k
put_other id k c f other = ground (arith, other, eq_iff k id)

-- A conversion that the code accepts and that the store carries out took coins that were there. The
-- purse that it answers is worth as much as the one before, is stored in its place, and no other
-- purse has changed.
pub convert_coins-worth :
    (m : PurseCollection) (id from to : String) (amount : ℤ) (gained : ℕ) (db : m.Db) (c : Coins)
    → converted_amount from to amount ≡ converted gained
    → (convert_coins m id from to (amount_of amount) gained db).0 ≡ purse c
    → (old : Coins) × (m.stored db id ≡ some old)
      × (amount_of amount ≤ count_of from old)
      × (worth c ≡ worth old)
      × (m.stored (convert_coins m id from to (amount_of amount) gained db).1 id ≡ some c)
      × ((k : String)
          → k ≢ id
          → m.stored (convert_coins m id from to (amount_of amount) gained db).1 k ≡ m.stored db k)
unfolding convert_coins covers add_all
convert_coins-worth m id from to amount gained db c e done =
    let n = amount_of amount in
    let gs = (from, n) ∷ [] in
    let ds = (from, negated n) ∷ (to, pos gained) ∷ [] in
    let found = coin_result_purse _ c done in
    let (after, rest) = m.find_one_and_inc_lem id gs ds db (some c) found in
    let (old, there, covered, same) = select_purse-some gs ds (m.stored db id) c after in
    let (coin, coin', _, _, _, _) = accepted from to amount gained e in
    let (_, _, _, _, exact) = converted_amount_exact from to amount gained e in
    let enough : n ≤ count_of from old = ground arith in
    (
      old,
      there,
      enough,
      ap worth same
          ∙ omega (
            arith,
            worth-take from n old coin enough,
            worth-add_to to gained (add_to from (negated n) old) coin',
            exact,
          ),
      rest id ∙ put_own id c (m.stored db),
      λ k other. rest k ∙ put_other id k c (m.stored db) other,
    )

-- A debit takes no more than there is.
abbrev pub IsCovered : Coins → String × ℤ → Type 0
IsCovered c (key, pos n) = Unit
IsCovered c (key, negsuc n) = suc n ≤ count_of key c

covers-IsCovered :
    (ds : List (String × ℤ)) (c : Coins) → covers (debits ds) c ≡ true → All (IsCovered c) ds
unfolding debits covers
covers-IsCovered [] c h = tt
covers-IsCovered ((key, pos n) ∷ ds) c h = (tt, covers-IsCovered ds c h)
covers-IsCovered ((key, negsuc n) ∷ ds) c h = (ground arith, covers-IsCovered ds c (ground arith))

-- An adjustment that the store carries out found every coin that it takes, applied every delta, and
-- stored the purse that it returns.
pub adjust_coins-IsCovered :
    (m : PurseCollection) (id : String) (ds : List (String × ℤ)) (db : m.Db) (c : Coins)
    → (adjust_coins m id ds db).0 ≡ purse c
    → (old : Coins) × (m.stored db id ≡ some old)
      × All (IsCovered old) ds
      × (c ≡ add_all ds old)
      × (m.stored (adjust_coins m id ds db).1 id ≡ some c)
unfolding adjust_coins
adjust_coins-IsCovered m id ds db c done =
    let found = coin_result_purse _ c done in
    let (after, rest) = m.find_one_and_inc_lem id (debits ds) ds db (some c) found in
    let (old, there, covered, same) = select_purse-some (debits ds) ds (m.stored db id) c after in
    (old, there, covers-IsCovered ds old covered, same, rest id ∙ put_own id c (m.stored db))
