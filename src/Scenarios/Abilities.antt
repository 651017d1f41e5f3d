-- ===== src/Scenarios/Abilities.antt =====
-- Limited uses at concrete inputs.
use rolebook_backend.Common.{
  String, ◌≡◌, refl, Bool, true, false, Option, none, some, [], ◌∷◌, ◌==◌, if◌then◌else◌, arith,
}
use rolebook_backend.Http.{pass}
use rolebook_backend.Access.{PlayerAccess}
use rolebook_backend.Documents.{Collection}
use rolebook_backend.Documents.Laws.{IsOf, Holds}
use rolebook_backend.Uses.{LimitedUse, UsesSheet, spend_limited_use}
use rolebook_backend.Uses.Laws.{IsSound}
use rolebook_backend.Uses.Sound.{use_request, serve_use, serve_use-Holds}
use rolebook_backend.Uses.Counter.{spend_counter, Answers, IsAlone}
use rolebook_backend.Uses.Spending.{IsLeft, spend_limited_use-spend_counter}
use rolebook_backend.Scenarios.Shelves.{shelf}

abbrev rage : LimitedUse
rage = record { id = "a1"; name = "Rage"; note = ""; max = 3; remaining = 1; resets = true }

abbrev potion : LimitedUse
potion = record { id = "a2"; name = "Potion"; note = ""; max = 1; remaining = 1; resets = false }

abbrev abilities : UsesSheet
abilities = record { limited_uses = rage ∷ potion ∷ []; updated_at = 2 }

abbrev uses : Collection UsesSheet
uses = shelf []

abbrev with_abilities : String → Option UsesSheet
with_abilities id = if id == "ana" then some abilities else none

abbrev guest : PlayerAccess
guest = record {
  player = record { id = "ana"; campaign_id = "camp"; linked_user_id = "u1" };
  is_dm = false;
}

abilities-IsSound : Holds uses IsSound with_abilities
abilities-IsSound id = by_key (id == "ana")
  where
    by_key : (b : Bool) → IsOf IsSound (if b then some abilities else none)
    by_key true = (
      ((omega arith, omega arith, omega arith), ((omega arith, omega arith, omega arith), tt)),
      omega arith,
    )
    by_key false = tt

serve_use-Holds_example :
    Holds uses IsSound
      (serve_use uses (λ s. s) 9 (λ i j d. d) (pass guest) (use_request "ana" "a1") with_abilities)
serve_use-Holds_example =
    serve_use-Holds uses (λ s. s) 9 (λ i j d. d) (pass guest) (λ i j d h. h)
      (use_request "ana" "a1") with_abilities abilities-IsSound

answering : Answers uses
answering = record {
  find_one = λ id test db. (_, refl);
  find_one_and_update = λ id test f db. (_, refl);
  update_one = λ id test f db. (_, refl);
}

only_potion : IsAlone "a2" potion abilities.limited_uses
only_potion = (λ e. cc, (λ e. refl, tt))

spend_limited_use-spend_counter_example :
    ((spend_limited_use uses 9 (λ i j d. d) 1 "ana" "a2" with_abilities).0 ≡ spend_counter potion)
    × IsLeft uses "ana" abilities "a2" potion
        (spend_limited_use uses 9 (λ i j d. d) 1 "ana" "a2" with_abilities).1
spend_limited_use-spend_counter_example =
    spend_limited_use-spend_counter uses 9 1 "ana" "a2" with_abilities abilities potion answering
      refl refl only_potion
