-- ===== src/Common/Text.antt =====
-- The order of Go strings: byte by byte, which for UTF-8 is the order of the code points.
use Prim.Native.Char.{code}
use Prim.Native.String.{String}
use mathlib.Core.Path.{◌≡◌, refl}
use mathlib.Core.Bool.{Bool, true, false}
use native.Mathlib.Omega.{arith}
use rolebook_backend.Common.Tests.{ltb, if◌then◌else◌}

unfoldable pub str_less : String → String → Bool
str_less String.[] String.[] = false
str_less String.[] (String.◌∷◌ d t) = true
str_less (String.◌∷◌ c s) String.[] = false
str_less (String.◌∷◌ c s) (String.◌∷◌ d t) =
    let rest = str_less s t in
    if ltb (code c) (code d) then true else if ltb (code d) (code c) then false else rest

-- A text is not below one that is below it.
pub str_less_asymm : (s t : String) → str_less s t ≡ true → str_less t s ≡ false
unfolding str_less
str_less_asymm String.[] String.[] h = refl
str_less_asymm String.[] (String.◌∷◌ d t) h = refl
str_less_asymm (String.◌∷◌ c s) String.[] h = ground arith
str_less_asymm (String.◌∷◌ c s) (String.◌∷◌ d t) h = ground (arith, str_less_asymm s t)

-- The order is negatively transitive: not below, twice, is not below.
pub str_less_negative_trans :
    (s t u : String) → str_less t s ≡ false → str_less u t ≡ false → str_less u s ≡ false
unfolding str_less
str_less_negative_trans String.[] String.[] u h k = k
str_less_negative_trans String.[] (String.◌∷◌ d t) String.[] h k = ground arith
str_less_negative_trans String.[] (String.◌∷◌ d t) (String.◌∷◌ e u) h k = refl
str_less_negative_trans (String.◌∷◌ c s) String.[] u h k = ground arith
str_less_negative_trans (String.◌∷◌ c s) (String.◌∷◌ d t) String.[] h k = ground arith
str_less_negative_trans (String.◌∷◌ c s) (String.◌∷◌ d t) (String.◌∷◌ e u) h k =
    ground (arith, str_less_negative_trans s t u)
