-- ===== src/Base/Text.antt =====
-- Texts as native strings: the order of Go strings, and membership in a list of texts. (Go orders
-- strings by their bytes; UTF-8 keeps the order of the code points, which `compare` follows.)
use Prim.Native.Nat.{Ordering, compare as compare_ℕ}
use Prim.Native.String.{String, compare}
use Prim.Native.String.compare
use mathlib.Core.Path.{◌≡◌}
use mathlib.Core.Bool.{Bool, true, false, ◌&&◌, ◌||◌}
use mathlib.Core.Option.{Option, none, some}
use Prim.Native.Char.{code}
use diffah.Base.Tests.{leb, if◌then◌else◌}
use mathlib.Core.List.{List, [], ◌∷◌}
use mathlib.Core.Logic.{◌↔◌}
use native.Mathlib.Omega.{arith}
use diffah.Base.Lists.{In}
use text.Mathlib.TextPositions.{eq_refl as text_eq_refl}
pub use text.Mathlib.Text.{◌==◌}
pub use text.Mathlib.TextEquality.{eq_iff}

abbrev pub text_ltb : String → String → Bool
text_ltb s t = elim (compare s t) [ Ordering.lt ↦ true | _ ↦ false ]

-- The text occurs in the list.
abbrev pub contains : String → List String → Bool
contains s [] = false
contains s (t ∷ ts) = (s == t) || contains s ts

pub eq_refl : (s : String) → (s == s) ≡ true
eq_refl = text_eq_refl

flip_ℕ : (m n : _) → compare_ℕ m n ≡ Ordering.lt → compare_ℕ n m ≡ Ordering.gt
flip_ℕ m n h = ground arith

compare_flip : (s t : String) → compare s t ≡ Ordering.lt → compare t s ≡ Ordering.gt
compare_flip String.[] String.[] h = ground (arith, compare.nil-nil)
compare_flip String.[] (String.◌∷◌ d t) h = compare.cons-nil d t
compare_flip (String.◌∷◌ c s) String.[] h = ground (arith, compare.cons-nil c s)
compare_flip (String.◌∷◌ c s) (String.◌∷◌ d t) h =
    ground (arith, compare.cons-cons c d s t, compare.cons-cons d c t s, compare_flip s t)

-- What a decreasing step is: `t` does not come before `s`.
compare_negtrans :
    (s t u : String) → text_ltb t s ≡ false → text_ltb u t ≡ false → text_ltb u s ≡ false
compare_negtrans String.[] String.[] u h k = k
compare_negtrans String.[] (String.◌∷◌ d t) String.[] h k = ground (arith, compare.nil-cons d t)
compare_negtrans String.[] (String.◌∷◌ d t) (String.◌∷◌ e u) h k =
    ground (arith, compare.cons-nil e u)
compare_negtrans (String.◌∷◌ c s) String.[] u h k = ground (arith, compare.nil-cons c s)
compare_negtrans (String.◌∷◌ c s) (String.◌∷◌ d t) String.[] h k =
    ground (arith, compare.nil-cons d t)
compare_negtrans (String.◌∷◌ c s) (String.◌∷◌ d t) (String.◌∷◌ e u) h k = ground (
  arith,
  compare.cons-cons d c t s,
  compare.cons-cons e d u t,
  compare.cons-cons e c u s,
  compare_negtrans s t u,
)

pub text_ltb_asym : (s t : String) → text_ltb s t ≡ true → text_ltb t s ≡ false
text_ltb_asym s t h = ground (arith, compare_flip s t)

pub text_ltb_negtrans :
    (s t u : String) → text_ltb t s ≡ false → text_ltb u t ≡ false → text_ltb u s ≡ false
text_ltb_negtrans = compare_negtrans

pub contains_iff : (s : String) (ts : List String) → (contains s ts ≡ true) ↔ In s ts
contains_iff s [] = ground arith
contains_iff s (t ∷ ts) = ground (arith, eq_iff s t, contains_iff s ts)

-- strings.Cut at the first ':'.
unfoldable pub cut_colon : String → Option (String × String)
cut_colon String.[] = none
cut_colon (String.◌∷◌ c s) =
    let rest = cut_colon s in
    if leb (code c) b':' && leb b':' (code c)
    then some ("", s)
    else elim rest [ none ↦ none | some (before, after) ↦ some (String.◌∷◌ c before, after) ]
