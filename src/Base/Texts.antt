-- ===== src/Base/Texts.antt =====
-- Texts: the order of Python's `str`, which goes by code points.
use Prim.Native.Nat.{ℕ, Ordering}
use Prim.Native.Char.{code}
use mathlib.Core.List.{List, [], ◌∷◌}
use Prim.Native.String.{String, compare}
use Prim.Native.String.compare
use native.Mathlib.Omega.{arith}
use mathlib.Core.Path.{◌≡◌, refl}
use mathlib.Core.Bool.{Bool, true, false}
use text.Mathlib.Text.{◌==◌}
use text.Mathlib.TextEquality.{eq_iff}

-- The code points of a text.
abbrev pub codes : String → List ℕ
codes String.[] = []
codes (String.◌∷◌ c s) = code c ∷ codes s

-- `s < t`
abbrev pub str_lt : String → String → Bool
str_lt s t = elim (compare s t) [ Ordering.lt ↦ true | _ ↦ false ]

pub str_eq_self : (s : String) → (s == s) ≡ true
str_eq_self s = (eq_iff s s).1 refl

pub str_lt_asymm : (s t : String) → str_lt s t ≡ true → str_lt t s ≡ false
str_lt_asymm String.[] String.[] h = ground (arith, compare.nil-nil)
str_lt_asymm String.[] (String.◌∷◌ d t) h = ground (arith, compare.cons-nil d t)
str_lt_asymm (String.◌∷◌ c s) String.[] h = ground (arith, compare.cons-nil c s)
str_lt_asymm (String.◌∷◌ c s) (String.◌∷◌ d t) h =
    ground (arith, compare.cons-cons c d s t, compare.cons-cons d c t s, str_lt_asymm s t)

-- `s ≤ t` and `t ≤ u` give `s ≤ u`, each written as the negation of the converse `<`.
pub str_le_trans : (s t u : String) → str_lt t s ≡ false → str_lt u t ≡ false → str_lt u s ≡ false
str_le_trans String.[] t String.[] h k = ground (arith, compare.nil-nil)
str_le_trans String.[] t (String.◌∷◌ e u) h k = ground (arith, compare.cons-nil e u)
str_le_trans (String.◌∷◌ c s) String.[] u h k = ground (arith, compare.nil-cons c s)
str_le_trans (String.◌∷◌ c s) (String.◌∷◌ d t) String.[] h k = ground (arith, compare.nil-cons d t)
str_le_trans (String.◌∷◌ c s) (String.◌∷◌ d t) (String.◌∷◌ e u) h k = ground (
  arith,
  compare.cons-cons d c t s,
  compare.cons-cons e d u t,
  compare.cons-cons e c u s,
  str_le_trans s t u,
)
