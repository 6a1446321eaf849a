-- ===== src/Base/Strip.antt =====
-- Texts: `strip`, `lstrip` and `rstrip`, with the characters to take off given by a test.
use Prim.Native.Char.{Char, code}
use Prim.Native.String.{String}
use mathlib.Core.Bool.{Bool, true, false, ◌&&◌, ◌||◌}
use bdbackup.Base.Tests.{if◌then◌else◌, ◌==◌, leb}

abbrev pub is_empty : String → Bool
is_empty String.[] = true
is_empty (String.◌∷◌ c s) = false

-- What `str.isspace` takes for a space.
unfoldable pub is_space : Char → Bool
is_space c =
    let n = code c in
    (leb 9 n && leb n 13)
    || (leb 28 n && leb n 32)
    || (n == 133)
    || (n == 160)
    || (n == 5760)
    || (leb 8192 n && leb n 8202)
    || (n == 8232)
    || (n == 8233)
    || (n == 8239)
    || (n == 8287)
    || (n == 12288)

module _ (p : Char → Bool) where
  unfoldable pub lstrip : String → String
  lstrip String.[] = String.[]
  lstrip (String.◌∷◌ c s) = let rest = lstrip s in if p c then rest else String.◌∷◌ c s

  unfoldable pub rstrip : String → String
  rstrip String.[] = String.[]
  rstrip (String.◌∷◌ c s) =
      let rest = rstrip s in if is_empty rest && p c then String.[] else String.◌∷◌ c rest

  unfoldable pub strip : String → String
  unfolding lstrip rstrip
  strip s = rstrip (lstrip s)

  abbrev pub head_is : String → Bool
  head_is String.[] = false
  head_is (String.◌∷◌ c s) = p c

  abbrev pub last_is : String → Bool
  last_is String.[] = false
  last_is (String.◌∷◌ c String.[]) = p c
  last_is (String.◌∷◌ c (String.◌∷◌ d s)) = last_is (String.◌∷◌ d s)
