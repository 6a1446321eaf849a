-- ===== src/Base/FilePath.antt =====
-- Absolute, resolved POSIX paths as `pathlib` compares them: by their parts.
use bdbackup.Base.Tests.{if◌then◌else◌}
use mathlib.Core.Path.{◌≡◌, refl}
use mathlib.Core.Bool.{Bool, true, false, ◌&&◌, ◌||◌}
use mathlib.Core.List.{List, [], ◌∷◌, ◌++◌}
use mathlib.Core.Option.{Option, none, some}
use native.Mathlib.Omega.{arith}
use Prim.Native.String.{String, ◌++◌ as ◌<>◌}
use text.Mathlib.Text.{◌==◌}
use text.Mathlib.TextEquality.{eq_iff}

abbrev pub FilePath : Type 0
FilePath = List String

-- `path.parent`
unfoldable pub parent : FilePath → FilePath
parent [] = []
parent (x ∷ []) = []
parent (x ∷ y ∷ p) = x ∷ parent (y ∷ p)

-- `path / name`
abbrev pub child_path : FilePath → String → FilePath
child_path path name = path ++ (name ∷ [])

-- The separator in front of each part.
abbrev slashed : FilePath → String
slashed [] = ""
slashed (p ∷ ps) = "/" <> (p <> slashed ps)

-- `str(path)`
unfoldable pub path_text : FilePath → String
path_text [] = "/"
path_text (p ∷ ps) = slashed (p ∷ ps)

-- `path.name`
unfoldable pub path_name : FilePath → String
path_name [] = ""
path_name (p ∷ []) = p
path_name (p ∷ q ∷ ps) = path_name (q ∷ ps)

-- `os.path.normpath` of an absolute path, onto what stands before it.
unfoldable pub normalise_onto : FilePath → List String → FilePath
unfolding parent
normalise_onto done [] = done
normalise_onto done (p ∷ ps) =
    if (p == "") || (p == ".")
    then normalise_onto done ps
    else if p == ".."
    then normalise_onto (parent done) ps
    else normalise_onto (done ++ (p ∷ [])) ps

-- `a == b`
unfoldable pub path_eq : FilePath → FilePath → Bool
path_eq [] [] = true
path_eq [] (y ∷ ys) = false
path_eq (x ∷ xs) [] = false
path_eq (x ∷ xs) (y ∷ ys) = (x == y) && path_eq xs ys

-- `path.relative_to(base)`, with `none` for its `ValueError`.
unfoldable pub relative_to : FilePath → FilePath → Option FilePath
relative_to path [] = some path
relative_to [] (b ∷ base) = none
relative_to (p ∷ path) (b ∷ base) = if p == b then relative_to path base else none

-- `path.is_relative_to(base)`
unfoldable pub is_relative_to : FilePath → FilePath → Bool
unfolding relative_to
is_relative_to path base = elim (relative_to path base) [ none ↦ false | some _ ↦ true ]

pub path_eq_sound : (a b : FilePath) → path_eq a b ≡ true → a ≡ b
unfolding path_eq
path_eq_sound [] [] h = refl
path_eq_sound [] (y ∷ ys) h = cc
path_eq_sound (x ∷ xs) [] h = cc
path_eq_sound (x ∷ xs) (y ∷ ys) h = ground (arith, eq_iff x y, path_eq_sound xs ys)

pub path_eq_self : (a : FilePath) → path_eq a a ≡ true
unfolding path_eq
path_eq_self [] = refl
path_eq_self (x ∷ xs) = ground (arith, eq_iff x x, path_eq_self xs)

-- What `relative_to` returns is the rest of the path behind the base.
pub relative_to-append :
    (path base rest : FilePath) → relative_to path base ≡ some rest → path ≡ base ++ rest
unfolding relative_to
relative_to-append path [] rest h = ground arith
relative_to-append [] (b ∷ base) rest h = cc
relative_to-append (p ∷ path) (b ∷ base) rest h =
    ground (arith, eq_iff p b, relative_to-append path base rest)

pub append-relative_to : (base rest : FilePath) → relative_to (base ++ rest) base ≡ some rest
unfolding relative_to
append-relative_to [] rest = refl
append-relative_to (b ∷ base) rest = ground (arith, eq_iff b b, append-relative_to base rest)
