-- ===== src/Ledger.antt =====
-- bdbackup/ledger.py: the unit that a backup belongs to.
use bdbackup.Base.{
  ℕ, ◌+◌, ◌≡◌, ◌⊎◌, ◌↔◌, any_of, eq_iff, str_eq_self, sym, ap, subst, inl, inr, Bool, true, false,
  not, ◌&&◌, Option, none, some, List, [], ◌∷◌, ◌++◌, String, str_eq, starts_with, if◌then◌else◌,
  arith, leb, ◌==◌, all_of, codes, Option-cases, Bool-cases,
}
use bdbackup.Base.FilePath.{FilePath, relative_to, relative_to-append, append-relative_to}

-- What a record's `restore_info` says that the ledger reads.
pub record RestoreInfo : Type 0 where
  pub kind : Option String
  pub backup_root : FilePath

abbrev is_physical : Option String → Bool
is_physical none = false
is_physical (some k) = str_eq k "xtrabackup"

-- `full or incremental`, for the parts behind the date directory.
abbrev is_member : List String → Bool
is_member (f ∷ []) = starts_with f "Full_"
is_member (i ∷ f ∷ n ∷ []) = str_eq i "Incremental" && starts_with f "Full_"
is_member _ = false

-- The zeros of the decimal digits, Unicode category Nd, in which every script has ten in a row (Unicode
-- 14, that of Python 3.11).
abbrev zeros : List ℕ
zeros =
    48 ∷ 1632 ∷ 1776 ∷ 1984 ∷ 2406 ∷ 2534 ∷ 2662 ∷ 2790 ∷ 2918 ∷ 3046 ∷ 3174 ∷ 3302 ∷ 3430 ∷ 3558
    ∷ 3664 ∷ 3792 ∷ 3872 ∷ 4160 ∷ 4240 ∷ 6112 ∷ 6160 ∷ 6470 ∷ 6608 ∷ 6784 ∷ 6800 ∷ 6992 ∷ 7088
    ∷ 7232 ∷ 7248 ∷ 42528 ∷ 43216 ∷ 43264 ∷ 43472 ∷ 43504 ∷ 43600 ∷ 44016 ∷ 65296 ∷ 66720 ∷ 68912
    ∷ 69734 ∷ 69872 ∷ 69942 ∷ 70096 ∷ 70384 ∷ 70736 ∷ 70864 ∷ 71248 ∷ 71360 ∷ 71472 ∷ 71904 ∷ 72016
    ∷ 72784 ∷ 73040 ∷ 73120 ∷ 92768 ∷ 92864 ∷ 93008 ∷ 120782 ∷ 120792 ∷ 120802 ∷ 120812 ∷ 120822
    ∷ 123200 ∷ 123632 ∷ 125264 ∷ 130032 ∷ []

-- `\d`
abbrev is_digit : ℕ → Bool
is_digit c = any_of (λ z. leb z c && leb c (z + 9)) zeros

-- `_DATE_DIR.fullmatch`
abbrev is_date_shape : List ℕ → Bool
is_date_shape (a ∷ b ∷ c ∷ d ∷ x ∷ e ∷ f ∷ y ∷ g ∷ h ∷ []) =
    all_of is_digit (a ∷ b ∷ c ∷ d ∷ e ∷ f ∷ g ∷ h ∷ []) && (x == 45) && (y == 45)
is_date_shape _ = false

abbrev pub is_date : String → Bool
is_date s = is_date_shape (codes s)

abbrev pub unit_of_parts : FilePath → List String → Option FilePath
unit_of_parts root [] = none
unit_of_parts root (d ∷ rest) =
    if is_date d && is_member rest then some (root ++ (d ∷ [])) else none

-- `unit_path`, with `none` for a `LedgerError`.
unfoldable pub unit_path : FilePath → RestoreInfo → Option FilePath
unfolding relative_to
unit_path path info =
    if not (is_physical info.kind) then some path else elim (relative_to path info.backup_root) [
      | none ↦ none
      | some parts ↦ unit_of_parts info.backup_root parts
    ]

-- The parts of a full or an incremental behind its date directory.
pub data IsMember : List String → Type 0 where
  full : (f : String) → starts_with f "Full_" ≡ true → IsMember (f ∷ [])
  incremental :
      (f n : String) → starts_with f "Full_" ≡ true → IsMember ("Incremental" ∷ f ∷ n ∷ [])

-- What the unit of a backup is: the backup itself if it is not physical; and for a physical backup the
-- date directory right below its root, with a full in it, or an incremental in the full's directory.
abbrev pub IsUnit : FilePath → RestoreInfo → FilePath → Type 0
IsUnit path info unit =
    ((is_physical info.kind ≡ false) × (unit ≡ path))
    ⊎ ((is_physical info.kind ≡ true)
        × ((day : String) × (rest : List String) × (is_date day ≡ true)
            × IsMember rest
            × (unit ≡ info.backup_root ++ (day ∷ []))
            × (path ≡ info.backup_root ++ (day ∷ rest))))

is_member-IsMember : (rest : List String) → is_member rest ≡ true → IsMember rest
is_member-IsMember [] h = absurd (ground arith)
is_member-IsMember (f ∷ []) h = full f h
is_member-IsMember (i ∷ f ∷ []) h = absurd (ground arith)
is_member-IsMember (i ∷ f ∷ n ∷ []) h =
    subst (λ j. IsMember (j ∷ f ∷ n ∷ [])) (sym ((eq_iff i "Incremental").0 (ground arith)))
      (incremental f n (ground arith))
is_member-IsMember (i ∷ f ∷ n ∷ x ∷ rest) h = absurd (ground arith)

IsMember-is_member : (rest : List String) → IsMember rest → is_member rest ≡ true
IsMember-is_member _ (full f h) = h
IsMember-is_member _ (incremental f n h) = ground (arith, str_eq_self "Incremental")

module _ (path unit : FilePath) (info : RestoreInfo) where
  unit_of_parts-IsUnit :
      (parts : List String)
      → is_physical info.kind ≡ true
      → path ≡ info.backup_root ++ parts
      → unit_of_parts info.backup_root parts ≡ some unit
      → IsUnit path info unit
  unit_of_parts-IsUnit [] y e h = absurd (ground arith)
  unit_of_parts-IsUnit (d ∷ rest) y e h =
      let date : is_date d ≡ true = ground arith in
      let member : is_member rest ≡ true = ground arith in
      let q : info.backup_root ++ (d ∷ []) ≡ unit = ground arith in
      inr (y, (d, rest, date, is_member-IsMember rest member, sym q, e))

  unit_path-found : unit_path path info ≡ some unit → IsUnit path info unit
  unfolding unit_path
  unit_path-found h = elim (Bool-cases (is_physical info.kind)) [
    | inr n ↦ let e : path ≡ unit = ground arith in inl (n, sym e)
    | inl y ↦ elim (Option-cases (relative_to path info.backup_root)) [
      | inl e ↦ absurd (ground arith)
      | inr (parts, e) ↦
          unit_of_parts-IsUnit parts y (relative_to-append path info.backup_root parts e)
            (ground arith)
    ]
  ]

  IsUnit-unit_path : IsUnit path info unit → unit_path path info ≡ some unit
  unfolding unit_path
  IsUnit-unit_path (inl (n, e)) = rw n (ap some (sym e))
  IsUnit-unit_path (inr (y, (d, rest, date, member, e, p))) =
      let r : relative_to path info.backup_root ≡ some (d ∷ rest) =
        subst (λ x. relative_to x info.backup_root ≡ some (d ∷ rest)) (sym p)
          (append-relative_to info.backup_root (d ∷ rest)) in
      let m = IsMember-is_member rest member in
      let found : unit_of_parts info.backup_root (d ∷ rest) ≡ some unit =
        rw (date, m) (ap some (sym e)) in
      rw (y, r) found

  -- `unit_path` finds a unit exactly where the layout says so: a backup that is not physical is its own
  -- unit; a physical one belongs to the date directory right below its root, and lies there as a full or
  -- as an incremental of one. Any other layout is an error.
  pub unit_path-IsUnit : (unit_path path info ≡ some unit) ↔ IsUnit path info unit
  unit_path-IsUnit = (unit_path-found, IsUnit-unit_path)
