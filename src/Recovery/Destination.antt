-- ===== src/Recovery/Destination.antt =====
-- bdbackup/recovery.py, `suggested_destination`: a new directory named after the job and the record.
use bdbackup.Base.{
  ℕ, zero, suc, ◌+◌, ◌/◌, ◌%◌, ◌≡◌, refl, ◌<◌, Option, none, some, subst, Bool, true, false, ◌&&◌,
  ◌||◌, String, ◌<>◌, leb, ◌==◌, if◌then◌else◌, arith, Bool-cases, inl, inr,
}
use Prim.Native.Char.{Char, code}
use bdbackup.Base.FilePath.{FilePath, child_path}
use bdbackup.Base.Strip.{is_empty, strip}

-- `[a-zA-Z0-9_-]`
unfoldable pub is_plain : Char → Bool
is_plain c =
    let n = code c in
    (leb 97 n && leb n 122)
    || (leb 65 n && leb n 90)
    || (leb 48 n && leb n 57)
    || (n == 95)
    || (n == 45)

-- `re.sub(r"[^a-zA-Z0-9_-]+", "-", s)`; `inside` says that the run of other characters has begun.
unfoldable pub dashed : Bool → String → String
unfolding is_plain
dashed inside String.[] = String.[]
dashed inside (String.◌∷◌ c s) =
    let plain = String.◌∷◌ c (dashed false s) in
    let rest = dashed true s in
    if is_plain c then plain else if inside then rest else String.◌∷◌ "-" rest

unfoldable pub take_chars : ℕ → String → String
take_chars zero s = String.[]
take_chars (suc n) String.[] = String.[]
take_chars (suc n) (String.◌∷◌ c s) = String.◌∷◌ c (take_chars n s)

-- The name for a job.
unfoldable pub base_name : String → String
unfolding dashed strip take_chars
base_name job =
    let name = take_chars 80 (strip (λ c. code c == 45) (dashed false job)) in
    if is_empty name then "backup" else name

abbrev digit : ℕ → String
digit n =
    if n == 0
    then "0"
    else if n == 1
    then "1"
    else if n == 2
    then "2"
    else if n == 3
    then "3"
    else if n == 4
    then "4"
    else if n == 5
    then "5"
    else if n == 6
    then "6"
    else if n == 7
    then "7"
    else if n == 8
    then "8"
    else "9"

-- The decimal digits of a number below 10 ^ fuel, in front of a text.
unfoldable pub decimal : ℕ → ℕ → String → String
decimal zero n s = s
decimal (suc fuel) n s =
    let more = decimal fuel (n / 10) (digit (n % 10) <> s) in
    if n / 10 == 0 then digit n <> s else more

-- The names that the loop tries, the number's name behind a dash from the second on. SQLite's ids and
-- so the numbers have at most 19 digits.
unfoldable pub candidate : FilePath → String → ℕ → FilePath
unfolding decimal
candidate root name zero = child_path root name
candidate root name (suc n) = child_path root (name <> ("-" <> decimal 20 (suc n) ""))

module _ (taken : FilePath → Bool) (root : FilePath) (name : String) where
  -- The `while` loop, on fuel: every round tries the next name.
  unfoldable pub first_free : ℕ → ℕ → Option FilePath
  unfolding candidate
  first_free zero n = none
  first_free (suc fuel) n =
      let rest = first_free fuel (suc n) in
      if taken (candidate root name n) then rest else some (candidate root name n)

  -- What the loop returns is not taken, and a free name within reach of the fuel ends it.
  pub first_free-some :
      (fuel n m : ℕ)
      → taken (candidate root name (n + m)) ≡ false
      → m < fuel
      → (k : ℕ) × (first_free fuel n ≡ some (candidate root name k))
        × (taken (candidate root name k) ≡ false)
  unfolding first_free
  first_free-some zero n m h l = absurd (omega arith)
  first_free-some (suc fuel) n zero h l =
      let e : n + 0 ≡ n = omega arith in
      let f : taken (candidate root name n) ≡ false =
        subst (λ k. taken (candidate root name k) ≡ false) e h in
      (n, rw (first_free, f) refl, f)
  first_free-some (suc fuel) n (suc m) h l = elim (Bool-cases (taken (candidate root name n))) [
    | inr e ↦ (n, rw (first_free, e) refl, e)
    | inl e ↦
        let q : n + suc m ≡ suc n + m = omega arith in
        let (k, r, f) =
          first_free-some fuel (suc n) m (subst (λ k. taken (candidate root name k) ≡ false) q h)
            (omega arith) in
        (k, rw (first_free, e) r, f)
  ]

-- `suggested_destination`
unfoldable pub suggested_destination :
    (FilePath → Bool) → ℕ → FilePath → String → ℕ → Option FilePath
unfolding base_name first_free decimal
suggested_destination taken fuel root job id =
    first_free taken root (base_name job <> ("-" <> decimal 20 id "")) fuel 0

-- The destination that is suggested is not taken, if one of the first `fuel` names is free.
pub suggested_destination-some :
    (taken : FilePath → Bool) (fuel : ℕ) (root : FilePath) (job : String) (id m : ℕ)
    → taken (candidate root (base_name job <> ("-" <> decimal 20 id "")) m) ≡ false
    → m < fuel
    → (p : FilePath) × (suggested_destination taken fuel root job id ≡ some p) × (taken p ≡ false)
unfolding suggested_destination
suggested_destination-some taken fuel root job id m h l =
    let name = base_name job <> ("-" <> decimal 20 id "") in
    let e : m ≡ 0 + m = omega arith in
    let (k, q, f) =
      first_free-some taken root name fuel 0 m
        (subst (λ k. taken (candidate root name k) ≡ false) e h) l in
    (candidate root name k, q, f)
