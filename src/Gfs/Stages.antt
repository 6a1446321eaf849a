-- ===== src/Gfs/Stages.antt =====
-- bdbackup/gfs/stages.py: keep ages, stages and the rules that a job's configuration meets.
use bdbackup.Base.{ℕ, ◌+◌, ◌-◌, ◌*◌, ◌/◌, ◌%◌, min, Option, none, some, List, ltb, if◌then◌else◌}
use bdbackup.Base.FilePath.{FilePath}
use bdbackup.Gfs.Calendar.{Date, date, month_days, minus_days}

-- The letter of a keep age.
pub data KeepUnit : Type 0 where
  days weeks months years : KeepUnit

pub record Keep : Type 0 where
  pub count : ℕ
  pub unit : KeepUnit

-- `date(year, month, min(today.day, monthrange))`, `n` months back; `none` for the `ValueError`
-- of a year before 1.
minus_months : ℕ → Date → Option Date
unfolding month_days
minus_months n today =
    let total = today.year * 12 + today.month - 1 in
    let y = (total - n) / 12 in
    let m = (total - n) % 12 + 1 in
    if ltb total (n + 12) then none else some (date y m (min today.day (month_days y m)))

-- `Keep.floor`, with `none` for the exception of a date that does not exist.
unfoldable pub floor : Keep → Date → Option Date
unfolding minus_months minus_days
floor k today = elim k.unit [
  | days ↦ minus_days k.count today
  | weeks ↦ minus_days (k.count * 7) today
  | months ↦ minus_months k.count today
  | years ↦ minus_months (k.count * 12) today
]

-- `_UNIT_DAYS`
abbrev shortest : KeepUnit → ℕ
shortest days = 1
shortest weeks = 7
shortest months = 28
shortest years = 365

abbrev longest : KeepUnit → ℕ
longest days = 1
longest weeks = 7
longest months = 31
longest years = 366

unfoldable pub min_days : Keep → ℕ
min_days k = k.count * shortest k.unit

unfoldable pub max_days : Keep → ℕ
max_days k = k.count * longest k.unit

-- `PERIODS`, in order.
pub data Period : Type 0 where
  daily weekly monthly yearly : Period

-- `PERIODS.index`
abbrev pub period_index : Period → ℕ
period_index daily = 0
period_index weekly = 1
period_index monthly = 2
period_index yearly = 3

pub record Stage : Type 0 where
  pub paths : List FilePath
  pub period : Period
  pub keep : Keep
