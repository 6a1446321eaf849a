-- ===== src/Gfs/Calendar.antt =====
-- The parts of Python's `datetime` and `calendar` that the rotation uses: dates of the proleptic
-- Gregorian calendar, their ordinals, weekdays and ISO weeks. A date's fields are in range, so the
-- comparison of dates is that of their fields.
use bdbackup.Base.{
  ℕ, zero, suc, ◌+◌, ◌-◌, ◌*◌, ◌/◌, ◌%◌, Bool, not, ◌&&◌, ◌||◌, Option, none, some, ltb, leb, ◌==◌,
  if◌then◌else◌,
}

pub record Date : Type 0 where
  pub year : ℕ
  pub month : ℕ
  pub day : ℕ

unfoldable pub is_leap : ℕ → Bool
is_leap y = (y % 4 == 0) && (not (y % 100 == 0) || (y % 400 == 0))

-- `date(year, month, day)`
abbrev pub date : ℕ → ℕ → ℕ → Date
date year month day = record { year = year; month = month; day = day }

-- `calendar.monthrange(y, m)[1]`: the odd months up to July have 31 days, and the even ones from
-- August on.
unfoldable pub month_days : ℕ → ℕ → ℕ
unfolding is_leap
month_days y m = if m == 2 then (if is_leap y then 29 else 28) else 30 + (m + m / 8) % 2

days_before_year : ℕ → ℕ
days_before_year y = let p = y - 1 in p * 365 + p / 4 - p / 100 + p / 400

-- The days of the year before the month.
days_before_month : ℕ → ℕ → ℕ
days_before_month y zero = 0
days_before_month y (suc before_it) =
    let earlier = days_before_month y before_it in
    if before_it == 0 then 0 else earlier + month_days y before_it

-- `day.toordinal()`: 0001-01-01 is day 1.
unfoldable pub to_ordinal : Date → ℕ
unfolding days_before_year days_before_month month_days
to_ordinal t = days_before_year t.year + days_before_month t.year t.month + t.day

-- `day.weekday()`: Monday is 0.
unfoldable pub weekday : Date → ℕ
unfolding to_ordinal
weekday t = (to_ordinal t + 6) % 7

-- `a < b`
unfoldable pub before : Date → Date → Bool
before a b =
    ltb a.year b.year
    || ((a.year == b.year) && (ltb a.month b.month || ((a.month == b.month) && ltb a.day b.day)))

unfoldable pub same_day : Date → Date → Bool
same_day a b = (a.year == b.year) && (a.month == b.month) && (a.day == b.day)

-- The ordinal of the Monday that begins the ISO year.
iso_start : ℕ → ℕ
unfolding to_ordinal
iso_start y =
    let first = to_ordinal (date y 1 1) in
    let wd = (first + 6) % 7 in if ltb 3 wd then first - wd + 7 else first - wd

-- `day.isocalendar()[:2]`
unfoldable pub iso_week : Date → ℕ × ℕ
unfolding iso_start
iso_week t =
    let today = to_ordinal t in
    let start = iso_start t.year in
    if ltb today start
    then (t.year - 1, (today - iso_start (t.year - 1)) / 7 + 1)
    else if leb (iso_start (t.year + 1)) today
    then (t.year + 1, 1)
    else (t.year, (today - start) / 7 + 1)

-- The day before, if there is one.
previous : Date → Option Date
unfolding month_days
previous t =
    if ltb 1 t.day
    then some (record t { day = t.day - 1 })
    else if ltb 1 t.month
    then some (date t.year (t.month - 1) (month_days t.year (t.month - 1)))
    else if ltb 1 t.year
    then some (date (t.year - 1) 12 31)
    else none

-- `t - timedelta(days=n)`, with `none` for its `OverflowError` before 0001-01-01.
unfoldable pub minus_days : ℕ → Date → Option Date
unfolding previous
minus_days zero t = some t
minus_days (suc n) t = elim (previous t) [ none ↦ none | some s ↦ minus_days n s ]
