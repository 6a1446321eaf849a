-- ===== src/Gfs/Policy/Eligible.antt =====
-- What `_eligibility` computes: the newest unit of each complete bucket, nested by period.
use bdbackup.Base.{
  ◌≡◌, sym, ◌∙◌, ap, subst, ◌≢◌, inl, inr, ◌⊎◌, Bool, true, false, none, List, [], ◌∷◌, str_eq,
  eq_iff, arith, In, ◌==◌, Bool-cases,
}
use bdbackup.Gfs.Calendar.{Date}
use bdbackup.Gfs.Stages.{Period, daily, weekly, monthly, yearly}
use bdbackup.Gfs.Policy.{
  BackupUnit, key_lt, group_by, newest, newest_each, same_pair, week_of, month_of, year_of,
  week_done, month_done, year_done, weekly_units, monthly_units, yearly_units, eligible_units,
  has_id, incomplete,
}
use bdbackup.Gfs.Policy.Newest.{newest-max, newest-In}
use bdbackup.Gfs.Policy.Groups.{
  members, newest_each-from, newest_each-takes, group_by-Grouped, group_by-In,
}
use bdbackup.Gfs.Policy.Buckets.{IsEquality, group_by-key, group_by-holds}

pair_law : IsEquality same_pair
pair_law = record { self = λ k. ground arith; sound = λ j k h. ground arith }

nat_law : IsEquality ◌==◌
nat_law = record { self = λ k. ground arith; sound = λ j k h. ground arith }

module _ {K : Type 0} (same : K → K → Bool) (law : IsEquality same) (key : BackupUnit → K)
    (done : K → BackupUnit → Bool) where
  -- A unit that is taken is the newest of its bucket, and the bucket is done.
  taken_newest :
      (us : List BackupUnit) (v : BackupUnit)
      → In v (newest_each done (group_by same key us))
      → In v us
        × (done (key v) v ≡ true)
        × ((w : BackupUnit) → In w us → key w ≡ key v → key_lt v w ≡ false)
  taken_newest us v m =
      let (g, i, e, d) = newest_each-from done (group_by same key us) v m in
      let inside : In v (members g) = subst (λ w. In w (members g)) e (newest-In g.1 g.2) in
      let named : g.0 ≡ key v = group_by-key same law key us g v i inside in
      (
        group_by-In same key us v (g, i, inside),
        subst (λ k. done k v ≡ true) named d,
        λ w n q.
            subst (λ x. key_lt x w ≡ false) e
              (newest-max g.1 g.2 w (group_by-holds same law key us g w i n (named ∙ sym q))),
      )

  -- Every unit has a newest unit of its bucket, which is taken if the bucket is done.
  winner :
      (us : List BackupUnit) (u : BackupUnit)
      → In u us
      → (v : BackupUnit) × In v us
        × (key v ≡ key u)
        × (key_lt v u ≡ false)
        × (done (key u) v ≡ true → In v (newest_each done (group_by same key us)))
  winner us u m =
      let (g, i, n) = group_by-Grouped same key us u m in
      let named : g.0 ≡ key u = group_by-key same law key us g u i n in
      (
        newest g.1 g.2,
        group_by-In same key us (newest g.1 g.2) (g, i, newest-In g.1 g.2),
        sym (group_by-key same law key us g (newest g.1 g.2) i (newest-In g.1 g.2)) ∙ named,
        newest-max g.1 g.2 u n,
        λ d.
            newest_each-takes done (group_by same key us) g i
              (subst (λ k. done k (newest g.1 g.2) ≡ true) (sym named) d),
      )

-- Each weekly unit is one of the units, its ISO week is over, and none of the units of that
-- ISO week is newer.
weekly_units-newest :
    (today : Date) (us : List BackupUnit) (v : BackupUnit)
    → In v (weekly_units today us)
    → In v us
      × (week_done today v.day ≡ true)
      × ((w : BackupUnit) → In w us → week_of w ≡ week_of v → key_lt v w ≡ false)
unfolding weekly_units
weekly_units-newest today us v m =
    taken_newest same_pair pair_law week_of (λ _ u. week_done today u.day) us v m

-- Each monthly unit is one of the weekly units, its month is over, and none of the weekly units of that
-- month is newer.
monthly_units-newest :
    (today : Date) (us : List BackupUnit) (v : BackupUnit)
    → In v (monthly_units today us)
    → In v (weekly_units today us)
      × (month_done today v.day.year v.day.month ≡ true)
      × ((w : BackupUnit)
          → In w (weekly_units today us)
          → month_of w ≡ month_of v
          → key_lt v w ≡ false)
unfolding monthly_units
monthly_units-newest today us v m =
    taken_newest same_pair pair_law month_of (λ k _. month_done today k.0 k.1)
      (weekly_units today us) v m

-- Each yearly unit is one of the monthly units, its year is over, and none of the monthly units of that
-- year is newer.
yearly_units-newest :
    (today : Date) (us : List BackupUnit) (v : BackupUnit)
    → In v (yearly_units today us)
    → In v (monthly_units today us)
      × (year_done today v.day.year ≡ true)
      × ((w : BackupUnit)
          → In w (monthly_units today us)
          → year_of w ≡ year_of v
          → key_lt v w ≡ false)
unfolding yearly_units
yearly_units-newest today us v m =
    taken_newest ◌==◌ nat_law year_of (λ k _. year_done today k) (monthly_units today us) v m

-- What makes a unit eligible for a period: it is one of the units that the shorter period takes, its
-- bucket is over, and none of them in its bucket is newer.
abbrev pub IsNewest : Date → List BackupUnit → Period → BackupUnit → Type 0
IsNewest today us daily v = In v us
IsNewest today us weekly v =
    In v us
    × (week_done today v.day ≡ true)
    × ((w : BackupUnit) → In w us → week_of w ≡ week_of v → key_lt v w ≡ false)
IsNewest today us monthly v =
    In v (weekly_units today us)
    × (month_done today v.day.year v.day.month ≡ true)
    × ((w : BackupUnit)
        → In w (weekly_units today us)
        → month_of w ≡ month_of v
        → key_lt v w ≡ false)
IsNewest today us yearly v =
    In v (monthly_units today us)
    × (year_done today v.day.year ≡ true)
    × ((w : BackupUnit)
        → In w (monthly_units today us)
        → year_of w ≡ year_of v
        → key_lt v w ≡ false)

-- Every unit that is eligible for a period is one of the units, and for a week, a month or a year it
-- is one that the shorter period takes, its bucket is over, and none of those in its bucket is newer.
pub eligible_units-IsNewest :
    (today : Date) (us : List BackupUnit) (p : Period) (v : BackupUnit)
    → In v (eligible_units today us p)
    → IsNewest today us p v
unfolding eligible_units
eligible_units-IsNewest today us daily v m = m
eligible_units-IsNewest today us weekly v m = weekly_units-newest today us v m
eligible_units-IsNewest today us monthly v m = monthly_units-newest today us v m
eligible_units-IsNewest today us yearly v m = yearly_units-newest today us v m

-- Units with the same id are the same unit.
abbrev pub DistinctIds : List BackupUnit → Type 0
DistinctIds us = (u v : BackupUnit) → In u us → In v us → u.id ≡ v.id → u ≡ v

pub In-has_id : (u : BackupUnit) (us : List BackupUnit) → In u us → has_id u.id us ≡ true
In-has_id u [] m = elim m [ ]
In-has_id u (v ∷ us) (inl e) = rw (← e) (ground (arith, eq_iff v.id v.id))
In-has_id u (v ∷ us) (inr m) = rw (In-has_id u us m) (ground arith)

pub distinct_cons :
    (u : BackupUnit) (us : List BackupUnit)
    → has_id u.id us ≡ false
    → DistinctIds us
    → DistinctIds (u ∷ us)
distinct_cons u us h k a b (inl p) (inl q) e = sym p ∙ q
distinct_cons u us h k a b (inr m) (inr n) e = k a b m n e
distinct_cons u us h k a b (inl p) (inr n) e =
    let t : has_id u.id us ≡ true =
      subst (λ i. has_id i us ≡ true) (sym (ap (λ (x : BackupUnit). x.id) p ∙ e))
        (In-has_id b us n) in
    absurd (cc (h, t))
distinct_cons u us h k a b (inr m) (inl q) e =
    let t : has_id u.id us ≡ true =
      subst (λ i. has_id i us ≡ true) (e ∙ sym (ap (λ (x : BackupUnit). x.id) q))
        (In-has_id a us m) in
    absurd (cc (h, t))

-- What a unit can stand for another one by, in a stage of this period. The months take their units
-- from the weeks and the years from the months, so a shorter bucket counts for a longer period too.
abbrev pub SameBucket : Period → BackupUnit → BackupUnit → Type 0
SameBucket daily u v = ⊥
SameBucket weekly u v = week_of v ≡ week_of u
SameBucket monthly u v = (week_of v ≡ week_of u) ⊎ (month_of v ≡ month_of u)
SameBucket yearly u v =
    (week_of v ≡ week_of u) ⊎ ((month_of v ≡ month_of u) ⊎ (year_of v ≡ year_of u))

-- `v` is another unit than `u`, is not older, and lies in the same bucket.
abbrev pub Covers : List BackupUnit → Period → BackupUnit → BackupUnit → Type 0
Covers us p u v = In v us × (v.id ≢ u.id) × (key_lt v u ≡ false) × SameBucket p u v

-- A unit of a finished period is eligible for it, or another unit covers it.
abbrev Kept : List BackupUnit → Period → BackupUnit → List BackupUnit → Type 0
Kept us p u taken = In u taken ⊎ ((v : BackupUnit) × Covers us p u v)

same_id : (v u : BackupUnit) → (v.id ≡ u.id) ⊎ (v.id ≢ u.id)
same_id v u = elim (Bool-cases (str_eq v.id u.id)) [
  | inl e ↦ inl ((eq_iff v.id u.id).0 e)
  | inr e ↦ inr (λ p. cc (e, (eq_iff v.id u.id).1 p))
]

module _ (today : Date) (us : List BackupUnit) (d : DistinctIds us) where
  weekly_units-Kept :
      (u : BackupUnit)
      → In u us
      → week_done today u.day ≡ true
      → Kept us weekly u (weekly_units today us)
  unfolding weekly_units
  weekly_units-Kept u m h =
      let (v, i, k, g, t) =
        winner same_pair pair_law week_of (λ _ w. week_done today w.day) us u m in
      elim (same_id v u) [
        | inl e ↦
            let q : v ≡ u = d v u i m e in
            inl (
              subst (λ w. In w (weekly_units today us)) q
                (t (subst (λ w. week_done today w.day ≡ true) (sym q) h)))
        | inr e ↦ inr (v, (i, e, g, k))
      ]

  monthly_units-Kept :
      (u : BackupUnit)
      → In u us
      → week_done today u.day ≡ true
      → month_done today u.day.year u.day.month ≡ true
      → Kept us monthly u (monthly_units today us)
  unfolding monthly_units
  monthly_units-Kept u m h k = elim (weekly_units-Kept u m h) [
    | inr c ↦ inr (c.0, (c.1.0, c.1.1, c.1.2, inl c.1.3))
    | inl w ↦
        let (v, i, s, g, t) =
          winner same_pair pair_law month_of (λ p _. month_done today p.0 p.1)
            (weekly_units today us) u w in
        let j : In v us = (weekly_units-newest today us v i).0 in
        elim (same_id v u) [
          | inl e ↦ inl (subst (λ x. In x (monthly_units today us)) (d v u j m e) (t k))
          | inr e ↦ inr (v, (j, e, g, inr s))
        ]
  ]

  yearly_units-Kept :
      (u : BackupUnit)
      → In u us
      → week_done today u.day ≡ true
      → month_done today u.day.year u.day.month ≡ true
      → year_done today u.day.year ≡ true
      → Kept us yearly u (yearly_units today us)
  unfolding yearly_units
  yearly_units-Kept u m h k y = elim (monthly_units-Kept u m h k) [
    | inr c ↦ inr (c.0, (c.1.0, c.1.1, c.1.2, elim c.1.3 [ inl a ↦ inl a | inr b ↦ inr (inl b) ]))
    | inl w ↦
        let (v, i, s, g, t) =
          winner ◌==◌ nat_law year_of (λ p _. year_done today p) (monthly_units today us) u w in
        let j : In v us =
          (weekly_units-newest today us v (monthly_units-newest today us v i).0).0 in
        elim (same_id v u) [
          | inl e ↦ inl (subst (λ x. In x (yearly_units today us)) (d v u j m e) (t y))
          | inr e ↦ inr (v, (j, e, g, inr (inr s)))
        ]
  ]

  eligible_units-Kept :
      (u : BackupUnit) (p : Period)
      → In u us
      → incomplete today u.day p ≡ none
      → Kept us p u (eligible_units today us p)
  unfolding eligible_units incomplete
  eligible_units-Kept u daily m h = inl m
  eligible_units-Kept u weekly m h = weekly_units-Kept u m (ground arith)
  eligible_units-Kept u monthly m h = monthly_units-Kept u m (ground arith) (ground arith)
  eligible_units-Kept u yearly m h =
      yearly_units-Kept u m (ground arith) (ground arith) (ground arith)

  -- If the period's buckets of a unit are complete and the unit is not eligible, then another
  -- unit covers it.
  pub eligible_units-covered :
      (u : BackupUnit) (p : Period)
      → In u us
      → incomplete today u.day p ≡ none
      → has_id u.id (eligible_units today us p) ≡ false
      → (v : BackupUnit) × Covers us p u v
  eligible_units-covered u p m h n = elim (eligible_units-Kept u p m h) [
    | inl i ↦ absurd (cc (n, In-has_id u (eligible_units today us p) i))
    | inr c ↦ c
  ]
