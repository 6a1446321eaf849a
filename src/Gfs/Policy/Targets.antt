-- ===== src/Gfs/Policy/Targets.antt =====
-- The target of a unit: the first stage whose keep age it is still within.
use bdbackup.Base.{
  ℕ, suc, ◌+◌, ◌≡◌, ap, subst, inl, inr, true, false, Option, none, some, List, [], ◌∷◌, ◌++◌,
  arith, All, length, Bool-cases, Option-cases,
}
use bdbackup.Gfs.Calendar.{Date, before}
use bdbackup.Gfs.Stages.{Stage, floor}
use bdbackup.Gfs.Policy.{floors, first_within}

-- A stage that no longer keeps a unit of this day, and one that still does.
abbrev pub IsPast : Date → Date → Stage → Type 0
IsPast today day s = (f : Date) × (floor s.keep today ≡ some f) × (before f day ≡ false)

abbrev pub IsWithin : Date → Date → Stage → Type 0
IsWithin today day s = (f : Date) × (floor s.keep today ≡ some f) × (before f day ≡ true)

-- `s` is the first stage that still keeps a unit of this day, and `t` is its index.
abbrev pub IsTarget : Date → Date → List Stage → ℕ → Stage → Type 0
IsTarget today day stages t s =
    (earlier : List Stage) × (later : List Stage) × (stages ≡ earlier ++ (s ∷ later))
    × (t ≡ length earlier)
    × All (IsPast today day) earlier
    × IsWithin today day s

floors-cons :
    (today : Date) (s : Stage) (ss : List Stage) (fs : List Date)
    → floors today (s ∷ ss) ≡ some fs
    → (f : Date) × (r : List Date) × (floor s.keep today ≡ some f)
      × (floors today ss ≡ some r)
      × (fs ≡ f ∷ r)
unfolding floors
floors-cons today s ss fs h = elim (Option-cases (floor s.keep today)) [
  | inl e ↦ absurd (ground arith)
  | inr (f, e) ↦ elim (Option-cases (floors today ss)) [
    | inl q ↦ absurd (ground arith)
    | inr (r, q) ↦ (f, r, e, q, ground arith)
  ]
]

pub first_within-none :
    (today day : Date) (ss : List Stage) (fs : List Date) (i : ℕ)
    → floors today ss ≡ some fs
    → first_within i day fs ss ≡ none
    → All (IsPast today day) ss
unfolding first_within
first_within-none today day [] fs i e h = tt
first_within-none today day (s ∷ ss) fs i e h =
    let (f, r, p, q, c) = floors-cons today s ss fs e in
    let h' : first_within i day (f ∷ r) (s ∷ ss) ≡ none =
      subst (λ l. first_within i day l (s ∷ ss) ≡ none) c h in
    elim (Bool-cases (before f day)) [
      | inl b ↦ absurd (ground arith)
      | inr b ↦ ((f, p, b), first_within-none today day ss r (suc i) q (ground arith))
    ]

first_within-some :
    (today day : Date) (ss : List Stage) (fs : List Date) (i t : ℕ) (s : Stage)
    → floors today ss ≡ some fs
    → first_within i day fs ss ≡ some (t, s)
    → (earlier : List Stage) × (later : List Stage) × (ss ≡ earlier ++ (s ∷ later))
      × (t ≡ i + length earlier)
      × All (IsPast today day) earlier
      × IsWithin today day s
unfolding first_within
first_within-some today day [] [] i t s e h = absurd (ground arith)
first_within-some today day [] (f ∷ fs) i t s e h = absurd (ground arith)
first_within-some today day (x ∷ ss) fs i t s e h =
    let (f, r, p, q, c) = floors-cons today x ss fs e in
    let h' : first_within i day (f ∷ r) (x ∷ ss) ≡ some (t, s) =
      subst (λ l. first_within i day l (x ∷ ss) ≡ some (t, s)) c h in
    elim (Bool-cases (before f day)) [
      | inl b ↦
          let k : ◌≡◌ {A = Option (ℕ × Stage)} (some (i, x)) (some (t, s)) = rw b at h' in
          let m : x ≡ s = ground arith in
          (
            [],
            ss,
            ap (λ (y : Stage). y ∷ ss) m,
            ground arith,
            tt,
            subst (λ y. IsWithin today day y) m (f, p, b),
          )
      | inr b ↦
          let k : first_within (suc i) day r ss ≡ some (t, s) = rw b at h' in
          let (earlier, later, a, n, past, w) = first_within-some today day ss r (suc i) t s q k in
          (x ∷ earlier, later, ap (◌∷◌ x) a, omega arith, ((f, p, b), past), w)
    ]

pub first_within-IsTarget :
    (today day : Date) (ss : List Stage) (fs : List Date) (t : ℕ) (s : Stage)
    → floors today ss ≡ some fs
    → first_within 0 day fs ss ≡ some (t, s)
    → IsTarget today day ss t s
first_within-IsTarget today day ss fs t s e h =
    let (earlier, later, a, n, past, w) = first_within-some today day ss fs 0 t s e h in
    (earlier, later, a, omega arith, past, w)
