-- ===== src/Gfs/Runner/Refusals.antt =====
-- The checks at the head of `move` (bdbackup/gfs/runner.py), and dry runs of one action.
use bdbackup.Base.{
  ◌≡◌, refl, sym, ◌∙◌, subst, inl, inr, ◌⊎◌, Bool, true, false, Option, none, some, List, [], ◌∷◌,
  In, ap, if◌then◌else◌,
}
use bdbackup.Base.FilePath.{FilePath}
use bdbackup.Gfs.Store.{Location, ManagedUnit}
use bdbackup.Gfs.Runner.{
  Site, World, Exit, ok, refusal, Refused, not_ready, final_exists, M, ◌>>◌, pure, throw,
  check_ready, check_free, finals_of, move_from, move, delete, complete_interrupted,
}

module _ (S : Site) where
  -- The result of a check: it passes or refuses, and changes nothing.
  Checked : World S → Exit (Unit {0}) × World S → Type 0
  Checked w x = (x ≡ (ok tt, w)) ⊎ ((r : Refused) × (x ≡ (refusal r, w)))

  check_ready-Checked : (ps : List FilePath) (w : World S) → Checked w (check_ready S ps w)
  unfolding check_ready Checked
  check_ready-Checked [] w = inl refl
  check_ready-Checked (p ∷ ps) w = split (S.ready p) (check_ready-Checked ps w)
    where
      split :
          (c : Bool)
          → Checked w (check_ready S ps w)
          → Checked w (
              (let m : M S (Unit {0}) = if c then check_ready S ps else throw S (not_ready p) in m)
                w)
      split true h = h
      split false h = inr (not_ready p, refl)

  check_free-Checked : (fs : List FilePath) (w : World S) → Checked w (check_free S fs w)
  unfolding check_free Checked
  check_free-Checked [] w = inl refl
  check_free-Checked (f ∷ fs) w = split (w.disk f) (check_free-Checked fs w)
    where
      split :
          (o : Option S.Node)
          → Checked w (check_free S fs w)
          → Checked w (elim o [ some _ ↦ (refusal (final_exists f), w) | none ↦ check_free S fs w ])
      split none h = h
      split (some n) h = inr (final_exists f, refl)

  check_free-taken :
      (fs : List FilePath) (f : FilePath) (n : S.Node) (w : World S)
      → In f fs
      → w.disk f ≡ some n
      → (r : Refused) × (check_free S fs w ≡ (refusal r, w))
  unfolding check_free
  check_free-taken [] f n w m e = elim m [ ]
  check_free-taken (g ∷ fs) f n w (inl q) e = (
    final_exists g,
    subst
        (λ o.
          elim o [ some _ ↦ (refusal (final_exists g), w) | none ↦ check_free S fs w ]
          ≡ (refusal (final_exists g), w))
        (sym (ap w.disk q ∙ e)) refl,
  )
  check_free-taken (g ∷ fs) f n w (inr m) e = split (w.disk g) (check_free-taken fs f n w m e)
    where
      split :
          (o : Option S.Node)
          → ((r : Refused) × (check_free S fs w ≡ (refusal r, w)))
          → (r : Refused) × (elim o [
            | some _ ↦ (refusal (final_exists g), w)
            | none ↦ check_free S fs w
          ]
              ≡ (refusal r, w))
      split none h = h
      split (some k) h = (final_exists g, refl)

  module _ (m k : M S (Unit {0})) (w : World S) where
    then_passes : m w ≡ (ok tt, w) → ◌>>◌ S m k w ≡ k w
    then_passes e = subst (λ x. ◌>>◌ S (λ _. x) k w ≡ k w) (sym e) refl

    then_refuses : (r : Refused) → m w ≡ (refusal r, w) → ◌>>◌ S m k w ≡ (refusal r, w)
    then_refuses r e = subst (λ x. ◌>>◌ S (λ _. x) k w ≡ (refusal r, w)) (sym e) refl

    then-Checked : Checked w (m w) → Checked w (k w) → Checked w (◌>>◌ S m k w)
    unfolding Checked
    then-Checked (inl e) h = subst (Checked w) (sym (then_passes e)) h
    then-Checked (inr (r, e)) h = inr (r, then_refuses r e)

  Checked-unchanged : (w : World S) (x : Exit (Unit {0}) × World S) → Checked w x → x.1 ≡ w
  unfolding Checked
  Checked-unchanged w x (inl e) = ap (λ y. y.1) e
  Checked-unchanged w x (inr (r, e)) = ap (λ y. y.1) e

  abbrev after_free : Bool → ManagedUnit → List FilePath → M S (Unit {0})
  after_free apply u paths = if apply then move_from S u paths u.locations else pure S tt

  abbrev after_ready : Bool → ManagedUnit → List FilePath → M S (Unit {0})
  after_ready apply u paths = ◌>>◌ S (check_free S (finals_of S u paths)) (after_free apply u paths)

  -- A dry run changes nothing: without `apply`, a move, a delete and the completion of an
  -- interrupted move leave the disk and the tables as they are.
  pub dry_run-unchanged :
      (u : ManagedUnit) (paths : List FilePath) (staying leftovers : List Location) (w : World S)
      → ((move S false u paths w).1 ≡ w)
        × ((delete S false u w).1 ≡ w)
        × ((complete_interrupted S false u staying leftovers w).1 ≡ w)
  unfolding move delete complete_interrupted Checked
  dry_run-unchanged u paths staying leftovers w = (
    Checked-unchanged w (move S false u paths w) (
        then-Checked (check_ready S paths) (after_ready false u paths) w
          (check_ready-Checked paths w)
          (then-Checked (check_free S (finals_of S u paths)) (pure S tt) w
            (check_free-Checked (finals_of S u paths) w) passes)),
    refl,
    refl,
  )
    where
      passes : Checked w (pure S tt w)
      passes = inl refl

  -- A final name that exists is never overwritten: a move whose stage already holds something at
  -- one of the unit's final names is refused, and changes neither the disk nor the tables.
  pub move-refused :
      (apply : Bool) (u : ManagedUnit) (paths : List FilePath) (f : FilePath) (n : S.Node)
      (w : World S)
      → In f (finals_of S u paths)
      → w.disk f ≡ some n
      → (r : Refused) × (move S apply u paths w ≡ (refusal r, w))
  unfolding move Checked
  move-refused apply u paths f n w m e = elim (check_ready-Checked paths w) [
    | inr (r, q) ↦ (r, then_refuses (check_ready S paths) (after_ready apply u paths) w r q)
    | inl q ↦
        let (r, t) = check_free-taken (finals_of S u paths) f n w m e in
        (
          r,
          then_passes (check_ready S paths) (after_ready apply u paths) w q
              ∙ then_refuses (check_free S (finals_of S u paths)) (after_free apply u paths) w r t,
        )
  ]
