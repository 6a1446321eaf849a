-- ===== src/Gfs/Policy/Buckets.antt =====
-- The groups of a list have different keys, so a bucket has one newest unit.
use bdbackup.Base.{
  ◌≡◌, sym, ◌∙◌, ap, subst, inl, inr, Bool, true, false, List, [], ◌∷◌, foldl, All, In, All-at,
  Bool-cases,
}
use bdbackup.Gfs.Policy.{BackupUnit, add, group_by}
use bdbackup.Gfs.Policy.Groups.{Groups, members, IsKeyed, group_by-IsKeyed, group_by-Grouped}

-- A Boolean equality that is reflexive and sound.
pub record IsEquality {K : Type 0} (same : K → K → Bool) : Type 0 where
  pub self : (k : K) → same k k ≡ true
  pub sound : (j k : K) → same j k ≡ true → j ≡ k

module _ {K : Type 0} (same : K → K → Bool) (law : IsEquality same) (key : BackupUnit → K) where
  abbrev Distinct : Groups K → Type 0
  Distinct [] = Unit
  Distinct (g ∷ gs) = All (λ h. same g.0 h.0 ≡ false) gs × Distinct gs

  add-All :
      (P : K → Type 0) (gs : Groups K) (a : BackupUnit)
      → All (λ h. P h.0) gs
      → P (key a)
      → All (λ h. P h.0) (add same key gs a)
  unfolding add
  add-All P [] a h p = (p, tt)
  add-All P ((k, x, xs) ∷ gs) a h p = elim (Bool-cases (same k (key a))) [
    | inl e ↦ rw e (h.0, h.1)
    | inr e ↦ rw e (h.0, add-All P gs a h.1 p)
  ]

  add-Distinct : (gs : Groups K) (a : BackupUnit) → Distinct gs → Distinct (add same key gs a)
  unfolding add
  add-Distinct [] a h = (tt, tt)
  add-Distinct ((k, x, xs) ∷ gs) a h = elim (Bool-cases (same k (key a))) [
    | inl e ↦ rw e h
    | inr e ↦ rw e (add-All (λ j. same k j ≡ false) gs a h.0 e, add-Distinct gs a h.1)
  ]

  foldl-Distinct :
      (gs : Groups K) (us : List BackupUnit) → Distinct gs → Distinct (foldl (add same key) gs us)
  foldl-Distinct gs [] h = h
  foldl-Distinct gs (u ∷ us) h = foldl-Distinct (add same key gs u) us (add-Distinct gs u h)

  one_group :
      (gs : Groups K) (g h : K × BackupUnit × List BackupUnit)
      → Distinct gs
      → In g gs
      → In h gs
      → g.0 ≡ h.0
      → g ≡ h
  one_group [] g h d m n e = elim m [ ]
  one_group (f ∷ gs) g h d (inl p) (inl q) e = sym p ∙ q
  one_group (f ∷ gs) g h d (inl p) (inr n) e = absurd (
      cc (
        All-at (λ j. same f.0 j.0 ≡ false) h gs d.0 n,
        subst (λ k. same f.0 k ≡ true) (ap (λ (j : _). j.0) p ∙ e) (law.self f.0),
      ))
  one_group (f ∷ gs) g h d (inr m) (inl q) e = absurd (
      cc (
        All-at (λ j. same f.0 j.0 ≡ false) g gs d.0 m,
        subst (λ k. same f.0 k ≡ true) (ap (λ (j : _). j.0) q ∙ sym e) (law.self f.0),
      ))
  one_group (f ∷ gs) g h d (inr m) (inr n) e = one_group gs g h d.1 m n e

  -- The key of a group is that of each of its members.
  pub group_by-key :
      (us : List BackupUnit) (g : K × BackupUnit × List BackupUnit) (u : BackupUnit)
      → In g (group_by same key us)
      → In u (members g)
      → g.0 ≡ key u
  group_by-key us g u m n = law.sound g.0 (key u) (
      All-at (λ w. same g.0 (key w) ≡ true) u (members g)
        (All-at (IsKeyed same key) g _ (group_by-IsKeyed same key law.self us) m) n)

  -- A unit lies in every group that has its key.
  pub group_by-holds :
      (us : List BackupUnit) (g : K × BackupUnit × List BackupUnit) (u : BackupUnit)
      → In g (group_by same key us)
      → In u us
      → g.0 ≡ key u
      → In u (members g)
  unfolding group_by
  group_by-holds us g u m n e =
      let (h, p, q) = group_by-Grouped same key us u n in
      subst (λ f. In u (members f))
        (one_group (group_by same key us) h g (foldl-Distinct [] us tt) p m
          (group_by-key us h u p q ∙ sym e))
        q
