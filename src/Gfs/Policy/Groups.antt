-- ===== src/Gfs/Policy/Groups.antt =====
-- Grouping by key: the groups hold the units, each once, under their keys.
use mathlib.Core.List.Perm
use bdbackup.Base.{
  ◌≡◌, refl, sym, ap, subst, inl, inr, ◌⊎◌, Bool, true, false, List, [], ◌∷◌, ◌++◌, foldl,
  append-nil, append_assoc, Perm, perm_middle, All, In, if◌then◌else◌, Bool-cases, All-append,
  In-append_left, In-append_right, In-append_cases,
}
use bdbackup.Gfs.Policy.{BackupUnit, add, group_by, newest, newest_each}

abbrev pub Groups : Type 0 → Type 0
Groups K = List (K × BackupUnit × List BackupUnit)

abbrev pub members : {K : Type 0} → K × BackupUnit × List BackupUnit → List BackupUnit
members g = g.1 ∷ g.2

abbrev pub flat : {K : Type 0} → Groups K → List BackupUnit
flat [] = []
flat ((k, x, xs) ∷ gs) = (x ∷ xs) ++ flat gs

module _ {K : Type 0} (same : K → K → Bool) (key : BackupUnit → K) where
  flat-add : (gs : Groups K) (a : BackupUnit) → Perm (flat (add same key gs a)) (a ∷ flat gs)
  unfolding add
  flat-add [] a = Perm.refl _
  flat-add ((k, x, xs) ∷ gs) a = elim (Bool-cases (same k (key a))) [
    | inl e ↦ rw e (
        subst (λ l. Perm (x ∷ l) (a ∷ x ∷ xs ++ flat gs)) (sym (append_assoc xs (a ∷ []) (flat gs)))
          (perm_middle (x ∷ xs) (flat gs)))
    | inr e ↦ rw e (
        Perm.trans (Perm.append (Perm.refl (x ∷ xs)) (flat-add gs a))
          (perm_middle (x ∷ xs) (flat gs)))
  ]

  foldl-add :
      (gs : Groups K) (us : List BackupUnit)
      → Perm (flat (foldl (add same key) gs us)) (us ++ flat gs)
  foldl-add gs [] = Perm.refl _
  foldl-add gs (u ∷ us) =
      Perm.trans (foldl-add (add same key gs u) us)
        (Perm.trans (Perm.append (Perm.refl us) (flat-add gs u)) (perm_middle us (flat gs)))

  -- The groups hold exactly the units that were grouped.
  pub flat-group_by : (us : List BackupUnit) → Perm (flat (group_by same key us)) us
  unfolding group_by
  flat-group_by us =
      subst (λ l. Perm (flat (foldl (add same key) [] us)) l) (append-nil us) (foldl-add [] us)

  -- Every unit of a group has the group's key.
  abbrev pub IsKeyed : K × BackupUnit × List BackupUnit → Type 0
  IsKeyed (k, x, xs) = All (λ u. same k (key u) ≡ true) (x ∷ xs)

  module _ (same_self : (k : K) → same k k ≡ true) where
    add-IsKeyed :
        (gs : Groups K) (a : BackupUnit) → All IsKeyed gs → All IsKeyed (add same key gs a)
    unfolding add
    add-IsKeyed [] a h = ((same_self (key a), tt), tt)
    add-IsKeyed ((k, x, xs) ∷ gs) a h = elim (Bool-cases (same k (key a))) [
      | inl e ↦ rw e ((h.0.0, All-append _ xs (a ∷ []) h.0.1 (e, tt)), h.1)
      | inr e ↦ rw e (h.0, add-IsKeyed gs a h.1)
    ]

    foldl-IsKeyed :
        (gs : Groups K) (us : List BackupUnit)
        → All IsKeyed gs
        → All IsKeyed (foldl (add same key) gs us)
    foldl-IsKeyed gs [] h = h
    foldl-IsKeyed gs (u ∷ us) h = foldl-IsKeyed (add same key gs u) us (add-IsKeyed gs u h)

    pub group_by-IsKeyed : (us : List BackupUnit) → All IsKeyed (group_by same key us)
    unfolding group_by
    group_by-IsKeyed us = foldl-IsKeyed [] us tt

  -- A unit of a list of groups, with its group.
  abbrev pub Grouped : BackupUnit → Groups K → Type 0
  Grouped u gs = (g : K × BackupUnit × List BackupUnit) × In g gs × In u (members g)

  add-Grouped_new : (gs : Groups K) (a : BackupUnit) → Grouped a (add same key gs a)
  unfolding add
  add-Grouped_new [] a = ((key a, a, []), inl refl, inl refl)
  add-Grouped_new ((k, x, xs) ∷ gs) a = elim (Bool-cases (same k (key a))) [
    | inl e ↦
        rw e ((k, x, xs ++ (a ∷ [])), inl refl, inr (In-append_right a xs (a ∷ []) (inl refl)))
    | inr e ↦ rw e (let (g, m, n) = add-Grouped_new gs a in (g, inr m, n))
  ]

  add-Grouped_old :
      (gs : Groups K) (a u : BackupUnit) → Grouped u gs → Grouped u (add same key gs a)
  unfolding add
  add-Grouped_old [] a u (g, m, n) = elim m [ ]
  add-Grouped_old ((k, x, xs) ∷ gs) a u (g, inl e, n) = elim (Bool-cases (same k (key a))) [
    | inl t ↦ rw t (
      (k, x, xs ++ (a ∷ [])),
      inl refl,
      In-append_left u (x ∷ xs) (a ∷ []) (subst (λ h. In u (members h)) (sym e) n),
    )
    | inr f ↦ rw f (g, inl e, n)
  ]
  add-Grouped_old ((k, x, xs) ∷ gs) a u (g, inr m, n) = elim (Bool-cases (same k (key a))) [
    | inl t ↦ rw t (g, inr m, n)
    | inr f ↦ rw f (let (h, p, q) = add-Grouped_old gs a u (g, m, n) in (h, inr p, q))
  ]

  foldl-Grouped :
      (gs : Groups K) (us : List BackupUnit) (u : BackupUnit)
      → Grouped u gs ⊎ In u us
      → Grouped u (foldl (add same key) gs us)
  foldl-Grouped gs [] u (inl g) = g
  foldl-Grouped gs [] u (inr m) = elim m [ ]
  foldl-Grouped gs (v ∷ us) u (inl g) =
      foldl-Grouped (add same key gs v) us u (inl (add-Grouped_old gs v u g))
  foldl-Grouped gs (v ∷ us) u (inr (inl e)) =
      foldl-Grouped (add same key gs v) us u
        (inl (subst (λ w. Grouped w (add same key gs v)) e (add-Grouped_new gs v)))
  foldl-Grouped gs (v ∷ us) u (inr (inr m)) = foldl-Grouped (add same key gs v) us u (inr m)

  -- Every unit is in a group.
  pub group_by-Grouped :
      (us : List BackupUnit) (u : BackupUnit) → In u us → Grouped u (group_by same key us)
  unfolding group_by
  group_by-Grouped us u m = foldl-Grouped [] us u (inr m)

  behind-In :
      (gs : Groups K) (k : K) (x : BackupUnit) (xs : List BackupUnit) (a u : BackupUnit)
      → In u (x ∷ xs ++ (a ∷ []))
      → Grouped u ((k, x, xs) ∷ gs) ⊎ (a ≡ u)
  behind-In gs k x xs a u n = elim (In-append_cases u (x ∷ xs) (a ∷ []) n) [
    | inl l ↦ inl ((k, x, xs), inl refl, l)
    | inr (inl q) ↦ inr q
    | inr (inr m) ↦ elim m [ ]
  ]

  joined-In :
      (gs : Groups K) (k : K) (x : BackupUnit) (xs : List BackupUnit) (a u : BackupUnit)
      → Grouped u ((k, x, xs ++ (a ∷ [])) ∷ gs)
      → Grouped u ((k, x, xs) ∷ gs) ⊎ (a ≡ u)
  joined-In gs k x xs a u (g, inl e, n) =
      behind-In gs k x xs a u (subst (λ h. In u (members h)) (sym e) n)
  joined-In gs k x xs a u (g, inr m, n) = inl (g, inr m, n)

  add-In :
      (gs : Groups K) (a u : BackupUnit) → Grouped u (add same key gs a) → Grouped u gs ⊎ (a ≡ u)
  unfolding add
  add-In [] a u (g, inl e, n) = elim (subst (λ h. In u (members h)) (sym e) n) [
    | inl q ↦ inr q
    | inr m ↦ elim m [ ]
  ]
  add-In [] a u (g, inr m, n) = elim m [ ]
  add-In ((k, x, xs) ∷ gs) a u h = split (same k (key a)) h (λ p. add-In gs a u p)
    where
      split :
          (b : Bool)
          → Grouped u (if b then (k, x, xs ++ (a ∷ [])) ∷ gs else (k, x, xs) ∷ add same key gs a)
          → (Grouped u (add same key gs a) → Grouped u gs ⊎ (a ≡ u))
          → Grouped u ((k, x, xs) ∷ gs) ⊎ (a ≡ u)
      split true p ih = joined-In gs k x xs a u p
      split false (g, inl e, n) ih = inl (g, inl e, n)
      split false (g, inr m, n) ih = elim (ih (g, m, n)) [
        | inl (h, p, q) ↦ inl (h, inr p, q)
        | inr q ↦ inr q
      ]

  foldl-In :
      (gs : Groups K) (us : List BackupUnit) (u : BackupUnit)
      → Grouped u (foldl (add same key) gs us)
      → Grouped u gs ⊎ In u us
  foldl-In gs [] u h = inl h
  foldl-In gs (v ∷ us) u h = elim (foldl-In (add same key gs v) us u h) [
    | inl p ↦ elim (add-In gs v u p) [ inl q ↦ inl q | inr e ↦ inr (inl e) ]
    | inr m ↦ inr (inr m)
  ]

  -- A group's members are among the units.
  pub group_by-In :
      (us : List BackupUnit) (u : BackupUnit) → Grouped u (group_by same key us) → In u us
  unfolding group_by
  group_by-In us u h = elim (foldl-In [] us u h) [ inl (g, m, n) ↦ elim m [ ] | inr m ↦ m ]

-- Where a unit of `newest_each` comes from: a group whose bucket is done.
pub newest_each-from :
    {K : Type 0} (done : K → BackupUnit → Bool) (gs : Groups K) (v : BackupUnit)
    → In v (newest_each done gs)
    → (g : K × BackupUnit × List BackupUnit) × In g gs × (newest g.1 g.2 ≡ v) × (done g.0 v ≡ true)
unfolding newest_each
newest_each-from done [] v m = elim m [ ]
newest_each-from {K} done ((k, x, xs) ∷ gs) v m =
    split (done k (newest x xs)) refl m (λ p. newest_each-from done gs v p)
  where
    split :
        (b : Bool)
        → done k (newest x xs) ≡ b
        → In v (if b then newest x xs ∷ newest_each done gs else newest_each done gs)
        → (In v (newest_each done gs)
            → (g : K × BackupUnit × List BackupUnit) × In g gs
              × (newest g.1 g.2 ≡ v)
              × (done g.0 v ≡ true))
        → (g : K × BackupUnit × List BackupUnit) × In g ((k, x, xs) ∷ gs)
          × (newest g.1 g.2 ≡ v)
          × (done g.0 v ≡ true)
    split true e (inl q) ih = ((k, x, xs), inl refl, q, subst (λ w. done k w ≡ true) q e)
    split true e (inr p) ih = let (g, i, j, l) = ih p in (g, inr i, j, l)
    split false e p ih = let (g, i, j, l) = ih p in (g, inr i, j, l)

-- The newest of a group whose bucket is done is taken.
pub newest_each-takes :
    {K : Type 0} (done : K → BackupUnit → Bool) (gs : Groups K)
    (g : K × BackupUnit × List BackupUnit)
    → In g gs
    → done g.0 (newest g.1 g.2) ≡ true
    → In (newest g.1 g.2) (newest_each done gs)
unfolding newest_each
newest_each-takes done [] g m h = elim m [ ]
newest_each-takes done ((k, x, xs) ∷ gs) g (inl e) h =
    subst
      (λ b.
        In (newest g.1 g.2) (if b then newest x xs ∷ newest_each done gs else newest_each done gs))
      (sym (subst (λ q. done q.0 (newest q.1 q.2) ≡ true) (sym e) h))
      (inl (ap (λ (q : _). newest q.1 q.2) e))
newest_each-takes done ((k, x, xs) ∷ gs) g (inr m) h =
    later (done k (newest x xs)) (newest_each-takes done gs g m h)
  where
    later :
        (b : Bool)
        → In (newest g.1 g.2) (newest_each done gs)
        → In (newest g.1 g.2) (if b then newest x xs ∷ newest_each done gs else newest_each done gs)
    later true p = inr p
    later false p = p
