-- ===== src/Gfs/Runner/Copies.antt =====
-- The states of a move before it is recorded: the copies that are made and published.
use bdbackup.Base.{
  ℕ, ◌≡◌, refl, sym, ap, subst, ◌≢◌, inl, inr, ◌⊎◌, true, none, some, List, [], ◌∷◌, All, In,
  Bool-cases, All-at, All-of_In,
}
use bdbackup.Base.FilePath.{FilePath, path_eq, path_eq_sound, path_eq_self}
use bdbackup.Gfs.Store.{Location, ManagedUnit, locations_of}
use bdbackup.Gfs.Runner.{Site, World, put, effect, copy_verified, copy_all, rename, rename_all}
use bdbackup.Gfs.Runner.Post.{Post, option-Post, if_Post, Post-weaken, bind-Post, effect-Post}

module _ (S : Site) (u : ManagedUnit) (i : ℕ) where
  -- A copy that verifies stands at this path.
  abbrev pub Good : World S → FilePath → Type 0
  Good w p = (n : S.Node) × (w.disk p ≡ some n) × (S.holds u n ≡ true)

  abbrev pub recorded : World S → List Location
  recorded w = locations_of i w.tables.locations

  -- The ledger records a location of the unit, and a verified copy stands at each that it records.
  abbrev pub IsSafe : World S → Type 0
  IsSafe w = ((l : Location) × In l (recorded w)) × All (λ l. Good w l.path) (recorded w)

  -- Before the move is recorded: the unit's locations are those that it was loaded with.
  abbrev pub Before : World S → Type 0
  Before w = (recorded w ≡ u.locations) × All (λ l. Good w l.path) u.locations

  pub Before-IsSafe : ((l : Location) × In l u.locations) → (w : World S) → Before w → IsSafe w
  Before-IsSafe (l, m) w (e, g) =
      ((l, subst (In l) (sym e) m), subst (All (λ l. Good w l.path)) (sym e) g)

  -- A verified temporary copy, and a published one, which is no location of the unit.
  abbrev pub Staged : World S → FilePath → Type 0
  Staged w f = (n : S.Node) × (w.staged f ≡ some n) × (S.holds u n ≡ true)

  abbrev pub Published : World S → FilePath → Type 0
  Published w f = Good w f × All (λ l. l.path ≢ f) u.locations

  copy_verified-Post :
      (source f : FilePath) (done : List FilePath) (w : World S)
      → Before w
      → All (Staged w) done
      → Post S (λ _ v. Before v × All (Staged v) (f ∷ done)) Before (copy_verified S u source f w)
  unfolding copy_verified
  copy_verified-Post source f done w b d =
      option-Post S P Before (w.disk source) _ _ (λ _. b)
        λ n e.
          if_Post S P Before (S.holds u n) _ _
            (λ h.
              effect-Post S (λ v. Before v × All (Staged v) (f ∷ done)) Before w
                (record w { staged = put S w.staged f (some n) }) w (λ s. (b, staged n h))
                (b, staged n h) (λ s. b))
            (λ _. b)
    where
      P : Unit {0} → World S → Type 0
      P _ v = Before v × All (Staged v) (f ∷ done)

      kept :
          (n : S.Node)
          → S.holds u n ≡ true
          → (g : FilePath) → Staged w g
          → (m : S.Node) × (put S w.staged f (some n) g ≡ some m) × (S.holds u m ≡ true)
      kept n h g (m, q, k) = elim (Bool-cases (path_eq f g)) [
        | inl t ↦ (n, rw t refl, h)
        | inr t ↦ (m, rw t q, k)
      ]

      all_kept :
          (n : S.Node)
          → S.holds u n ≡ true
          → (gs : List FilePath) → All (Staged w) gs
          → All
              (λ g. (m : S.Node) × (put S w.staged f (some n) g ≡ some m) × (S.holds u m ≡ true))
              gs
      all_kept n h gs d = All-of_In _ gs (λ g k. kept n h g (All-at (Staged w) g gs d k))

      staged :
          (n : S.Node)
          → S.holds u n ≡ true
          → All
              (λ g. (m : S.Node) × (put S w.staged f (some n) g ≡ some m) × (S.holds u m ≡ true))
              (f ∷ done)
      staged n h = ((n, rw (path_eq_self f) refl, h), all_kept n h done d)

  pub copy_all-Post :
      (source : FilePath) (todo done : List FilePath) (w : World S)
      → Before w
      → All (Staged w) done
      → Post S
          (λ _ v. Before v × All (Staged v) done × All (Staged v) todo)
          Before
          (copy_all S u source todo w)
  unfolding copy_all
  copy_all-Post source [] done w b d = (b, d, tt)
  copy_all-Post source (f ∷ fs) done w b d =
      bind-Post S (λ _ v. Before v × All (Staged v) (f ∷ done))
        (λ _ v. Before v × All (Staged v) done × All (Staged v) (f ∷ fs)) Before
        (copy_verified S u source f) (λ _. copy_all S u source fs) w
        (copy_verified-Post source f done w b d)
        (λ _ v (p, q).
          Post-weaken S (λ _ v. Before v × All (Staged v) (f ∷ done) × All (Staged v) fs)
            (λ _ v. Before v × All (Staged v) done × All (Staged v) (f ∷ fs)) Before
            (copy_all S u source fs v) (copy_all-Post source fs (f ∷ done) v p q)
            (λ _ x (a, c, e). (a, c.1, (c.0, e))))

  -- A final name that is still to be published, or is published already.
  abbrev pub Pending : World S → FilePath → Type 0
  Pending w f = Staged w f ⊎ Published w f

  -- The world behind a rename.
  abbrev renamed : World S → FilePath → World S
  renamed w f = record w { disk = put S w.disk f (w.staged f); staged = put S w.staged f none }

  fresh :
      (w : World S) (f : FilePath) (ls : List Location)
      → w.disk f ≡ none
      → All (λ l. Good w l.path) ls
      → All (λ l. l.path ≢ f) ls
  fresh w f [] e g = tt
  fresh w f (l ∷ ls) e (h, g) = (λ q. cc (e, h.1, ap w.disk q), fresh w f ls e g)

  Good-renamed : (w : World S) (f g : FilePath) → Staged w f → Good w g → Good (renamed w f) g
  Good-renamed w f g (m, t, k) (n, q, h) = elim (Bool-cases (path_eq f g)) [
    | inl e ↦ (m, rw e t, k)
    | inr e ↦ (n, rw e q, h)
  ]

  Goods-renamed :
      (w : World S) (f : FilePath) (ls : List Location)
      → Staged w f
      → All (λ l. Good w l.path) ls
      → All (λ l. Good (renamed w f) l.path) ls
  Goods-renamed w f [] t g = tt
  Goods-renamed w f (l ∷ ls) t (h, g) = (Good-renamed w f l.path t h, Goods-renamed w f ls t g)

  Published-self :
      (w : World S) (f : FilePath)
      → Before w
      → w.disk f ≡ none
      → Staged w f
      → Published (renamed w f) f
  Published-self w f (e, g) free (n, t, h) =
      ((n, rw (path_eq_self f) t, h), fresh w f u.locations free g)

  Pending-renamed :
      (w : World S) (f g : FilePath)
      → Before w
      → w.disk f ≡ none
      → Staged w f
      → Pending w g
      → Pending (renamed w f) g
  Pending-renamed w f g b free t (inr (h, q)) = inr (Good-renamed w f g t h, q)
  Pending-renamed w f g b free t (inl (n, e, h)) = elim (Bool-cases (path_eq f g)) [
    | inl q ↦
        inr (subst (Published (renamed w f)) (path_eq_sound f g q) (Published-self w f b free t))
    | inr q ↦ inl (n, rw q e, h)
  ]

  Pendings-renamed :
      (w : World S) (f : FilePath) (gs : List FilePath)
      → Before w
      → w.disk f ≡ none
      → Staged w f
      → All (Pending w) gs
      → All (Pending (renamed w f)) gs
  Pendings-renamed w f [] b free t p = tt
  Pendings-renamed w f (g ∷ gs) b free t (p, ps) =
      (Pending-renamed w f g b free t p, Pendings-renamed w f gs b free t ps)

  Publisheds-renamed :
      (w : World S) (f : FilePath) (gs : List FilePath)
      → Staged w f
      → All (Published w) gs
      → All (Published (renamed w f)) gs
  Publisheds-renamed w f [] t p = tt
  Publisheds-renamed w f (g ∷ gs) t ((h, q), ps) =
      ((Good-renamed w f g t h, q), Publisheds-renamed w f gs t ps)

  unpublished : (w : World S) (f : FilePath) → w.disk f ≡ none → Pending w f → Staged w f
  unpublished w f e (inl t) = t
  unpublished w f e (inr ((n, q, _), _)) = cc

  pub rename_all-Post :
      (todo done : List FilePath) (w : World S)
      → Before w
      → All (Pending w) todo
      → All (Published w) done
      → Post S
          (λ _ v. Before v × All (Published v) done × All (Published v) todo)
          Before
          (rename_all S todo w)
  unfolding rename_all
  rename_all-Post [] done w b p d = (b, d, tt)
  rename_all-Post (f ∷ fs) done w b (p, ps) d =
      bind-Post S After (λ _ v. Before v × All (Published v) done × All (Published v) (f ∷ fs))
        Before (rename S f) (λ _. rename_all S fs) w
        (option-Post S After Before (w.disk f) _ _ (λ e. step e (unpublished w f e p)) (λ n e. b))
        (λ _ v (a, q, g).
          Post-weaken S (λ _ x. Before x × All (Published x) (f ∷ done) × All (Published x) fs)
            (λ _ x. Before x × All (Published x) done × All (Published x) (f ∷ fs)) Before
            (rename_all S fs v) (rename_all-Post fs (f ∷ done) v a q g)
            (λ _ x (i, c, j). (i, c.1, (c.0, j))))
    where
      After : Unit {0} → World S → Type 0
      After _ v = Before v × All (Pending v) fs × All (Published v) (f ∷ done)

      step : w.disk f ≡ none → Staged w f → Post S After Before (effect S w (renamed w f) w)
      step e t =
          let facts : Before (renamed w f)
              × All (Pending (renamed w f)) fs
              × All (Published (renamed w f)) (f ∷ done) =
            (
              (b.0, Goods-renamed w f u.locations t b.1),
              Pendings-renamed w f fs b e t ps,
              (Published-self w f b e t, Publisheds-renamed w f done t d),
            ) in
          effect-Post S (λ v. Before v × All (Pending v) fs × All (Published v) (f ∷ done)) Before w
            (renamed w f) w (λ s. facts) facts (λ s. b)
