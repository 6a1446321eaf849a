-- ===== src/Gfs/Runner/Recorded.antt =====
-- The states of a move once it is recorded: removing the old copies leaves the new ones alone.
use bdbackup.Base.{
  ℕ, ◌≡◌, refl, sym, ◌∙◌, ap, subst, ◌≢◌, inl, inr, Bool, true, false, Option, none, some, List, [],
  ◌∷◌, ◌++◌, arith, All, In, any_of, keep_if, if◌then◌else◌, Bool-cases, ==_iff, All-at, All-of_In,
  In-append_cases, In-append_right, In-keep_if,
}
use bdbackup.Base.FilePath.{FilePath, path_eq, path_eq_sound, path_eq_self}
use bdbackup.Gfs.Store.{Location, ManagedUnit, Tables, locations_of, record_move}
use bdbackup.Gfs.Store.Laws.{without, locations_of-record_move}
use bdbackup.Gfs.Runner.{
  Site, World, put, effect, remove, remove_all, drop_staged, finals_of, new_locations,
}
use bdbackup.Gfs.Runner.Post.{Post, option-Post, bind-Post, effect-Post}
use bdbackup.Gfs.Runner.Copies.{Good, recorded, IsSafe, Before, Published}

In-keep_of :
    (p : Location → Bool) (l : Location) (ls : List Location)
    → In l ls
    → p l ≡ true
    → In l (keep_if p ls)
In-keep_of p l [] m h = elim m [ ]
In-keep_of p l (x ∷ ls) (inl e) h =
    subst (λ b. In l (if b then x ∷ keep_if p ls else keep_if p ls))
      (sym (subst (λ y. p y ≡ true) (sym e) h)) (inl e)
In-keep_of p l (x ∷ ls) (inr m) h = later (p x) (In-keep_of p l ls m h)
  where
    later : (b : Bool) → In l (keep_if p ls) → In l (if b then x ∷ keep_if p ls else keep_if p ls)
    later true k = inr k
    later false k = k

any-of_In :
    (l : Location) (ls : List Location) → In l ls → any_of (λ d. path_eq l.path d.path) ls ≡ true
any-of_In l [] m = elim m [ ]
any-of_In l (x ∷ ls) (inl e) =
    subst (λ y. any_of (λ d. path_eq l.path d.path) (y ∷ ls) ≡ true) (sym e)
      (rw (path_eq_self l.path) refl)
any-of_In l (x ∷ ls) (inr m) = rw (any-of_In l ls m) (ground arith)

none-of_ne :
    (l : Location) (ls : List Location)
    → All (λ d. d.path ≢ l.path) ls
    → any_of (λ d. path_eq l.path d.path) ls ≡ false
none-of_ne l [] h = refl
none-of_ne l (x ∷ ls) (n, h) = elim (Bool-cases (path_eq l.path x.path)) [
  | inl e ↦ absurd (n (sym (path_eq_sound l.path x.path e)))
  | inr e ↦ rw (e, none-of_ne l ls h) refl
]

module _ (S : Site) (u : ManagedUnit) (i : ℕ) where
  -- Once the move is recorded: every recorded location holds a verified copy, and none of them is
  -- a location that is about to be removed.
  abbrev pub Apart : World S → Location → Type 0
  Apart w l = Good S u i w l.path × All (λ d. d.path ≢ l.path) u.locations

  abbrev pub Moved : World S → Type 0
  Moved w = ((l : Location) × In l (recorded S u i w)) × All (Apart w) (recorded S u i w)

  pub Moved-IsSafe : (w : World S) → Moved w → IsSafe S u i w
  Moved-IsSafe w (l, g) = (l, All-of_In _ _ (λ a m. (All-at (Apart w) a _ g m).0))

  new-Apart :
      (paths : List FilePath) (w : World S)
      → All (Published S u i w) (finals_of S u paths)
      → All (Apart w) (new_locations S u paths)
  new-Apart [] w p = tt
  new-Apart (x ∷ paths) w (p, ps) = (p, new-Apart paths w ps)

  -- What the ledger records behind `record_move`.
  pub recorded_move :
      (path : FilePath) (paths : List FilePath) (w : World S) (t : Tables)
      → Before S u i w
      → All (Published S u i w) (finals_of S u (path ∷ paths))
      → record_move w.tables i (new_locations S u (path ∷ paths)) u.locations ≡ some t
      → Moved (record w { tables = t })
  recorded_move path paths w t (e, g) p h =
      let new = new_locations S u (path ∷ paths) in
      let apart : All (Apart w) new = new-Apart (path ∷ paths) w p in
      let now : locations_of i t.locations ≡ without u.locations (u.locations ++ new) =
        locations_of-record_move w.tables i i new u.locations t h
        ∙ rw ((==_iff i i).1 refl) (ap (λ ls. without u.locations (ls ++ new)) e) in
      let head : Location = record { stage_path = path; path = path ++ u.relative } in
      (
        (
          head,
          subst (In head) (sym now) (
              In-keep_of _ head (u.locations ++ new)
                (In-append_right head u.locations new (inl refl))
                (rw (none-of_ne head u.locations apart.0.1) refl)),
        ),
        subst (All (Apart w)) (sym now) (
            All-of_In (Apart w) (without u.locations (u.locations ++ new)) λ l m.
              let (n, k) = In-keep_if _ l (u.locations ++ new) m in
              elim (In-append_cases l u.locations new n) [
                | inl old ↦ absurd (cc (k, any-of_In l u.locations old))
                | inr new_one ↦ All-at (Apart w) l new apart new_one
              ]),
      )

  -- Removing an old location leaves the recorded ones alone.
  Apart-remove :
      (w : World S) (d : Location) (v : Option S.Node) (l : Location)
      → In d u.locations
      → Apart w l
      → Apart (record w { disk = put S w.disk d.path v }) l
  Apart-remove w d v l m ((n, q, h), a) = elim (Bool-cases (path_eq d.path l.path)) [
    | inl e ↦
        absurd (All-at (λ x. x.path ≢ l.path) d u.locations a m (path_eq_sound d.path l.path e))
    | inr e ↦ ((n, rw e q, h), a)
  ]

  Moved-remove :
      (w : World S) (d : Location) (v : Option S.Node)
      → In d u.locations
      → Moved w
      → Moved (record w { disk = put S w.disk d.path v })
  Moved-remove w d v m (l, g) =
      (l, All-of_In _ _ (λ a k. Apart-remove w d v a m (All-at (Apart w) a _ g k)))

  pub remove_all-Post :
      (ls : List Location) (w : World S)
      → ((d : Location) → In d ls → In d u.locations)
      → Moved w
      → Post S (λ _ v. Moved v) Moved (remove_all S ls w)
  unfolding remove_all
  remove_all-Post [] w sub g = g
  remove_all-Post (d ∷ ls) w sub g =
      bind-Post S (λ _ v. Moved v) (λ _ v. Moved v) Moved (remove S d.path) (λ _. remove_all S ls) w
        (option-Post S (λ _ v. Moved v) Moved (w.disk d.path) _ _
          (λ e. effect-Post S Moved Moved w w w (λ s. g) g (λ s. g))
          (λ n e.
            effect-Post S Moved Moved w (record w { disk = put S w.disk d.path none })
              (record w { disk = put S w.disk d.path (S.remains n) }) (λ s. gone none) (gone none)
              (λ s. gone (S.remains n))))
        (λ _ v h. remove_all-Post ls v (λ x m. sub x (inr m)) h)
    where
      gone : (v : Option S.Node) → Moved (record w { disk = put S w.disk d.path v })
      gone v = Moved-remove w d v (sub d (inl refl)) g

  pub drop_staged-Post :
      (fs : List FilePath) (w : World S)
      → IsSafe S u i w
      → Post S (λ _ v. IsSafe S u i v) (IsSafe S u i) (drop_staged S fs w)
  unfolding drop_staged
  drop_staged-Post [] w h = h
  drop_staged-Post (f ∷ fs) w h =
      option-Post S (λ _ v. IsSafe S u i v) (IsSafe S u i) (w.staged f) _ _
        (λ e. drop_staged-Post fs w h)
        (λ n e.
          bind-Post S (λ _ v. IsSafe S u i v) (λ _ v. IsSafe S u i v) (IsSafe S u i)
            (λ v. effect S v (record v { staged = put S v.staged f none }) v)
            (λ _. drop_staged S fs) w
            (effect-Post S (IsSafe S u i) (IsSafe S u i) w _ w (λ s. h) h (λ s. h))
            (λ _ v k. drop_staged-Post fs v k))
