-- ===== src/FileBackup/Complete.antt =====
-- bdbackup/filebackup.py, `_walk`: a walk that no error stops leaves nothing out.
use bdbackup.Base.{
  ℕ, zero, suc, ◌≡◌, ◌↔◌, refl, sym, Bool, true, false, Option, some, List, [], ◌∷◌, String, str_lt,
  any_of, In, inl, inr, Bool-cases, Option-cases, arith, map-append, ap, subst, ◌∙◌, In-append_left,
  In-append_right,
}
use bdbackup.Base.FilePath.{FilePath, path_eq, path_eq_sound, child_path}
use bdbackup.Base.Sorting.{sort_by, In-sort_by}
use bdbackup.Templates.{Globs}
use bdbackup.FileBackup.{
  Disk, Info, Inode, inode_eq, Selection, Member, Walked, done, stopped, members_of, each,
  hard_excluded, is_excluded, is_opened, is_directory, is_special, emit, make_arcname, visit, walk,
  resolve_path, base_of,
}
use bdbackup.FileBackup.Walk.{each_rule, visit_rule, From, here, down}
use bdbackup.FileBackup.Selected.{arcnames, Belongs, walk-Belongs}

found :
    (a : List String) (ms : List Member)
    → any_of (λ m. path_eq m.arcname a) ms ≡ true
    → In a (arcnames ms)
found a [] h = ground arith
found a (x ∷ ms) h = elim (Bool-cases (path_eq x.arcname a)) [
  | inl e ↦ inl (path_eq_sound x.arcname a e)
  | inr e ↦ inr (found a ms (ground arith))
]

-- If a loop comes to its end, then so did the round of each element, and what it added stays.
each-done :
    {A : Type 0} (P : List Member → Type 0) (f : A → List Member → Walked) (a : A) (xs : List A)
    (ms ns : List Member)
    → each f xs ms ≡ done ns
    → In a xs
    → ((ks ls : List Member) → f a ks ≡ done ls → P ls)
    → ((b : A) (ks : List Member) → P ks → P (members_of (f b ks)))
    → P ns
unfolding each
each-done P f a [] ms ns e m adds keeps = elim m [ ]
each-done {A} P f a (x ∷ xs) ms ns e m adds keeps =
    go (f x ms) refl e m (λ ks. each-done P f a xs ks ns)
  where
    go :
        (w : Walked)
        → f x ms ≡ w
        → (elim w as (λ _. Walked) [ done ks ↦ each f xs ks | stopped ks r ↦ stopped ks r ])
          ≡ done ns
        → In a (x ∷ xs)
        → ((ks : List Member)
            → each f xs ks ≡ done ns
            → In a xs
            → ((ks ls : List Member) → f a ks ≡ done ls → P ls)
            → ((b : A) (ks : List Member) → P ks → P (members_of (f b ks)))
            → P ns)
        → P ns
    go (stopped ks r) q z m rest = cc
    go (done ks) q z (inr m) rest = rest ks z m adds keeps
    go (done ks) q z (inl h) rest =
        subst P (ap members_of z)
          (each_rule P f xs (λ b i. keeps b) ks (adds ms ks (ap (λ y. f y ms) (sym h) ∙ q)))

module _ (g : Globs) (d : Disk) (s : Selection) where
  abbrev Takes : FilePath → Type 0
  Takes path =
      (i : Info) × (d.info path ≡ some i)
      × (is_special i.kind ≡ false)
      × (is_excluded g d s path (is_directory i.kind) ≡ false)

  emit-In :
      (path : FilePath) (base : Option FilePath) (ms : List Member)
      → In (make_arcname path base) (arcnames (emit g d s path base false ms))
  unfolding emit
  emit-In path base ms =
      elim (Bool-cases (any_of (λ m. path_eq m.arcname (make_arcname path base)) ms)) [
        | inl y ↦ rw y (found (make_arcname path base) ms y)
        | inr y ↦
            rw (y, map-append (λ (m : Member). m.arcname) ms _)
              (In-append_right (make_arcname path base) (arcnames ms) _ (inl refl))
      ]

  visit_keeps :
      (a : List String) (fuel : ℕ) (path : FilePath) (ancestors : List Inode)
      (base : Option FilePath) (ms : List Member)
      → In a (arcnames ms)
      → In a (arcnames (members_of (visit g d s fuel path ancestors base ms)))
  visit_keeps a fuel path ancestors base ms m =
      visit_rule g d s (λ ms. In a (arcnames ms)) (λ p b. Unit)
        (λ path base i ms q e k x f m.
          rw (map-append (λ (m : Member). m.arcname) ms _) (In-append_left a (arcnames ms) _ m))
        (λ path base names n q o m. tt) fuel path ancestors base ms tt m

  hard_excluded_of_selected :
      (p : FilePath) (b : Bool) → is_excluded g d s p b ≡ false → hard_excluded g d s p ≡ false
  unfolding is_excluded
  hard_excluded_of_selected p b h = ground arith

  -- The visit of a path that belongs into the archive.
  visit_here :
      (fuel : ℕ) (path : FilePath) (ancestors : List Inode) (base : Option FilePath)
      (ms : List Member)
      → Takes path
      → In
          (make_arcname path base)
          (arcnames (members_of (visit g d s (suc fuel) path ancestors base ms)))
  unfolding visit
  visit_here fuel path ancestors base ms (i, e, k, x) =
      let a = make_arcname path base in
      let p = emit-In path base ms in
      let h : hard_excluded g d s path ≡ false =
        hard_excluded_of_selected path (is_directory i.kind) x in
      elim (Bool-cases (is_opened g d s path i.kind)) [
        | inr o ↦ rw (visit, h, e, k, o, x) p
        | inl o ↦ elim (Bool-cases (any_of (inode_eq i.inode) ancestors)) [
          | inl c ↦ rw (visit, h, e, k, o, c, x) p
          | inr c ↦ elim (Option-cases (d.entries path)) [
            | inl l ↦ rw (visit, h, e, k, o, c, l, x) p
            | inr (names, l) ↦
                rw (visit, h, e, k, o, c, l, x)
                  (each_rule (λ ms. In a (arcnames ms)) _ (sort_by str_lt names)
                    (λ n m ns. visit_keeps a fuel (child_path path n) (i.inode ∷ ancestors) base ns)
                    _ p)
          ]
        ]
      ]

  -- The visit of a directory above it.
  visit-Takes :
      (fuel : ℕ) (path : FilePath) (ancestors : List Inode) (base : Option FilePath)
      (ms ns : List Member) (q : FilePath)
      → visit g d s fuel path ancestors base ms ≡ done ns
      → From g d s path q
      → Takes q
      → In (make_arcname q base) (arcnames ns)
  unfolding visit
  visit-Takes zero path ancestors base ms ns q e f t = cc
  visit-Takes (suc fuel) path ancestors base ms ns q e here t =
      rw (← ap members_of e) (visit_here fuel path ancestors base ms t)
  visit-Takes (suc fuel) path ancestors base ms ns q e (down names n o m f) t =
      elim (Bool-cases (any_of (inode_eq o.info.inode) ancestors)) [
        | inl c ↦ cc (rw (visit, o.selected, o.found, o.plain, o.opened, c) at e)
        | inr c ↦
            each-done (λ ms. In (make_arcname q base) (arcnames ms)) _ n (sort_by str_lt names) _ ns
              (rw (visit, o.selected, o.found, o.plain, o.opened, c, o.listed) at e)
              (In-sort_by str_lt n names m)
              (λ ks ls r.
                visit-Takes fuel (child_path path n) (o.info.inode ∷ ancestors) base ks ls q r f t)
              (λ b ks.
                visit_keeps (make_arcname q base) fuel (child_path path b)
                  (o.info.inode ∷ ancestors) base ks)
      ]

  -- A walk that no error stops yields the name of every path that belongs into the archive.
  walk-In :
      (fuel : ℕ) (ns : List Member) (path : FilePath) (arcname : List String)
      → walk g d s fuel ≡ done ns
      → Belongs g d s path arcname
      → In arcname (arcnames ns)
  unfolding walk
  walk-In fuel ns path arcname e b = rw b.named (
      each-done (λ ms. In (make_arcname path (base_of s b.raw)) (arcnames ms)) _ b.raw
        s.backup_paths [] ns e b.listed
        (λ ks ls r.
          visit-Takes fuel (resolve_path s b.raw) [] (base_of s b.raw) ks ls path r b.reached
            (b.info, b.found, b.plain, b.selected))
        (λ raw ks.
          visit_keeps (make_arcname path (base_of s b.raw)) fuel (resolve_path s raw) []
            (base_of s raw) ks))

  In-arcnames :
      (a : List String) (ms : List Member)
      → In a (arcnames ms)
      → (m : Member) × In m ms × (m.arcname ≡ a)
  In-arcnames a [] i = elim i [ ]
  In-arcnames a (m ∷ ms) (inl e) = (m, inl refl, e)
  In-arcnames a (m ∷ ms) (inr i) = let (x, j, e) = In-arcnames a ms i in (x, inr j, e)

  -- The names that a walk without an error yields are exactly those of the paths that belong into the
  -- archive.
  pub walk-exact :
      (fuel : ℕ) (ns : List Member) (arcname : List String)
      → walk g d s fuel ≡ done ns
      → In arcname (arcnames ns) ↔ ((path : FilePath) × Belongs g d s path arcname)
  walk-exact fuel ns arcname e = (
    λ i.
        let (m, j, q) = In-arcnames arcname ns i in
        let k : In m (members_of (walk g d s fuel)) = rw e j in
        (m.path, subst (λ a. Belongs g d s m.path a) q (walk-Belongs g d s fuel m k)),
    λ (path, b). walk-In fuel ns path arcname e b,
  )
