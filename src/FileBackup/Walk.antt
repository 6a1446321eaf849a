-- ===== src/FileBackup/Walk.antt =====
-- bdbackup/filebackup.py, `_walk`: what its rounds keep, and the paths that it goes to.
use bdbackup.Base.{
  ℕ, zero, suc, ◌≡◌, refl, true, false, Option, some, List, [], ◌∷◌, ◌++◌, String, str_lt, any_of,
  In, inl, inr, Bool-cases, Option-cases,
}
use bdbackup.Base.FilePath.{FilePath, path_eq, child_path}
use bdbackup.Base.Sorting.{sort_by, sort_by-In}
use bdbackup.Templates.{Globs}
use bdbackup.FileBackup.{
  Disk, Info, Inode, inode_eq, Selection, Member, Walked, done, stopped, members_of, each,
  hard_excluded, is_excluded, is_opened, is_directory, is_special, emit, make_arcname, visit,
}

-- A loop keeps what each of its rounds keeps.
pub each_rule :
    {A : Type 0} (P : List Member → Type 0) (f : A → List Member → Walked) (xs : List A)
    → ((a : A) → In a xs → (ms : List Member) → P ms → P (members_of (f a ms)))
    → (ms : List Member) → P ms
    → P (members_of (each f xs ms))
unfolding each
each_rule P f [] keep ms p = p
each_rule P f (a ∷ xs) keep ms p =
    go (f a ms) (keep a (inl refl) ms p) (each_rule P f xs (λ b m. keep b (inr m)))
  where
    go :
        (w : Walked)
        → P (members_of w)
        → ((ns : List Member) → P ns → P (members_of (each f xs ns)))
        → P (members_of (elim w [ done ns ↦ each f xs ns | stopped ns e ↦ stopped ns e ]))
    go (done ns) q rest = rest ns q
    go (stopped ns e) q rest = q

module _ (g : Globs) (d : Disk) (s : Selection) where
  -- The visit of a path goes into it and finds these names.
  pub record Opens (path : FilePath) (names : List String) : Type 0 where
    pub info : Info
    pub found : d.info path ≡ some info
    pub plain : is_special info.kind ≡ false
    pub selected : hard_excluded g d s path ≡ false
    pub opened : is_opened g d s path info.kind ≡ true
    pub listed : d.entries path ≡ some names

  -- The paths that a visit of the first path goes to.
  pub data From : FilePath → FilePath → Type 0 where
    here : {p : FilePath} → From p p
    down :
        {p q : FilePath} (names : List String) (n : String)
        → Opens p names
        → In n names
        → From (child_path p n) q
        → From p q

  pub From-child :
      {p q : FilePath} (names : List String) (n : String)
      → From p q
      → Opens q names
      → In n names
      → From p (child_path q n)
  From-child names n here o m = down names n o m here
  From-child names n (down ks k a b f) o m = down ks k a b (From-child names n f o m)

  -- What the members satisfy is kept by a visit, if a new member keeps it. `Q` is what is known of
  -- the paths that are visited.
  module _ (P : List Member → Type 0) (Q : FilePath → Option FilePath → Type 0)
      (keep : (path : FilePath) (base : Option FilePath) (i : Info) (ms : List Member)
        → Q path base
        → d.info path ≡ some i
        → is_special i.kind ≡ false
        → is_excluded g d s path (is_directory i.kind) ≡ false
        → any_of (λ m. path_eq m.arcname (make_arcname path base)) ms ≡ false
        → P ms
        → P (ms ++ (record { path = path; arcname = make_arcname path base } ∷ [])))
      (enter : (path : FilePath) (base : Option FilePath) (names : List String) (n : String)
        → Q path base
        → Opens path names
        → In n names
        → Q (child_path path n) base) where
    emit_rule :
        (path : FilePath) (base : Option FilePath) (i : Info) (ms : List Member)
        → Q path base
        → d.info path ≡ some i
        → is_special i.kind ≡ false
        → P ms
        → P (emit g d s path base (is_excluded g d s path (is_directory i.kind)) ms)
    unfolding emit
    emit_rule path base i ms q e k p =
        elim (Bool-cases (is_excluded g d s path (is_directory i.kind))) [
          | inl x ↦ rw x p
          | inr x ↦
              elim (Bool-cases (any_of (λ m. path_eq m.arcname (make_arcname path base)) ms)) [
                | inl y ↦ rw (x, y) p
                | inr y ↦ rw (x, y) (keep path base i ms q e k x y p)
              ]
        ]

    pub visit_rule :
        (fuel : ℕ) (path : FilePath) (ancestors : List Inode) (base : Option FilePath)
        (ms : List Member)
        → Q path base
        → P ms
        → P (members_of (visit g d s fuel path ancestors base ms))
    unfolding visit
    visit_rule zero path ancestors base ms q p = p
    visit_rule (suc fuel) path ancestors base ms q p =
        elim (Bool-cases (hard_excluded g d s path)) [
          | inl h ↦ rw (visit, h) p
          | inr h ↦ elim (Option-cases (d.info path)) [
            | inl e ↦ rw (visit, h, e) p
            | inr (i, e) ↦ elim (Bool-cases (is_special i.kind)) [
              | inl k ↦ rw (visit, h, e, k) p
              | inr k ↦
                  let p' = emit_rule path base i ms q e k p in
                  elim (Bool-cases (is_opened g d s path i.kind)) [
                    | inr o ↦ rw (visit, h, e, k, o) p'
                    | inl o ↦ elim (Bool-cases (any_of (inode_eq i.inode) ancestors)) [
                      | inl c ↦ rw (visit, h, e, k, o, c) p'
                      | inr c ↦ elim (Option-cases (d.entries path)) [
                        | inl l ↦ rw (visit, h, e, k, o, c, l) p'
                        | inr (names, l) ↦
                            let opens : Opens path names = record {
                              info = i;
                              found = e;
                              plain = k;
                              selected = h;
                              opened = o;
                              listed = l;
                            } in
                            rw (visit, h, e, k, o, c, l)
                              (each_rule P _ (sort_by str_lt names)
                                (λ n m ns r.
                                  visit_rule fuel (child_path path n) (i.inode ∷ ancestors) base ns
                                    (enter path base names n q opens (sort_by-In str_lt n names m))
                                    r)
                                _ p')
                      ]
                    ]
                  ]
            ]
          ]
        ]
