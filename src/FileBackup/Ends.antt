-- ===== src/FileBackup/Ends.antt =====
-- bdbackup/filebackup.py, `_walk`: how deep a walk goes. The inodes of the directories above a path
-- are different, so there are no more of them than the disk has.
use bdbackup.Base.{
  ℕ, zero, suc, ◌+◌, ◌<◌, ◌≡◌, ◌≢◌, refl, Bool, true, false, Option, some, List, [], ◌∷◌, str_lt,
  any_of, In, inl, inr, Bool-cases, Option-cases, arith, length, ==_iff,
}
use bdbackup.Base.FilePath.{FilePath, child_path}
use bdbackup.Base.Sorting.{sort_by}
use bdbackup.Base.Unique.{Unique, length-le_of_Unique}
use bdbackup.Templates.{Globs}
use bdbackup.FileBackup.{
  Disk, Info, Inode, inode_eq, Selection, Member, Walked, done, stopped, each, hard_excluded,
  is_opened, is_directory, is_special, visit, walk, resolve_path, base_of, out_of_fuel,
}

abbrev fuel_left : Walked → Bool
fuel_left (stopped ms out_of_fuel) = false
fuel_left _ = true

each-ends :
    {A : Type 0} (f : A → List Member → Walked) (xs : List A)
    → ((a : A) (ms : List Member) → fuel_left (f a ms) ≡ true)
    → (ms : List Member) → fuel_left (each f xs ms) ≡ true
unfolding each
each-ends f [] h ms = refl
each-ends {A} f (x ∷ xs) h ms = go (f x ms) (h x ms) (each-ends f xs h)
  where
    go :
        (w : Walked)
        → fuel_left w ≡ true
        → ((ns : List Member) → fuel_left (each f xs ns) ≡ true)
        → fuel_left (elim w [ done ns ↦ each f xs ns | stopped ns e ↦ stopped ns e ]) ≡ true
    go (done ns) q rest = rest ns
    go (stopped ns e) q rest = q

new_inode : (i : Inode) (js : List Inode) → any_of (inode_eq i) js ≡ false → ¬ In i js
new_inode i [] h m = elim m [ ]
new_inode i (j ∷ js) h (inl e) =
    ground (arith, ==_iff i.device j.device, ==_iff i.number j.number, e)
new_inode i (j ∷ js) h (inr m) = new_inode i js (ground arith) m

module _ (g : Globs) (d : Disk) (s : Selection) where
  directory_of_opened :
      (path : FilePath) (i : Info) → is_opened g d s path i.kind ≡ true → is_directory i.kind ≡ true
  unfolding is_opened
  directory_of_opened path i h = ground arith

  module _ (inodes : List Inode)
      (known : (path : FilePath) (i : Info)
        → d.info path ≡ some i
        → is_directory i.kind ≡ true
        → In i.inode inodes) where
    visit-ends :
        (fuel : ℕ) (path : FilePath) (above : List Inode) (base : Option FilePath)
        (ms : List Member)
        → Unique above
        → ((i : Inode) → In i above → In i inodes)
        → length inodes < fuel + length above
        → fuel_left (visit g d s fuel path above base ms) ≡ true
    unfolding visit
    visit-ends zero path above base ms u k l =
        absurd (omega (arith, length-le_of_Unique above inodes u k))
    visit-ends (suc fuel) path above base ms u k l = elim (Bool-cases (hard_excluded g d s path)) [
      | inl h ↦ rw (visit, h) refl
      | inr h ↦ elim (Option-cases (d.info path)) [
        | inl e ↦ rw (visit, h, e) refl
        | inr (i, e) ↦ elim (Bool-cases (is_special i.kind)) [
          | inl t ↦ rw (visit, h, e, t) refl
          | inr t ↦ elim (Bool-cases (is_opened g d s path i.kind)) [
            | inr o ↦ rw (visit, h, e, t, o) refl
            | inl o ↦ elim (Bool-cases (any_of (inode_eq i.inode) above)) [
              | inl c ↦ rw (visit, h, e, t, o, c) refl
              | inr c ↦ elim (Option-cases (d.entries path)) [
                | inl n ↦ rw (visit, h, e, t, o, c, n) refl
                | inr (names, n) ↦
                    rw (visit, h, e, t, o, c, n)
                      (each-ends _ (sort_by str_lt names)
                        (λ name ns.
                          visit-ends fuel (child_path path name) (i.inode ∷ above) base ns
                            (new_inode i.inode above c, u)
                            (λ j m. elim m [
                              | inl q ↦ rw (← q) (known path i e (directory_of_opened path i o))
                              | inr r ↦ k j r
                            ])
                            (omega arith))
                        _)
              ]
            ]
          ]
        ]
      ]
    ]

    -- A walk ends: if each directory of the disk has one of n inodes, a walk goes at most n + 1 deep,
    -- also where links lead in a circle.
    pub walk-ends : (ms : List Member) → walk g d s (suc (length inodes)) ≢ stopped ms out_of_fuel
    unfolding walk
    walk-ends ms e = cc (
      each-ends (λ raw. visit g d s (suc (length inodes)) (resolve_path s raw) [] (base_of s raw))
          s.backup_paths
          (λ raw ns.
            visit-ends (suc (length inodes)) (resolve_path s raw) [] (base_of s raw) ns tt
              (λ i m. elim m [ ]) (omega arith))
          [],
      e,
    )
