-- ===== src/FileBackup/Selected.antt =====
-- bdbackup/filebackup.py, `_walk`: which members it yields, and that it ends.
use bdbackup.Base.{
  ℕ, ◌≡◌, refl, false, some, List, [], ◌∷◌, String, any_of, In, inl, inr, arith, map, map-append,
  ap, In-append_cases,
}
use bdbackup.Base.FilePath.{FilePath, path_eq, path_eq_self}
use bdbackup.Base.Unique.{Unique, Unique-snoc}
use bdbackup.Templates.{Globs}
use bdbackup.FileBackup.{
  Disk, Info, Selection, RawPath, Member, members_of, is_excluded, is_directory, is_special,
  make_arcname, walk, resolve_path, base_of,
}
use bdbackup.FileBackup.Walk.{each_rule, visit_rule, From, From-child, here}

abbrev pub arcnames : List Member → List (List String)
arcnames = map (λ m. m.arcname)

-- A name that no member's test finds is not among the names.
fresh :
    (a : List String) (ms : List Member)
    → any_of (λ m. path_eq m.arcname a) ms ≡ false
    → ¬ In a (arcnames ms)
fresh a [] h m = elim m [ ]
fresh a (x ∷ ms) h (inl e) = ground (arith, path_eq_self a, e)
fresh a (x ∷ ms) h (inr m) = fresh a ms (ground arith) m

module _ (g : Globs) (d : Disk) (s : Selection) where
  -- The arcnames of a walk's members are different, also of a walk that an error stops.
  pub walk-Unique : (fuel : ℕ) → Unique (arcnames (members_of (walk g d s fuel)))
  unfolding walk
  walk-Unique fuel =
      each_rule (λ ms. Unique (arcnames ms)) _ s.backup_paths
        (λ raw m ms u.
          visit_rule g d s (λ ms. Unique (arcnames ms)) (λ p b. Unit)
            (λ path base i ms q e k x f u.
              rw (map-append (λ (m : Member). m.arcname) ms _)
                (Unique-snoc (make_arcname path base) (arcnames ms) u (fresh _ ms f)))
            (λ path base names n q o m. tt) fuel (resolve_path s raw) [] (base_of s raw) ms tt u)
        [] tt

  -- A path that belongs into the archive, and its name there: the walk comes to it from an entry of
  -- the template, it is there, and is no special file and not excluded.
  pub record Belongs (path : FilePath) (arcname : List String) : Type 0 where
    pub raw : RawPath
    pub listed : In raw s.backup_paths
    pub reached : From g d s (resolve_path s raw) path
    pub named : arcname ≡ make_arcname path (base_of s raw)
    pub info : Info
    pub found : d.info path ≡ some info
    pub plain : is_special info.kind ≡ false
    pub selected : is_excluded g d s path (is_directory info.kind) ≡ false

  abbrev AllBelong : List Member → Type 0
  AllBelong ms = (m : Member) → In m ms → Belongs m.path m.arcname

  -- Every member of a walk belongs into the archive.
  pub walk-Belongs :
      (fuel : ℕ) (m : Member) → In m (members_of (walk g d s fuel)) → Belongs m.path m.arcname
  unfolding walk
  walk-Belongs fuel =
      each_rule AllBelong _ s.backup_paths
        (λ raw l ms u.
          visit_rule g d s AllBelong
            (λ p b. From g d s (resolve_path s raw) p × (b ≡ base_of s raw))
            (λ path base i ms q e k x f all m member. elim (In-append_cases m ms _ member) [
              | inl old ↦ all m old
              | inr (inl n) ↦ rw (← n) (record {
                raw = raw;
                listed = l;
                reached = q.0;
                named = ap (make_arcname path) q.1;
                info = i;
                found = e;
                plain = k;
                selected = x;
              })
              | inr (inr n) ↦ elim n [ ]
            ])
            (λ path base names n q o m. (From-child g d s names n q.0 o m, q.1)) fuel
            (resolve_path s raw) [] (base_of s raw) ms (here, refl) u)
        [] (λ m n. elim n [ ])
