-- ===== src/FileBackup/Restore.antt =====
-- bdbackup/filebackup.py: the extraction of an archive. `tarfile.data_filter` and the extraction of
-- one member are parameters.
use bdbackup.Base.{
  ℕ, ◌≡◌, ◌<◌, refl, ap, Bool, true, false, ◌||◌, Option, none, some, List, [], ◌∷◌, String, str_eq,
  if◌then◌else◌, any_of, ◌%◌, ◌^◌, arith, In, inl, inr, Bool-cases, Option-cases, eq_iff, ◌≢◌, ◌⊎◌,
  ◌∙◌,
}

-- `TarInfo`; its name is given by its parts, and by whether it starts with a slash.
pub record TarInfo : Type 0 where
  pub absolute : Bool
  pub parts : List String
  pub is_dir : Bool
  pub mode : ℕ

-- `data_filter`, with none for a `FilterError`, and whether the extraction of a member works.
pub record TarCalls : Type 0 where
  pub data_filter : TarInfo → Option TarInfo
  pub extract : TarInfo → Bool

module _ (c : TarCalls) where
  -- `_restore_filter`, with none for the error.
  unfoldable pub restore_filter : TarInfo → Option TarInfo
  restore_filter m =
      if m.absolute || any_of (λ p. str_eq p "..") m.parts then none else elim (c.data_filter m) [
        | none ↦ none
        | some f ↦ some (if f.is_dir then record f { mode = m.mode % 2 ^ 9 } else f)
      ]

  -- What `restore_archive` extracts, and whether it returns: the first error ends it.
  pub record Extracted : Type 0 where
    pub members : List TarInfo
    pub returned : Bool

  unfoldable pub restore_archive : List TarInfo → Extracted
  unfolding restore_filter
  restore_archive [] = record { members = []; returned = true }
  restore_archive (m ∷ ms) =
      let rest = restore_archive ms in
      elim (restore_filter m) [
        | none ↦ record { members = []; returned = false }
        | some f ↦
            if c.extract f
            then record { members = f ∷ rest.members; returned = rest.returned }
            else record { members = []; returned = false }
      ]

  -- A name that stays below the destination.
  abbrev pub IsSafeName : TarInfo → Type 0
  IsSafeName m = (m.absolute ≡ false) × ((p : String) → In p m.parts → p ≢ "..")

  no_dots :
      (ps : List String)
      → any_of (λ p. str_eq p "..") ps ≡ false
      → (p : String) → In p ps
      → p ≢ ".."
  no_dots [] h p m = elim m [ ]
  no_dots (q ∷ ps) h p (inl e) = ground (arith, eq_iff q "..", e)
  no_dots (q ∷ ps) h p (inr m) = no_dots ps (ground arith) p m

  -- What an extracted member is: the filter's result for a member of the archive with a safe name,
  -- and a directory has ordinary permissions only.
  abbrev pub Admitted : List TarInfo → TarInfo → Type 0
  Admitted ms f =
      (m : TarInfo) × In m ms
      × IsSafeName m
      × (restore_filter m ≡ some f)
      × (f.is_dir ≡ true → f.mode < 2 ^ 9)

  restore_filter-Admitted :
      (m f : TarInfo) (ms : List TarInfo) → restore_filter m ≡ some f → Admitted (m ∷ ms) f
  unfolding restore_filter
  restore_filter-Admitted m f ms h = (
    m,
    inl refl,
    (ground arith, no_dots m.parts (ground arith)),
    h,
    λ d. elim (Option-cases (c.data_filter m)) [
      | inl n ↦ absurd (ground arith)
      | inr (g, n) ↦ permissions g n d
    ],
  )
    where
      permissions : (g : TarInfo) → c.data_filter m ≡ some g → f.is_dir ≡ true → f.mode < 2 ^ 9
      permissions g n d = elim (Bool-cases g.is_dir) [
        | inl q ↦
            let e : record g { mode = m.mode % 2 ^ 9 } ≡ f = ground arith in
            omega (arith, ap (λ (t : TarInfo). t.mode) e)
        | inr q ↦ absurd (ground (arith, d))
      ]

  -- Every member that is extracted, also before an error, is admitted.
  pub restore_archive-Admitted :
      (ms : List TarInfo) (f : TarInfo) → In f (restore_archive ms).members → Admitted ms f
  unfolding restore_archive
  restore_archive-Admitted [] f i = elim i [ ]
  restore_archive-Admitted (m ∷ ms) f i = elim (Option-cases (restore_filter m)) [
    | inl n ↦ elim (rw (restore_archive, n) at i) [ ]
    | inr (g, n) ↦ elim (Bool-cases (c.extract g)) [
      | inr x ↦ elim (rw (restore_archive, n, x) at i) [ ]
      | inl x ↦ go g n (rw (restore_archive, n, x) at i) (restore_archive-Admitted ms f)
    ]
  ]
    where
      go :
          (g : TarInfo)
          → restore_filter m ≡ some g
          → (g ≡ f) ⊎ In f (restore_archive ms).members
          → (In f (restore_archive ms).members → Admitted ms f)
          → Admitted (m ∷ ms) f
      go g n (inl e) rest = restore_filter-Admitted m f ms (n ∙ ap some e)
      go g n (inr k) rest = let (x, l, s, r, d) = rest k in (x, inr l, s, r, d)
