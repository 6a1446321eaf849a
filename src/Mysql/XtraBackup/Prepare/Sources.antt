-- ===== src/Mysql/XtraBackup/Prepare/Sources.antt =====
-- bdbackup/mysql/xtrabackup.py, `prepare`: which sources a recovery copy is made of.
use bdbackup.Base.{
  ◌≡◌, ◌≢◌, refl, subst, inl, inr, ◌⊎◌, Option, none, some, List, [], ◌∷◌, ◌++◌, ap, Perm, All,
  arith, Bool-cases, Option-cases,
}
use bdbackup.Base.FilePath.{FilePath, path_eq, path_eq_sound}
use bdbackup.Mysql.XtraBackup.{
  BackupDir, BackupType, Checkpoints, Metadata, full_backuped, incremental, log_applied,
  full_prepared, other, Result, ok, err, ◌>>=◌, checkpoints, metadata, chain, not_committed,
  escapes_root, already_prepared,
}
use bdbackup.Mysql.XtraBackup.Chain.{
  IsLinked, IsIncrementalOf, committed, chain-IsLinked, bind-eq-ok,
}
use bdbackup.Mysql.XtraBackup.Prepare.{up_to, sources, chain_sources, last_of}

abbrev IsPrefix : List BackupDir → List BackupDir → Type 0
IsPrefix es ds = (later : List BackupDir) × (ds ≡ es ++ later)

-- The part of a chain up to a backup is linked, it ends with that backup, and the rest comes later.
abbrev Reaches : FilePath → BackupDir → List BackupDir → List BackupDir → Type 0
Reaches p full ds es = IsLinked full es × ((last_of full es).path ≡ p) × (es ≢ []) × IsPrefix es ds

up_to-Reaches :
    (p : FilePath) (full : BackupDir) (ds es : List BackupDir)
    → up_to p ds ≡ some es
    → IsLinked full ds
    → Reaches p full ds es
unfolding up_to
up_to-Reaches p full [] es h l = absurd (ground arith)
up_to-Reaches p full (d ∷ ds) es h l = elim (Bool-cases (path_eq d.path p)) [
  | inl q ↦
      subst (Reaches p full (d ∷ ds)) {x = d ∷ []} (ground arith)
        ((l.0, tt), path_eq_sound d.path p q, (λ e. cc), (ds, refl))
  | inr q ↦ elim (Option-cases (up_to p ds)) [
    | inl n ↦ absurd (ground arith)
    | inr (fs, n) ↦
        let (linked, ends, filled, rest) = up_to-Reaches p d ds fs n l.1 in
        let (later, e) = rest in
        subst (Reaches p full (d ∷ ds)) {x = d ∷ fs} (ground arith)
          ((l.0, linked), ends, (λ e. cc), (later, ap (◌∷◌ d) e))
  ]
]

module _ (full_at : FilePath → Option (BackupDir × List BackupDir)) where
  -- The sources up to an incremental: what stands where its metadata says that its full is, and a line
  -- of incrementals of that full up to the one that was asked for, each continuing the one before it.
  -- With the later ones these are the committed entries, each exactly once.
  abbrev pub FromFull : BackupDir → List BackupDir → Type 0
  FromFull source ds =
      (m : Metadata) × (full : BackupDir) × (entries : List BackupDir) × (es : List BackupDir)
      × (later : List BackupDir) × (metadata source ≡ ok m)
      × (full_at m.full ≡ some (full, entries))
      × (ds ≡ full ∷ es)
      × (es ≢ [])
      × IsLinked full es
      × ((last_of full es).path ≡ source.path)
      × Perm (committed entries) (es ++ later)
      × All (IsIncrementalOf full.path) (es ++ later)

  -- The sources lead to the backup that was asked for: an original full backup alone, and an
  -- incremental through its full and the incrementals between them.
  abbrev pub LeadTo : BackupDir → List BackupDir → Type 0
  LeadTo source ds =
      (c : Checkpoints) × (checkpoints source ≡ ok c)
      × (((c.backup_type ≡ full_backuped) × (ds ≡ source ∷ []))
          ⊎ ((c.backup_type ≡ incremental) × FromFull source ds))

  chain_sources-FromFull :
      (source : BackupDir) (ds : List BackupDir)
      → chain_sources full_at source ≡ ok ds
      → FromFull source ds
  unfolding chain_sources
  chain_sources-FromFull source ds h =
      let (m, q, r) = bind-eq-ok (metadata source) _ ds h in at_full m q (full_at m.full) refl r
    where
      reached :
          (m : Metadata) (full : BackupDir) (entries es : List BackupDir)
          (o : Option (List BackupDir))
          → metadata source ≡ ok m
          → full_at m.full ≡ some (full, entries)
          → chain full entries ≡ ok es
          → up_to source.path es ≡ o
          → elim o as (λ _. Result (List BackupDir)) [
            | none ↦ err not_committed
            | some fs ↦ ok (full ∷ fs)
          ]
            ≡ ok ds
          → FromFull source ds
      reached m full entries es none q p a e k = absurd (ground arith)
      reached m full entries es (some fs) q p a e k =
          let (linked, perm, own) = chain-IsLinked full entries es a in
          let (part, ends, filled, rest) = up_to-Reaches source.path full es fs e linked in
          let (later, split) = rest in
          (
            m,
            full,
            entries,
            fs,
            later,
            q,
            p,
            ground arith,
            filled,
            part,
            ends,
            subst (λ l. Perm (committed entries) l) split perm,
            subst (All (IsIncrementalOf full.path)) split own,
          )

      at_full :
          (m : Metadata)
          → metadata source ≡ ok m
          → (o : Option (BackupDir × List BackupDir)) → full_at m.full ≡ o
          → (elim o [
            | none ↦ err escapes_root
            | some (full, entries) ↦ chain full entries >>= λ es. elim (up_to source.path es) [
              | none ↦ err not_committed
              | some fs ↦ ok (full ∷ fs)
            ]
          ])
            ≡ ok ds
          → FromFull source ds
      at_full m q none p k = absurd (ground arith)
      at_full m q (some (full, entries)) p k =
          let (es, a, b) = bind-eq-ok (chain full entries) _ ds k in
          reached m full entries es (up_to source.path es) q p a refl b

  pub sources-LeadTo :
      (source : BackupDir) (ds : List BackupDir) → sources full_at source ≡ ok ds → LeadTo source ds
  unfolding sources
  sources-LeadTo source ds h =
      let (c, q, r) = bind-eq-ok (checkpoints source) _ ds h in (c, q, by_type c.backup_type r)
    where
      by_type :
          (t : BackupType)
          → (elim t [
            | incremental ↦ chain_sources full_at source
            | full_backuped ↦ ok (source ∷ [])
            | _ ↦ err already_prepared
          ])
            ≡ ok ds
          → ((t ≡ full_backuped) × (ds ≡ source ∷ [])) ⊎ ((t ≡ incremental) × FromFull source ds)
      by_type full_backuped r = inl (refl, ground arith)
      by_type incremental r = inr (refl, chain_sources-FromFull source ds r)
      by_type log_applied r = absurd (ground arith)
      by_type full_prepared r = absurd (ground arith)
      by_type other r = absurd (ground arith)
