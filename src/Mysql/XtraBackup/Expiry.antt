-- ===== src/Mysql/XtraBackup/Expiry.antt =====
-- What `prune` may remove.
use bdbackup.Base.{
  ℕ, ◌-◌, ◌<◌, ◌≡◌, subst, inl, inr, ◌⊎◌, ◌≢◌, true, some, List, [], eq_iff, arith, In, In-keep_if,
  ◌==◌, leb, ==_iff, Bool-cases, Option-cases, ltb→lt,
}
use bdbackup.Mysql.XtraBackup.{BackupDir, ok}
use bdbackup.Mysql.XtraBackup.Dates.{DateDir, latest_date_dir, latest_full, expires, prune}
use bdbackup.Mysql.XtraBackup.Chain.{Result-cases}

expires-true :
    (newest : DateDir) (cut : ℕ) (d : DateDir)
    → expires newest cut d ≡ true
    → (d.name ≢ newest.name)
      × (d.has_success ≡ true)
      × ((day : ℕ) × (d.day ≡ some day) × (day < cut))
unfolding expires
expires-true newest cut d h = (
  ground (arith, eq_iff d.name newest.name),
  ground arith,
  elim (Option-cases d.day) [
    | inl n ↦ absurd (ground arith)
    | inr (day, e) ↦ (day, e, ltb→lt day cut (ground arith))
  ],
)

-- `prune` removes only what it may. If it returns, then either the retention is 0 and nothing is
-- removed, or there is a newest full, it is usable, and every removed directory is one of the
-- root's, is not the newest's, holds a finished full, and its day is before the cutoff.
pub prune-removes :
    (retention today : ℕ) (ds removed : List DateDir)
    → prune retention today ds ≡ ok removed
    → ((retention ≡ 0) × (removed ≡ []))
      ⊎ ((newest : DateDir) × (full : BackupDir) × (latest_date_dir ds ≡ some newest)
          × (latest_full ds ≡ ok full)
          × ((d : DateDir)
              → In d removed
              → In d ds
                × (d.name ≢ newest.name)
                × (d.has_success ≡ true)
                × ((day : ℕ) × (d.day ≡ some day) × (day < today - (retention - 1)))))
unfolding prune
prune-removes retention today ds removed h = elim (Bool-cases (retention == 0)) [
  | inl z ↦ inl ((==_iff retention 0).0 z, ground arith)
  | inr p ↦ elim (Option-cases (latest_date_dir ds)) [
    | inl n ↦ absurd (ground arith)
    | inr (newest, n) ↦ elim (Result-cases (latest_full ds)) [
      | inr (e, q) ↦ absurd (ground arith)
      | inl (full, q) ↦ elim (Bool-cases (leb today (retention - 1))) [
        | inl early ↦ absurd (ground arith)
        | inr early ↦ inr (
          newest,
          full,
          n,
          q,
          λ d m.
              let cut = today - (retention - 1) in
              let (i, x) = In-keep_if (expires newest cut) d ds (subst (In d) (ground arith) m) in
              let (a, b, c) = expires-true newest cut d x in (i, a, b, c),
        )
      ]
    ]
  ]
]
