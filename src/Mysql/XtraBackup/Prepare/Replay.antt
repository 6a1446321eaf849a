-- ===== src/Mysql/XtraBackup/Prepare/Replay.antt =====
-- bdbackup/mysql/xtrabackup.py, `prepare`: in which order and with which options the tool works on the
-- sources.
use bdbackup.Base.{
  ℕ, suc, ◌+◌, ◌-◌, ◌≡◌, refl, ap, subst, ◌∙◌, inl, inr, Bool, true, false, not, ◌&&◌, ◌||◌, Option,
  none, some, List, [], ◌∷◌, ◌++◌, arith, length, Bool-cases, Option-cases, ltb, if◌then◌else◌,
  append_assoc, append-nil,
}
use bdbackup.Base.FilePath.{FilePath}
use bdbackup.Mysql.XtraBackup.{
  BackupDir, Checkpoints, ok, raise_if, checkpoints, still_encrypted, copy_failed, has_symlinks,
  destination_exists, inside_root, lock_held, check_failed,
}
use bdbackup.Mysql.XtraBackup.Chain.{bind-eq-ok}
use bdbackup.Mysql.XtraBackup.Prepare.{
  sources, Command, decrypt, decompress, apply, Surroundings, Destination, run_tool, check_key,
  decrypt_copy, copy_source, copy_sources, apply_rest, apply_all, check_point, Recovered, last_of,
  recover, prepare,
}
use bdbackup.Mysql.XtraBackup.Prepare.Sources.{LeadTo, sources-LeadTo}

-- The runs of `--prepare` in a log, in their order.
abbrev applied : List Command → List (Option ℕ × Bool)
applied [] = []
applied (apply i b ∷ cs) = (i, b) ∷ applied cs
applied (_ ∷ cs) = applied cs

applied-append : (xs ys : List Command) → applied (xs ++ ys) ≡ applied xs ++ applied ys
applied-append [] ys = refl
applied-append (apply i b ∷ xs) ys = ap (λ r. (i, b) ∷ r) (applied-append xs ys)
applied-append (decrypt i ∷ xs) ys = applied-append xs ys
applied-append (decompress i ∷ xs) ys = applied-append xs ys

-- The incrementals from index `i` on, each once and in order; all but the last with the option that
-- leaves the uncommitted transactions for the next one.
abbrev pub replay_rest : Bool → ℕ → List BackupDir → List (Option ℕ × Bool)
replay_rest keep i [] = []
replay_rest keep i (d ∷ []) = (some i, false) ∷ []
replay_rest keep i (d ∷ e ∷ ds) = (some i, keep) ∷ replay_rest keep (suc i) (e ∷ ds)

abbrev pub replay : Bool → List BackupDir → List (Option ℕ × Bool)
replay keep [] = []
replay keep (d ∷ []) = (none, false) ∷ []
replay keep (d ∷ e ∷ ds) = (none, keep) ∷ replay_rest keep 1 (e ∷ ds)

module _ (w : Surroundings) where
  run_tool-ok :
      (c : Command) (log out : List Command) → run_tool w c log ≡ ok out → out ≡ log ++ (c ∷ [])
  run_tool-ok c log out h = ground arith

  -- Decryption and decompression are no part of the replay.
  run_tool-applied :
      (c : Command) (log out : List Command)
      → run_tool w c log ≡ ok out
      → applied out ≡ applied log ++ applied (c ∷ [])
  run_tool-applied c log out h = rw (run_tool-ok c log out h) (applied-append log (c ∷ []))

  decrypt_copy-applied :
      (i : ℕ) (d : BackupDir) (log out : List Command)
      → decrypt_copy w i d log ≡ ok out
      → applied out ≡ applied log
  unfolding decrypt_copy
  decrypt_copy-applied i d log out h = elim (Option-cases w.key_id) [
    | inl n ↦ absurd (ground arith)
    | inr (key, n) ↦
        let (_, a, h1) = bind-eq-ok (check_key w d key) _ out (rw (decrypt_copy, n) at h) in
        let (after, b, h2) = bind-eq-ok (run_tool w (decrypt i) log) _ out h1 in
        let (_, e, h3) = bind-eq-ok (raise_if (w.xbcrypt_left d) still_encrypted) _ out h2 in
        ground (arith, run_tool-applied (decrypt i) log after b, append-nil (applied log))
  ]

  copy_source-applied :
      (i : ℕ) (d : BackupDir) (log out : List Command)
      → copy_source w i d log ≡ ok out
      → applied out ≡ applied log
  unfolding copy_source
  copy_source-applied i d log out h =
      let (_, a, h1) = bind-eq-ok (raise_if (not (w.copies d)) copy_failed) _ out h in
      let (_, b, h2) = bind-eq-ok (raise_if (w.symlinks d) has_symlinks) _ out h1 in
      let (plain, e, h3) =
        bind-eq-ok (if w.xbcrypt d then decrypt_copy w i d log else ok log) _ out h2 in
      last plain h3 ∙ middle (w.xbcrypt d) plain e
    where
      middle :
          (b : Bool) (plain : List Command)
          → (if b then decrypt_copy w i d log else ok log) ≡ ok plain
          → applied plain ≡ applied log
      middle true plain k = decrypt_copy-applied i d log plain k
      middle false plain k = ground arith

      last :
          (plain : List Command)
          → (if w.compressed d then run_tool w (decompress i) plain else ok plain) ≡ ok out
          → applied out ≡ applied plain
      last plain k = elim (Bool-cases (w.compressed d)) [
        | inl t ↦
            run_tool-applied (decompress i) plain out (ground arith) ∙ append-nil (applied plain)
        | inr t ↦ ground arith
      ]

  copy_sources-applied :
      (i : ℕ) (ds : List BackupDir) (log out : List Command)
      → copy_sources w i ds log ≡ ok out
      → applied out ≡ applied log
  unfolding copy_sources
  copy_sources-applied i [] log out h = ground arith
  copy_sources-applied i (d ∷ ds) log out h =
      let (after, a, k) = bind-eq-ok (copy_source w i d log) _ out h in
      copy_sources-applied (suc i) ds after out k ∙ copy_source-applied i d log after a

  apply_rest-applied :
      (count i : ℕ) (ds : List BackupDir) (log out : List Command)
      → count ≡ i + length ds
      → apply_rest w count i ds log ≡ ok out
      → applied out ≡ applied log ++ replay_rest (not w.is_mariadb) i ds
  unfolding apply_rest
  apply_rest-applied count i [] log out n h = ground (arith, append-nil (applied log))
  apply_rest-applied count i (d ∷ []) log out n h =
      let f : ltb i (count - 1) ≡ false = ground arith in
      let (after, a, k) = bind-eq-ok (run_tool w _ log) _ out h in
      ground (arith, run_tool-applied _ log after a)
  apply_rest-applied count i (d ∷ e ∷ ds) log out n h =
      let f : ltb i (count - 1) ≡ true = ground arith in
      let run = apply (some i) (ltb i (count - 1) && not w.is_mariadb) in
      let (after, a, k) = bind-eq-ok (run_tool w run log) _ out h in
      let rest = apply_rest-applied count (suc i) (e ∷ ds) after out (omega (arith, n)) k in
      let step : applied after ≡ applied log ++ ((some i, not w.is_mariadb) ∷ []) =
        rw f at (run_tool-applied run log after a) in
      rest
      ∙ ap (λ r. r ++ replay_rest (not w.is_mariadb) (suc i) (e ∷ ds)) step
      ∙ append_assoc (applied log) ((some i, not w.is_mariadb) ∷ [])
          (replay_rest (not w.is_mariadb) (suc i) (e ∷ ds))

  apply_all-applied :
      (ds : List BackupDir) (log out : List Command)
      → apply_all w ds log ≡ ok out
      → applied out ≡ applied log ++ replay (not w.is_mariadb) ds
  unfolding apply_all apply_rest
  apply_all-applied [] log out h = ground (arith, append-nil (applied log))
  apply_all-applied (d ∷ []) log out h =
      let (after, a, k) = bind-eq-ok (run_tool w (apply none false) log) _ out h in
      ground (arith, run_tool-applied (apply none false) log after a)
  apply_all-applied (d ∷ e ∷ ds) log out h =
      let count = length (d ∷ e ∷ ds) in
      let f : ltb 1 count ≡ true = ground arith in
      let run = apply none (ltb 1 count && not w.is_mariadb) in
      let (after, a, k) = bind-eq-ok (run_tool w run log) _ out h in
      let rest = apply_rest-applied count 1 (e ∷ ds) after out (omega arith) k in
      let step : applied after ≡ applied log ++ ((none, not w.is_mariadb) ∷ []) =
        rw f at (run_tool-applied run log after a) in
      rest
      ∙ ap (λ r. r ++ replay_rest (not w.is_mariadb) 1 (e ∷ ds)) step
      ∙ append_assoc (applied log) ((none, not w.is_mariadb) ∷ [])
          (replay_rest (not w.is_mariadb) 1 (e ∷ ds))

  -- The first copy ends where the last source ends.
  abbrev pub EndsAt : BackupDir → List Command → Type 0
  EndsAt last log =
      (c : Checkpoints) × (e : Checkpoints) × (w.left log ≡ some c)
      × (checkpoints last ≡ ok e)
      × (c.to_lsn ≡ e.to_lsn)

  check_point-EndsAt :
      (first last : BackupDir) (log : List Command) (a : Unit {0})
      → check_point w first last log ≡ ok a
      → EndsAt last log
  unfolding check_point
  check_point-EndsAt first last log a h =
      let (c, p, h1) =
        bind-eq-ok (checkpoints (record first { checkpoints_file = w.left log })) _ a h in
      let (e, q, h2) = bind-eq-ok (checkpoints last) _ a h1 in (c, e, left c p, q, ground arith)
    where
      left :
          (c : Checkpoints)
          → checkpoints (record first { checkpoints_file = w.left log }) ≡ ok c
          → w.left log ≡ some c
      left c p = ground arith

  -- What is published: sources that lead to the requested backup and that the check accepted, each
  -- applied once and in order, and a copy that ends where the requested backup ends.
  abbrev pub IsRecovery :
      (FilePath → Option (BackupDir × List BackupDir)) → BackupDir → Recovered → Type 0
  IsRecovery full_at source r =
      LeadTo full_at source r.sources
      × (w.check r.sources ≡ true)
      × (applied r.log ≡ replay (not w.is_mariadb) r.sources)
      × ((d : BackupDir) × (ds : List BackupDir) × (r.sources ≡ d ∷ ds)
          × EndsAt (last_of d ds) r.log)

  recover-IsRecovery :
      (ds : List BackupDir) (r : Recovered)
      → recover w ds ≡ ok r
      → (r.sources ≡ ds)
        × (applied r.log ≡ replay (not w.is_mariadb) ds)
        × ((d : BackupDir) × (es : List BackupDir) × (ds ≡ d ∷ es) × EndsAt (last_of d es) r.log)
  unfolding recover
  recover-IsRecovery [] r h = absurd (ground arith)
  recover-IsRecovery (d ∷ ds) r h =
      let (copied, a, h1) = bind-eq-ok (copy_sources w 0 (d ∷ ds) []) _ r h in
      let (log, b, h2) = bind-eq-ok (apply_all w (d ∷ ds) copied) _ r h1 in
      let (u, e, h3) = bind-eq-ok (check_point w d (last_of d ds) log) _ r h2 in
      let same : record { sources = d ∷ ds; log = log } ≡ r = ground arith in
      subst
        (λ (r : Recovered).
          (r.sources ≡ d ∷ ds)
          × (applied r.log ≡ replay (not w.is_mariadb) (d ∷ ds))
          × ((x : BackupDir) × (es : List BackupDir) × (d ∷ ds ≡ x ∷ es)
              × EndsAt (last_of x es) r.log))
        same
        (
          refl,
          rw (copy_sources-applied 0 (d ∷ ds) [] copied a) at
              (apply_all-applied (d ∷ ds) copied log b),
          (d, ds, refl, check_point-EndsAt d (last_of d ds) log u e),
        )

  -- If `prepare` returns, then what was asked for is an original full backup, and the recovery copy is
  -- made of it alone, or it is an incremental, and the copy is made of what stands where its metadata
  -- says that its full is and of the committed incrementals of that full up to it, each continuing
  -- the one before. The check accepted these sources; each was applied once, in this order, and all
  -- but the last with `--apply-log-only` unless the tool is MariaDB's; and the copy ends at the LSN of
  -- the backup that was asked for.
  pub prepare-IsRecovery :
      (full_at : FilePath → Option (BackupDir × List BackupDir)) (source : BackupDir)
      (dest : Destination) (r : Recovered)
      → prepare w full_at source dest ≡ ok r
      → IsRecovery full_at source r
  unfolding prepare
  prepare-IsRecovery full_at source dest r h =
      let (_, _, h1) =
        bind-eq-ok (raise_if (dest.exists || dest.is_link) destination_exists) _ r h in
      let (_, _, h2) = bind-eq-ok (raise_if dest.in_root inside_root) _ r h1 in
      let (_, _, h3) = bind-eq-ok (raise_if (not w.root_free) lock_held) _ r h2 in
      let (ds, s, h4) = bind-eq-ok (sources full_at source) _ r h3 in
      let (_, c, h5) = bind-eq-ok (raise_if (not (w.check ds)) check_failed) _ r h4 in
      let (_, _, h6) = bind-eq-ok (raise_if (not w.destination_free) lock_held) _ r h5 in
      let (_, _, h7) = bind-eq-ok (raise_if dest.exists_later destination_exists) _ r h6 in
      let (same, log, ends) = recover-IsRecovery ds r h7 in
      rw same (sources-LeadTo full_at source ds s, ground (arith, c), log, ends)
