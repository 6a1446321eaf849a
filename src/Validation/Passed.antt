-- ===== src/Validation/Passed.antt =====
-- bdbackup/validation.py, `validate_config`: what a validation that passes says of the jobs.
use bdbackup.Base.{
  ◌≡◌, refl, subst, ◌⊎◌, inl, inr, Bool, true, false, not, ◌&&◌, ◌||◌, Option, none, some, List, [],
  ◌∷◌, String, str_eq, if◌then◌else◌, any_of, In, All, Bool-cases, arith,
}
use bdbackup.Base.FilePath.{FilePath, is_relative_to}
use bdbackup.Validation.{
  Report, Host, add, write, directory, binary, later_paths, gfs, settings, status_ok, status_fail,
}
use bdbackup.Validation.Grants.{Engine, physical, logical, has_option, mysql}
use bdbackup.Validation.Jobs.{
  History, Database, Backend, archive, database, Job, optional, check_engine, check_database,
  check_built, check_job, settle, check_jobs, validate_config, has_database, is_none,
}
use bdbackup.Validation.Checks.{
  optional-ok, fail_if-ok, fail_unless-ok, directory-ok, binary-ok, stage_paths-ok, mysql-ok,
  archive-ok, StageReady, Granted, ArchiveReady,
}

module _ (h : Host) where
  compress-ok :
      (b c : Bool) (n : String) (r : Report)
      → (if b
          then (if c then r else add status_fail "compress" r)
          else binary h n (if c then r else add status_fail "compress" r)).ok
        ≡ true
      → r.ok ≡ true
  compress-ok true c n r k = (fail_unless-ok c "compress" r k).0
  compress-ok false c n r k = (fail_unless-ok c "compress" r (binary-ok h n _ k)).0

  key_file-ok :
      (b : Bool) (r : Report)
      → (if b then add status_ok "key file" r else r).ok ≡ true
      → r.ok ≡ true
  unfolding add
  key_file-ok b r k = ground arith

  out_dir-ok :
      (b : Bool) (p : FilePath) (r : Report)
      → (if b then directory h p "Backup destination" true true r else r).ok ≡ true
      → r.ok ≡ true
  out_dir-ok true p r k = directory-ok h p "Backup destination" true true r k
  out_dir-ok false p r k = k

  -- The checks of an engine, by what the engine is.
  engine-ok :
      (history : Option History) (destination : Option FilePath) (d : Database) (e : Engine)
      (r : Report)
      → (check_engine h history destination (record d { engine = e }) r).ok ≡ true
      → r.ok ≡ true
  unfolding check_engine
  engine-ok history destination d (logical b) r k =
      binary-ok h "mysqldump" r
        (fail_if-ok (not (has_database b.database) && not (has_option b.options "--all-databases"))
          "database" _ (out_dir-ok (is_none destination) d.root _ k)).0
  engine-ok history destination d (physical b) r k =
      let outside : History → Report → Report =
        λ s t. if is_relative_to s.restore_root d.root then add status_fail "root" t else t in
      let found : Report = binary h d.binary r in
      let kept : Report = optional history outside found in
      let known : Bool = any_of (str_eq d.compress) ("" ∷ "zstd" ∷ "lz4" ∷ "quicklz" ∷ []) in
      let tool : String = if str_eq d.compress "quicklz" then "qpress" else d.compress in
      let checked : Report = if known then kept else add status_fail "compress" kept in
      let packed : Report = if str_eq d.compress "" then checked else binary h tool checked in
      binary-ok h d.binary r (
        optional-ok history outside found
          (λ s q. (fail_if-ok (is_relative_to s.restore_root d.root) "root" found q).0)
          (compress-ok (str_eq d.compress "") known tool kept (key_file-ok d.encrypt packed k)))

  -- What a validation that passes says of a job's backend.
  abbrev pub BackendReady : Backend → Type 0
  BackendReady (archive a) = ArchiveReady h a
  BackendReady (database d) = Granted h d.engine d.query

  database-ok :
      (history : Option History) (destination : Option FilePath) (d : Database) (r : Report)
      → (settle h (check_database h history destination d r)).ok ≡ true
      → (r.ok ≡ true) × Granted h d.engine d.query
  unfolding check_database settle add
  database-ok history destination d r k = elim (Bool-cases d.is_named) [
    | inr n ↦ absurd (ground arith)
    | inl n ↦
        let q : (mysql h d.engine d.query (check_engine h history destination d r)).ok ≡ true =
          ground arith in
        let (l, granted) = mysql-ok h d.engine d.query (check_engine h history destination d r) q in
        (engine-ok history destination d d.engine r l, granted)
  ]

  built-ok :
      (history : Option History) (j : Job) (b : Option Backend) (r : Report)
      → (settle h (check_built h history (record j { built = b }) r)).ok ≡ true
      → (r.ok ≡ true) × ((x : Backend) × (b ≡ some x) × BackendReady x)
  unfolding check_built settle add
  built-ok history j none r k = absurd (ground arith)
  built-ok history j (some (archive a)) r k =
      let (l, ready) = archive-ok h history a r k in (l, (archive a, refl, ready))
  built-ok history j (some (database d)) r k =
      let (l, ready) = database-ok history j.destination d r k in (l, (database d, refl, ready))

  -- A job that can run: the later stage paths of a rotation are writable and have a writable marker;
  -- another job is of a known kind with settings of the right types, and its backend is ready.
  abbrev pub Ready : Job → Type 0
  Ready j =
      ((str_eq j.kind "gfs" ≡ true) × All (StageReady h) (later_paths j.stages))
      ⊎ ((str_eq j.kind "gfs" ≡ false)
          × (settings j.params ≡ true)
          × ((b : Backend) × (j.built ≡ some b) × BackendReady b))

  rooted-ok :
      (p : Option FilePath) (l : String) (r : Report)
      → (optional p (λ q. directory h q l true true) r).ok ≡ true
      → r.ok ≡ true
  rooted-ok p l r k =
      optional-ok p (λ q. directory h q l true true) r (λ q. directory-ok h q l true true r) k

  job-ok :
      (history : Option History) (j : Job) (r : Report)
      → (settle h (check_job h history j r)).ok ≡ true
      → (r.ok ≡ true) × Ready j
  unfolding check_job settle gfs add
  job-ok history j r k = elim (Bool-cases (str_eq j.kind "gfs")) [
    | inl g ↦
        let (l, ready) = stage_paths-ok h (later_paths j.stages) _ (rw (check_job, g) at k) in
        (rooted-ok j.restore_root "Recovery root" r l, inl (g, ready))
    | inr g ↦
        elim (Bool-cases
          (str_eq j.kind "file" || str_eq j.kind "xtrabackup" || str_eq j.kind "mysqldump")) [
            | inr n ↦ absurd (cc (rw (check_job, g, n) at k))
            | inl n ↦ elim (Bool-cases (settings j.params)) [
              | inr s ↦ absurd (cc (rw (check_job, g, n, s) at k))
              | inl s ↦
                  let (l, built) = built-ok history j j.built _ (rw (check_job, g, n, s) at k) in
                  (
                    rooted-ok j.restore_root "Recovery root" r
                        (rooted-ok j.destination "Backup destination" _ l),
                    inr (g, s, built),
                  )
            ]
          ]
  ]

  jobs-ok :
      (history : Option History) (js : List Job) (r : Report)
      → (check_jobs h history js r).ok ≡ true
      → (r.ok ≡ true) × ((j : Job) → In j js → j.active ≡ true → Ready j)
  unfolding check_jobs write
  jobs-ok history [] r k = (k, λ j m a. elim m [ ])
  jobs-ok history (x ∷ js) r k =
      let (l, rest) = jobs-ok history js _ k in
      elim (Bool-cases x.active) [
        | inr n ↦ (
          rw n at l,
          λ j m a. elim m [ inl e ↦ absurd (ground (arith, a, n, e)) | inr i ↦ rest j i a ],
        )
        | inl n ↦
            let (t, ready) = job-ok history x (write x.name r) (rw n at l) in
            (t, λ j m a. elim m [ inl e ↦ subst Ready e ready | inr i ↦ rest j i a ])
      ]

  -- If a validation passes, then every active job is ready: a rotation's later stage paths are
  -- writable and have a writable marker; any other job has settings of the right types and a
  -- constructor that accepts them; a file job's walk comes to its end and selects entries that can
  -- all be read; and of a database job the server answered with grants that cover all that the engine
  -- needs.
  pub validate_config-Ready :
      (history : Option History) (js : List Job)
      → (validate_config h history js).ok ≡ true
      → (j : Job) → In j js
      → j.active ≡ true
      → Ready j
  unfolding validate_config write
  validate_config-Ready history js k = (jobs-ok history js _ k).1
