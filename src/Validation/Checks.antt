-- ===== src/Validation/Checks.antt =====
-- bdbackup/validation.py: what each check says where it leaves the report good.
use bdbackup.Base.{
  ◌≡◌, ◌≢◌, refl, subst, inl, inr, Bool, true, false, ◌&&◌, ◌||◌, Option, none, some, List, [], ◌∷◌,
  String, if◌then◌else◌, any_of, In, All, Bool-cases, arith,
}
use bdbackup.Base.FilePath.{FilePath, parent}
use bdbackup.FileBackup.{Member, Walked, done, stopped, members_of}
use bdbackup.Validation.{
  Report, Host, Status, is_fail, add, write, directory, file, binary, stage_path, stage_paths,
  marker, status_ok, status_fail, status_info,
}
use bdbackup.Validation.Grants.{
  Engine, physical, logical, Requirement, Grant, has_grant, requirements, Answer, Query,
  exits_nonzero, raises, answers, missing_in, grants_part, engine_part, check_answer, check_query,
  mysql,
}
use bdbackup.Validation.Jobs.{
  History, Archive, optional, sources, source_accessible, conflicts, counted, check_archive, settle,
}

pub add-ok :
    (s : Status) (m : String) (r : Report)
    → (add s m r).ok ≡ true
    → (r.ok ≡ true) × (is_fail s ≡ false)
unfolding add
add-ok s m r h = ground arith

pub optional-ok :
    {A : Type 0} (o : Option A) (f : A → Report → Report) (r : Report)
    → ((a : A) → (f a r).ok ≡ true → r.ok ≡ true)
    → (optional o f r).ok ≡ true
    → r.ok ≡ true
optional-ok none f r k h = h
optional-ok (some a) f r k h = k a h

-- A line that a test adds.
pub fail_if-ok :
    (b : Bool) (m : String) (r : Report)
    → (if b then add status_fail m r else r).ok ≡ true
    → (r.ok ≡ true) × (b ≡ false)
unfolding add
fail_if-ok b m r h = ground arith

pub fail_unless-ok :
    (b : Bool) (m : String) (r : Report)
    → (if b then r else add status_fail m r).ok ≡ true
    → (r.ok ≡ true) × (b ≡ true)
unfolding add
fail_unless-ok b m r h = ground arith

module _ (h : Host) where
  pub directory-ok :
      (p : FilePath) (l : String) (w c : Bool) (r : Report)
      → (directory h p l w c r).ok ≡ true
      → r.ok ≡ true
  unfolding directory add write
  directory-ok p l w c r e = ground arith

  pub file-ok :
      (p : FilePath) (l : String) (w : Bool) (r : Report) → (file h p l w r).ok ≡ true → r.ok ≡ true
  unfolding file add
  file-ok p l w r e = ground arith

  pub binary-ok : (n : String) (r : Report) → (binary h n r).ok ≡ true → r.ok ≡ true
  unfolding binary add
  binary-ok n r e = ground arith

  -- A stage path that a rotation can use.
  abbrev pub StageReady : FilePath → Type 0
  StageReady p =
      (h.is_dir p ≡ true)
      × ((h.writable p && h.searchable p) ≡ true)
      × (h.is_file (marker p) ≡ true)
      × (h.writable (marker p) ≡ true)

  stage_path-ok :
      (p : FilePath) (r : Report) → (stage_path h p r).ok ≡ true → (r.ok ≡ true) × StageReady p
  unfolding stage_path add
  stage_path-ok p r e = ground arith

  pub stage_paths-ok :
      (ps : List FilePath) (r : Report)
      → (stage_paths h ps r).ok ≡ true
      → (r.ok ≡ true) × All StageReady ps
  unfolding stage_paths
  stage_paths-ok [] r e = (e, tt)
  stage_paths-ok (p ∷ ps) r e =
      let (k, rest) = stage_paths-ok ps (stage_path h p r) e in
      let (l, ready) = stage_path-ok p r k in (l, (ready, rest))

  -- The server answered, and its grants cover all that the engine needs.
  abbrev pub Granted : Engine → Query → Type 0
  Granted e query =
      (a : Answer) × (query ≡ answers a)
      × ((q : Requirement) → In q (requirements e a.version) → has_grant a.grants q ≡ true)

  none_missing :
      (gs : List Grant) (qs : List Requirement)
      → missing_in gs qs ≡ []
      → (q : Requirement) → In q qs
      → has_grant gs q ≡ true
  none_missing gs [] e q m = elim m [ ]
  none_missing gs (x ∷ qs) e q m = elim (Bool-cases (has_grant gs x)) [
    | inl t ↦ elim m [ inl s ↦ rw (← s) t | inr n ↦ none_missing gs qs (rw t at e) q n ]
    | inr t ↦ absurd (cc (rw t at e))
  ]

  grants_part-ok :
      (qs : List Requirement) (r : Report)
      → (grants_part h qs r).ok ≡ true
      → (r.ok ≡ true) × (qs ≡ [])
  unfolding grants_part add write
  grants_part-ok [] r e = (e, refl)
  grants_part-ok (q ∷ qs) r e = absurd (ground arith)

  engine_part-ok :
      (e : Engine) (a : Answer) (r : Report) → (engine_part h e a r).ok ≡ true → r.ok ≡ true
  unfolding engine_part add
  engine_part-ok (physical b) a r k =
      (fail_if-ok _ "binary family" r (directory-ok a.datadir "MySQL datadir" false false _ k)).0
  engine_part-ok (logical b) a r k = k

  info_if-ok :
      (b : Bool) (m : String) (r : Report)
      → (if b then add status_info m r else r).ok ≡ true
      → r.ok ≡ true
  unfolding add
  info_if-ok b m r k = ground arith

  check_answer-ok :
      (e : Engine) (a : Answer) (r : Report)
      → (check_answer h e a r).ok ≡ true
      → (r.ok ≡ true) × (missing_in a.grants (requirements e a.version) ≡ [])
  unfolding check_answer
  check_answer-ok e a r k =
      let k1 = engine_part-ok e a _ k in
      let k2 = info_if-ok (any_of (λ g. g.grants_role) a.grants) "roles" _ k1 in
      let k3 = (fail_if-ok (any_of (λ g. g.revokes) a.grants) "revokes" _ k2).0 in
      let (k4, none_left) = grants_part-ok (missing_in a.grants (requirements e a.version)) _ k3 in
      ((add-ok status_ok "authenticated" r k4).0, none_left)

  check_query-ok :
      (e : Engine) (query : Query) (r : Report)
      → (check_query h e query r).ok ≡ true
      → (r.ok ≡ true) × Granted e query
  unfolding check_query add write
  check_query-ok e exits_nonzero r k = absurd (ground arith)
  check_query-ok e raises r k = absurd (ground arith)
  check_query-ok e (answers a) r k =
      let (l, n) = check_answer-ok e a r k in
      (l, (a, refl, none_missing a.grants (requirements e a.version) n))

  pub mysql-ok :
      (e : Engine) (query : Query) (r : Report)
      → (mysql h e query r).ok ≡ true
      → (r.ok ≡ true) × Granted e query
  unfolding mysql add write
  mysql-ok e query r k = elim (Bool-cases (h.which "mysql" || h.which "mariadb")) [
    | inr n ↦ absurd (ground arith)
    | inl n ↦ check_query-ok e query r (rw (mysql, n) at k)
  ]

  abbrev SourcesReady : Archive → List Member → Type 0
  SourcesReady a ms = (m : Member) → In m ms → source_accessible h a m ≡ true

  sources-ok :
      (a : Archive) (ms : List Member) (r : Report)
      → (sources h a ms r).ok ≡ true
      → (r.ok ≡ true) × SourcesReady a ms
  unfolding sources
  sources-ok a [] r k = (k, λ m i. elim i [ ])
  sources-ok a (x ∷ ms) r k =
      let (l, rest) = sources-ok a ms _ k in
      let (n, t) = fail_unless-ok (source_accessible h a x) "source" r l in
      (n, λ m i. elim i [ inl e ↦ rw (← e) t | inr j ↦ rest m j ])

  -- A walk that comes to its end and selects something that can be read.
  abbrev pub ArchiveReady : Archive → Type 0
  ArchiveReady a = (ms : List Member) × (a.walked ≡ done ms) × (ms ≢ []) × SourcesReady a ms

  counted-ok :
      (a : Archive) (w : Walked) (r : Report)
      → (settle h (counted h a w r)).ok ≡ true
      → (a.has_paths ≡ true)
      → (r.ok ≡ true) × ((ms : List Member) × (w ≡ done ms) × (ms ≢ []))
  unfolding counted settle add
  counted-ok a (stopped ms e) r k p = absurd (ground arith)
  counted-ok a (done []) r k p = absurd (ground (arith, p))
  counted-ok a (done (m ∷ ms)) r k p = (k, (m ∷ ms, refl, λ e. cc))

  counted_mono :
      (a : Archive) (w : Walked) (r : Report) → (settle h (counted h a w r)).ok ≡ true → r.ok ≡ true
  unfolding counted settle add
  counted_mono a (stopped ms e) r k = absurd (ground arith)
  counted_mono a (done []) r k = ground arith
  counted_mono a (done (m ∷ ms)) r k = k

  conflict-ok :
      (s : History) (a : Archive) (r : Report)
      → (if conflicts h a s then add status_fail "conflict" r else r).ok ≡ true
      → r.ok ≡ true
  conflict-ok s a r k = (fail_if-ok (conflicts h a s) "conflict" r k).0

  pub archive-ok :
      (history : Option History) (a : Archive) (r : Report)
      → (settle h (check_archive h history a r)).ok ≡ true
      → (r.ok ≡ true) × ArchiveReady a
  unfolding check_archive
  archive-ok history a r k =
      let (k1, all) = sources-ok a (members_of a.walked) _ (counted_mono a a.walked _ k) in
      let (k2, p) = fail_unless-ok a.has_paths "template" _ k1 in
      let (_, found) = counted-ok a a.walked _ k p in
      let (ms, e, n) = found in
      let k3 =
        optional-ok history (λ s t. if conflicts h a s then add status_fail "conflict" t else t) _
          (λ s. conflict-ok s a _) k2 in
      (
        directory-ok (parent a.tar_filename) "Archive destination" true true r k3,
        (ms, e, n, subst (λ w. SourcesReady a (members_of w)) e all),
      )
