-- ===== src/Gfs/Config/Rules.antt =====
-- What an accepted configuration guarantees.
use bdbackup.Base.{
  ◌≡◌, refl, subst, ◌≤◌, ◌<◌, Bool, true, false, not, Option, none, some, List, [], ◌∷◌, ◌++◌, map,
  String, arith, length, All, any_of, keep_if, ltb, ◌==◌,
}
use bdbackup.Base.FilePath.{FilePath, is_relative_to}
use bdbackup.Gfs.Stages.{Stage, Keep, Period, period_index, min_days, max_days}
use bdbackup.Gfs.Config.{
  Checked, ok, invalid, Invalid, ◌>>=◌, raise_if, required, Table, Job, is_gfs, stage, stages,
  parse_gfs_job, paths_fit, period_fits, keep_fits, unknown_keys, path_strings, period_of,
  parse_keep, get, overlap, check_paths, check_jobs, all_paths, has_unknown_key, some_stages,
  check_gfs, check_gfs_config, bad_paths, first_paths, bad_period, first_period, backwards,
  bad_keep, keep_too_short, unknown_job_key,
}

bind-eq-ok :
    {A B : Type 0} (r : Checked A) (f : A → Checked B) (b : B)
    → (r >>= f) ≡ ok b
    → (a : A) × (r ≡ ok a) × (f a ≡ ok b)
bind-eq-ok (ok a) f b h = (a, refl, h)
bind-eq-ok (invalid e) f b h = absurd (ground arith)

raise_if-eq-ok : (b : Bool) (e : Invalid) (u : Unit {0}) → raise_if b e ≡ ok u → b ≡ false
raise_if-eq-ok true e u h = absurd (ground arith)
raise_if-eq-ok false e u h = refl

-- A stage after the one before it: its period does not go backwards, and its shortest keep age is
-- longer than the longest one before.
abbrev pub Follows : Option Stage → Stage → Type 0
Follows none s = (length s.paths ≡ 1) × (period_index s.period ≡ 0)
Follows (some p) s =
    (period_index p.period ≤ period_index s.period) × (max_days p.keep < min_days s.keep)

abbrev pub IsGraded : Option Stage → List Stage → Type 0
IsGraded previous [] = Unit
IsGraded previous (s ∷ ss) = Follows previous s × IsGraded (some s) ss

length-map : {A B : Type 0} (f : A → B) (xs : List A) → length (map f xs) ≡ length xs
length-map f [] = refl
length-map f (x ∷ xs) = cc (length-map f xs)

fits-Follows :
    (resolve : String → FilePath) (previous : Option Stage) (paths : List String) (p : Period)
    (k : Keep) (u : Unit {0})
    → not (paths_fit previous paths) ≡ false
    → period_fits previous p ≡ ok u
    → not (keep_fits previous k) ≡ false
    → Follows previous (record { paths = map resolve paths; period = p; keep = k })
fits-Follows resolve none paths p k u a b c =
    let e = raise_if-eq-ok (not (period_index p == 0)) first_period u b in
    (ground (arith, length-map resolve paths), ground arith)
fits-Follows resolve (some s) paths p k u a b c =
    let e = raise_if-eq-ok (ltb (period_index p) (period_index s.period)) backwards u b in
    (ground arith, ground arith)

stage-Follows :
    (resolve : String → FilePath) (table : Option Table) (previous : Option Stage) (s : Stage)
    → stage resolve table previous ≡ ok s
    → Follows previous s
unfolding stage
stage-Follows resolve none previous s h = absurd (ground arith)
stage-Follows resolve (some t) previous s h =
    let (_, _, h1) = bind-eq-ok (unknown_keys t) _ s h in
    let (paths, _, h2) = bind-eq-ok (required (path_strings (get "paths" t)) bad_paths) _ s h1 in
    let (x, a, h3) = bind-eq-ok (raise_if (not (paths_fit previous paths)) first_paths) _ s h2 in
    let (p, _, h4) = bind-eq-ok (required (period_of (get "period" t)) bad_period) _ s h3 in
    let (u, b, h5) = bind-eq-ok (period_fits previous p) _ s h4 in
    let (k, _, h6) = bind-eq-ok (required (parse_keep (get "keep" t)) bad_keep) _ s h5 in
    let (y, c, h7) = bind-eq-ok (raise_if (not (keep_fits previous k)) keep_too_short) _ s h6 in
    let e : record { paths = map resolve paths; period = p; keep = k } ≡ s = ground arith in
    subst (Follows previous) e (
      fits-Follows resolve previous paths p k u (raise_if-eq-ok _ first_paths x a) b
        (raise_if-eq-ok _ keep_too_short y c))

stages-IsGraded :
    (resolve : String → FilePath) (ts : List (Option Table)) (previous : Option Stage)
    (ss : List Stage)
    → stages resolve ts previous ≡ ok ss
    → IsGraded previous ss × (length ss ≡ length ts)
unfolding stages
stages-IsGraded resolve [] previous ss h =
    subst (λ l. IsGraded previous l × (length l ≡ 0)) {x = []} (ground arith) (tt, refl)
stages-IsGraded resolve (t ∷ ts) previous ss h =
    let (s, q, h1) = bind-eq-ok (stage resolve t previous) _ ss h in
    let (rest, r, h2) = bind-eq-ok (stages resolve ts (some s)) _ ss h1 in
    let (g, n) = stages-IsGraded resolve ts (some s) rest r in
    subst (λ l. IsGraded previous l × (length l ≡ length (t ∷ ts))) {x = s ∷ rest} (ground arith)
      ((stage-Follows resolve t previous s q, g), cc n)

-- The stages of an accepted gfs job are graded. If `parse_gfs_job` accepts a job, it has as many
-- stages as tables, the first stage has one path and the period daily, no later period goes
-- backwards, and the shortest span of each later keep age is longer than the longest span of the
-- one before it.
pub parse_gfs_job-IsGraded :
    (resolve : String → FilePath) (keys : List String) (tables : List (Option Table))
    (ss : List Stage)
    → parse_gfs_job resolve keys (some tables) ≡ ok ss
    → IsGraded none ss × (length ss ≡ length tables)
unfolding parse_gfs_job
parse_gfs_job-IsGraded resolve keys tables ss h =
    let (_, _, h1) =
      bind-eq-ok (raise_if (has_unknown_key keys) unknown_job_key)
        (λ _. some_stages resolve (some tables)) ss h in
    of_tables tables h1
  where
    of_tables :
        (ts : List (Option Table))
        → some_stages resolve (some ts) ≡ ok ss
        → IsGraded none ss × (length ss ≡ length ts)
    of_tables [] h = absurd (ground arith)
    of_tables (t ∷ ts) h = stages-IsGraded resolve (t ∷ ts) none ss h

-- No path of the list is equal to another, inside it or around it.
abbrev pub Separate : List FilePath → Type 0
Separate [] = Unit
Separate (p ∷ ps) = All (λ q. overlap q p ≡ false) ps × Separate ps

none_overlaps :
    (p : FilePath) (seen : List FilePath)
    → any_of (overlap p) seen ≡ false
    → All (λ q. overlap p q ≡ false) seen
none_overlaps p [] h = tt
none_overlaps p (q ∷ seen) h = (ground arith, none_overlaps p seen (ground arith))

-- The paths still to come overlap none of those seen.
abbrev Clear : List FilePath → List FilePath → Type 0
Clear seen ps = All (λ s. All (λ q. overlap q s ≡ false) ps) seen

Clear-snoc :
    (p : FilePath) (ps seen : List FilePath)
    → All (λ q. overlap p q ≡ false) seen
    → Clear (seen ++ (p ∷ [])) ps
    → Clear seen (p ∷ ps) × All (λ q. overlap q p ≡ false) ps
Clear-snoc p ps [] h c = (tt, c.0)
Clear-snoc p ps (s ∷ seen) h c = let (d, e) = Clear-snoc p ps seen h.1 c.1 in (((h.0, c.0), d), e)

Clear-nil : (seen : List FilePath) → Clear seen []
Clear-nil [] = tt
Clear-nil (s ∷ seen) = (tt, Clear-nil seen)

check_paths-Separate :
    (database : FilePath) (ps seen : List FilePath)
    → check_paths database ps seen ≡ ok tt
    → Clear seen ps × Separate ps × All (λ p. is_relative_to database p ≡ false) ps
unfolding check_paths
check_paths-Separate database [] seen h = (Clear-nil seen, tt, tt)
check_paths-Separate database (p ∷ ps) seen h =
    let inside : is_relative_to database p ≡ false = ground arith in
    let apart : any_of (overlap p) seen ≡ false = ground arith in
    let (c, s, d) = check_paths-Separate database ps (seen ++ (p ∷ [])) (ground arith) in
    let (c', o) = Clear-snoc p ps seen (none_overlaps p seen apart) c in (c', (o, s), (inside, d))

check_gfs-Separate :
    (gfs jobs : List Job) (database : FilePath)
    → check_gfs gfs (some database) jobs ≡ ok tt
    → Separate (all_paths gfs) × All (λ p. is_relative_to database p ≡ false) (all_paths gfs)
unfolding check_gfs
check_gfs-Separate [] jobs database h = (tt, tt)
check_gfs-Separate (g ∷ gs) jobs database h =
    let (_, q, _) =
      bind-eq-ok (check_paths database (all_paths (g ∷ gs)) []) (λ _. check_jobs (g ∷ gs) jobs) tt
        h in
    let (_, s, d) = check_paths-Separate database (all_paths (g ∷ gs)) [] q in (s, d)

-- The stage paths of an accepted configuration do not overlap. If `check_gfs_config` accepts the
-- jobs with a history database, then no stage path of any gfs job is equal to another one, inside
-- it or around it, and the database is inside none of them.
pub check_gfs_config-Separate :
    (jobs : List Job) (database : FilePath)
    → check_gfs_config jobs (some database) ≡ ok tt
    → Separate (all_paths (keep_if is_gfs jobs))
      × All (λ p. is_relative_to database p ≡ false) (all_paths (keep_if is_gfs jobs))
unfolding check_gfs_config
check_gfs_config-Separate jobs database h = check_gfs-Separate (keep_if is_gfs jobs) jobs database h
