-- ===== src/Cli/Restoring.antt =====
-- bdbackup/cli.py, `restore` from the history: which record is restored, and where to. What the user
-- answers, `gfs_store.available` and the suggested destination are given.
use bdbackup.Base.{
  ℕ, ◌≡◌, refl, inl, inr, Bool, true, false, not, ◌&&◌, ◌||◌, Option, none, some, List, [], ◌∷◌,
  String, str_eq, starts_with, if◌then◌else◌, keep_if, arith, Option-cases, Bool-cases, ==_iff,
  ◌==◌, subst, In, In-keep_if, sym, ◌∙◌,
}
use bdbackup.Base.FilePath.{FilePath}
use bdbackup.Base.Sorting.{sort_by-In}
use bdbackup.History.{Row, of_job, is_success}
use bdbackup.History.Listing.{records, get}

-- The options of `restore` in this mode.
pub record Options : Type 0 where
  pub backup_id : Option ℕ
  pub job : Option String
  pub yes : Bool
  pub dst : Option FilePath
  pub has_key_file : Bool

-- What the user answers to the prompts, each with the default that is offered.
pub record Answers : Type 0 where
  pub pick : ℕ → ℕ
  pub destination : FilePath → FilePath
  pub confirms : Bool

-- The errors, and the user's refusal.
pub data Stopped : Type 0 where
  usage no_backups not_found unavailable aborted : Stopped

pub data Result (A : Type 0) : Type 0 where
  ok : A → Result A
  stopped : Stopped → Result A

infixl 5 ◌>>=◌ ◌>>◌
abbrev pub ◌>>=◌ : {A B : Type 0} → Result A → (A → Result B) → Result B
ok a >>= f = f a
stopped e >>= f = stopped e

abbrev pub ◌>>◌ : {B : Type 0} → Result (Unit {0}) → Result B → Result B
m >> k = m >>= λ _. k

abbrev pub stop_if : Bool → Stopped → Result (Unit {0})
stop_if true e = stopped e
stop_if false e = ok tt

abbrev pub required : {A : Type 0} → Option A → Stopped → Result A
required none e = stopped e
required (some a) e = ok a

abbrev pub other_job : Option String → Row → Bool
other_job none r = false
other_job (some j) r = not (str_eq r.job_name j)

-- What is restored, and where to.
pub record Chosen : Type 0 where
  pub row : Row
  pub destination : FilePath

-- A record that is chosen is one of the history, of the job that was asked for, and with the id that
-- was asked for.
abbrev pub IsAsked : Options → List Row → Row → Type 0
IsAsked o rows r = In r rows × (of_job o.job r ≡ true) × ((i : ℕ) → o.backup_id ≡ some i → r.id ≡ i)

module _ (available : Row → Bool) (kind : Row → String) (suggest : Row → FilePath) where
  -- The records that are offered.
  abbrev pub offered : Option String → List Row → List Row
  offered job rows = keep_if available (records job true rows)

  abbrev pub pick_from : (ℕ → ℕ) → List Row → Result Row
  pick_from pick [] = stopped no_backups
  pick_from pick (r ∷ rs) = required (get (pick r.id) (r ∷ rs)) usage

  -- The choice of the record.
  unfoldable pub choose : Options → Answers → List Row → Result Row
  unfolding records get
  choose o a rows = elim o.backup_id [
    | none ↦ do stop_if o.yes usage; pick_from a.pick (offered o.job rows)
    | some i ↦ do r ← required (get i rows) not_found; stop_if (other_job o.job r) usage; ok r
  ]

  -- The destination, before it is confirmed.
  unfoldable pub destination_of : Options → Answers → Row → FilePath
  destination_of o a r = elim o.dst [
    | some d ↦ d
    | none ↦ if o.yes then suggest r else a.destination (suggest r)
  ]

  -- `_run` up to the call of `restore_record`.
  unfoldable pub restore : Options → Answers → List Row → Result Chosen
  unfolding choose destination_of
  restore o a rows = do
    r ← choose o a rows
    stop_if (not (available r)) unavailable
    stop_if (not o.yes && not a.confirms) aborted
    stop_if (o.has_key_file && not (starts_with (kind r) "xtrabackup")) usage
    ok (record { row = r; destination = destination_of o a r })

  bind-ok :
      {A B : Type 0} (m : Result A) (k : A → Result B) (b : B)
      → (m >>= k) ≡ ok b
      → (x : A) × (m ≡ ok x) × (k x ≡ ok b)
  bind-ok (ok x) k b h = (x, refl, h)
  bind-ok (stopped e) k b h = absurd (ground arith)

  guard-ok : (t : Bool) (e : Stopped) (u : Unit {0}) → stop_if t e ≡ ok u → t ≡ false
  guard-ok true e u h = absurd (ground arith)
  guard-ok false e u h = refl

  -- What a restoration that goes ahead is: of an available record, confirmed, to the directory that
  -- was asked for if any, with a key file only for a physical backup.
  abbrev pub IsConfirmed : Options → Answers → Chosen → Type 0
  IsConfirmed o a c =
      (available c.row ≡ true)
      × ((o.yes || a.confirms) ≡ true)
      × ((d : FilePath) → o.dst ≡ some d → c.destination ≡ d)
      × (o.has_key_file ≡ true → starts_with (kind c.row) "xtrabackup" ≡ true)

  get-In : (i : ℕ) (rows : List Row) (r : Row) → get i rows ≡ some r → In r rows × (r.id ≡ i)
  unfolding get
  get-In i [] r h = absurd (ground arith)
  get-In i (x ∷ rows) r h = elim (Bool-cases (x.id == i)) [
    | inl t ↦
        let e : x ≡ r = ground arith in
        (inl e, subst (λ (x : Row). x.id ≡ i) e ((==_iff x.id i).0 t))
    | inr t ↦ let (m, e) = get-In i rows r (ground arith) in (inr m, e)
  ]

  required-ok : {A : Type 0} (m : Option A) (e : Stopped) (a : A) → required m e ≡ ok a → m ≡ some a
  required-ok none e a h = absurd (ground arith)
  required-ok (some x) e a h = ground arith

  pick_from-In : (pick : ℕ → ℕ) (rs : List Row) (r : Row) → pick_from pick rs ≡ ok r → In r rs
  pick_from-In pick [] r h = absurd (ground arith)
  pick_from-In pick (x ∷ rs) r h = (get-In (pick x.id) (x ∷ rs) r (required-ok _ usage r h)).0

  offered-In :
      (job : Option String) (rows : List Row) (r : Row)
      → In r (offered job rows)
      → In r rows × (of_job job r ≡ true)
  unfolding records
  offered-In job rows r m =
      let (k, t) =
        In-keep_if (λ r. of_job job r && (not true || is_success r.status)) r rows
          (sort_by-In _ r _ (In-keep_if available r (records job true rows) m).0) in
      (k, ground (arith, t))

  choose-IsAsked :
      (o : Options) (a : Answers) (rows : List Row) (r : Row)
      → choose o a rows ≡ ok r
      → IsAsked o rows r
  unfolding choose
  choose-IsAsked o a rows r h = elim (Option-cases o.backup_id) [
    | inl n ↦
        let (_, _, h1) =
          bind-ok (stop_if o.yes usage) (λ _. pick_from a.pick (offered o.job rows)) r
            (rw (choose, n) at h) in
        let (m, t) = offered-In o.job rows r (pick_from-In a.pick (offered o.job rows) r h1) in
        (m, t, λ i e. absurd (ground (arith, n, e)))
    | inr (i, n) ↦
        let (x, q, h1) = bind-ok (required (get i rows) not_found) _ r (rw (choose, n) at h) in
        let (_, k, h2) = bind-ok (stop_if (other_job o.job x) usage) _ r h1 in
        let e : x ≡ r = ground arith in
        let (m, same) = get-In i rows x (required-ok _ not_found x q) in
        subst (IsAsked o rows) e (
          m,
          right_job o.job x (guard-ok (other_job o.job x) usage _ k),
          λ j f. same ∙ index i j (sym n ∙ f),
        )
  ]
    where
      right_job : (j : Option String) (x : Row) → other_job j x ≡ false → of_job j x ≡ true
      right_job none x t = refl
      right_job (some j) x t = ground (arith, t)

      index : (i j : ℕ) → some i ≡ some j → i ≡ j
      index i j e = ground (arith, e)

  -- A restoration from the history goes ahead only for a record of the history that is available, of
  -- the job that was asked for and with the id that was asked for, if any; only if the user confirmed
  -- it, or said so by `--yes` beside an id; to the directory that was asked for, if any; and with a
  -- key file only for a physical backup.
  pub restore-IsConfirmed :
      (o : Options) (a : Answers) (rows : List Row) (c : Chosen)
      → restore o a rows ≡ ok c
      → IsAsked o rows c.row × IsConfirmed o a c × (o.backup_id ≡ none → a.confirms ≡ true)
  unfolding restore destination_of choose
  restore-IsConfirmed o a rows c h =
      let (r, q, h1) = bind-ok (choose o a rows) _ c h in
      let (_, v, h2) = bind-ok (stop_if (not (available r)) unavailable) _ c h1 in
      let (_, y, h3) = bind-ok (stop_if (not o.yes && not a.confirms) aborted) _ c h2 in
      let (_, k, h4) =
        bind-ok (stop_if (o.has_key_file && not (starts_with (kind r) "xtrabackup")) usage) _ c
          h3 in
      let e : record { row = r; destination = destination_of o a r } ≡ c = ground arith in
      let v' = guard-ok (not (available r)) unavailable _ v in
      let y' = guard-ok (not o.yes && not a.confirms) aborted _ y in
      let k' = guard-ok (o.has_key_file && not (starts_with (kind r) "xtrabackup")) usage _ k in
      subst
        (λ (c : Chosen).
          IsAsked o rows c.row × IsConfirmed o a c × (o.backup_id ≡ none → a.confirms ≡ true))
        e
        (
          choose-IsAsked o a rows r q,
          (ground (arith, v'), ground (arith, y'), to_dst r, λ f. ground (arith, k', f)),
          λ n. asked r n q y',
        )
    where
      to_dst : (r : Row) (d : FilePath) → o.dst ≡ some d → destination_of o a r ≡ d
      to_dst r d f = rw (destination_of, f) refl

      asked :
          (r : Row)
          → o.backup_id ≡ none
          → choose o a rows ≡ ok r
          → (not o.yes && not a.confirms) ≡ false
          → a.confirms ≡ true
      asked r n q y = elim (Bool-cases o.yes) [
        | inl t ↦ absurd (cc (rw (choose, n, t) at q))
        | inr t ↦ ground (arith, y, t)
      ]
