-- ===== src/FileBackup/Archive/Progress.antt =====
-- bdbackup/filebackup.py, `backup`: a run that nothing disturbs returns.
use bdbackup.Base.{
  ℕ, ◌+◌, ◌≡◌, ◌≢◌, refl, sym, ap, subst, ◌∙◌, Bool, true, false, not, ◌&&◌, Option, none, some,
  List, [], ◌∷◌, ◌++◌, ◌⊎◌, inl, inr, arith, ◌==◌, length, if◌then◌else◌, append-nil, append_assoc,
  In,
}
use bdbackup.Base.FilePath.{FilePath}
use bdbackup.Templates.{Globs}
use bdbackup.FileBackup.{Disk, Info, Selection, RawPath, Member, Walked, done, members_of, walk}
use bdbackup.FileBackup.Selected.{arcnames, walk-Belongs}
use bdbackup.FileBackup.Archive.{
  Calls, State, Exit, returned, raised, and_then, Names, names_eq, verify, publish, close_body,
  settle, close_archive, open_archive, or_discard, Total, counted, is_changed, add_member,
  check_member, back_up_member, back_up_all, raise_stop, walk_in, fill_archive, backup, no_members,
  result_size,
}
use bdbackup.FileBackup.Archive.Close.{names_eq_self}
use bdbackup.FileBackup.Archive.Safety.{backup-by_paths}

-- Calls that all work on files whose members' names are known, and inputs that do not change.
pub record Undisturbed (c : Calls) (d : Disk) : Type 0 where
  pub lock_free : c.lock_free ≡ true
  pub mkstemp : c.mkstemp ≡ true
  pub tar_open : c.tar_open ≡ true
  pub fsync : c.fsync ≡ true
  pub replace : c.replace ≡ true
  pub names : c.File → Names
  pub starts : names c.blank ≡ []
  pub adds :
      (f : c.File) (m : Member)
      → (h : c.File) × (c.tar_add f m ≡ some h) × (names h ≡ names f ++ (m.arcname ∷ []))
  pub closes : (f : c.File) → (h : c.File) × (c.tar_close f ≡ some h) × (names h ≡ names f)
  pub reads : (f : c.File) → c.read f ≡ some (length (names f))
  pub lists : (f : c.File) → c.getnames f ≡ some (names f)
  pub measures : (f : c.File) → (n : ℕ) × (c.stat f ≡ some n)
  pub quiet :
      (p : FilePath) (i : Info)
      → d.info p ≡ some i
      → (j : Info) × (c.info_after p ≡ some j) × (is_changed i j ≡ false)

if-false : {A : Type 0} (b : Bool) (x y : A) → b ≡ true → (if not b then x else y) ≡ y
if-false true x y h = refl
if-false false x y h = absurd (ground arith)

module _ (c : Calls) (d : Disk) (u : Undisturbed c d) where
  abbrev filling : Option c.File → c.File → Names → State c
  filling target f names = record {
    tar = true;
    pending = true;
    lock = true;
    expected = names;
    staged = some f;
    target = target;
  }

  abbrev idle : Names → Option c.File → Option c.File → State c
  idle names staged target = record {
    tar = false;
    pending = false;
    lock = false;
    expected = names;
    staged = staged;
    target = target;
  }

  open_archive-returned :
      (timestamp : Bool) (ns : Names) (staged target : Option c.File)
      → open_archive c timestamp (idle ns staged target) ≡ returned tt (filling target c.blank [])
  unfolding open_archive or_discard
  open_archive-returned timestamp ns staged target =
      if-false c.lock_free _ _ u.lock_free
      ∙ ap (or_discard c timestamp)
          (if-false c.mkstemp _ _ u.mkstemp ∙ if-false c.tar_open _ _ u.tar_open)

  verify-none : (f : c.File) → u.names f ≢ [] → verify c (some f) ≡ none
  unfolding verify
  verify-none f n = some_members (u.names f) n (u.reads f)
    where
      some_members : (ns : Names) → ns ≢ [] → c.read f ≡ some (length ns) → verify c (some f) ≡ none
      some_members [] n e = absurd (n refl)
      some_members (x ∷ ns) n e = rw (verify, e) (ground arith)

  module _ (g : Globs) (selection : Selection) (timestamp : Bool) where
    member-returned :
        (target : Option c.File) (f : c.File) (ns : Names) (m : Member) (i : Info) (t : Total)
        → d.info m.path ≡ some i
        → u.names f ≡ ns
        → (h : c.File) × (back_up_member c g d selection timestamp false m t (filling target f ns)
            ≡ returned (counted i t) (filling target h (ns ++ (m.arcname ∷ []))))
          × (u.names h ≡ ns ++ (m.arcname ∷ []))
    unfolding back_up_member add_member check_member
    member-returned target f ns m i t e n =
        let (h, a, k) = u.adds f m in
        let (j, q, s) = u.quiet m.path i e in
        (
          h,
          rw (back_up_member, e, add_member, a, check_member, q, s) refl,
          k ∙ ap (λ x. x ++ (m.arcname ∷ [])) n,
        )

    all-returned :
        (target : Option c.File) (f : c.File) (ns : Names) (ms : List Member) (t : Total)
        → u.names f ≡ ns
        → ((m : Member) → In m ms → (i : Info) × (d.info m.path ≡ some i))
        → (h : c.File) × (v : Total) × (back_up_all c g d selection timestamp false ms t
              (filling target f ns)
            ≡ returned v (filling target h (ns ++ arcnames ms)))
          × (u.names h ≡ ns ++ arcnames ms)
          × (v.count ≡ t.count + length ms)
    unfolding back_up_all counted
    all-returned target f ns [] t n found = (
      f,
      t,
      ap (λ x. returned t (filling target f x)) (sym (append-nil ns)),
      n ∙ sym (append-nil ns),
      omega arith,
    )
    all-returned target f ns (m ∷ ms) t n found =
        let (i, e) = found m (inl refl) in
        let (h, r, k) = member-returned target f ns m i t e n in
        let (h', v, r', k', count) =
          all-returned target h (ns ++ (m.arcname ∷ [])) ms (counted i t) k
            (λ x l. found x (inr l)) in
        let q = append_assoc ns (m.arcname ∷ []) (arcnames ms) in
        (
          h',
          v,
          ap (λ x. and_then c x (λ u r. back_up_all c g d selection timestamp false ms u r)) r
              ∙ r'
              ∙ ap (λ x. returned v (filling target h' x)) q,
          k' ∙ q,
          omega (arith, count),
        )

    if_else : {A : Type 0} (b : Bool) (x y : A) → b ≡ false → (if b then x else y) ≡ y
    if_else true x y h = absurd (ground arith)
    if_else false x y h = refl

    -- Nothing is in the way of the archive.
    abbrev pub Free : Option c.File → Type 0
    Free target = (timestamp ≡ false) ⊎ (target ≡ none)

    Free-guard :
        (target : Option c.File)
        → Free target
        → (timestamp && elim target [ none ↦ false | some t ↦ true ]) ≡ false
    Free-guard target (inl e) = rw e refl
    Free-guard none (inr e) = by_flag timestamp
      where
        by_flag : (b : Bool) → (b && false) ≡ false
        by_flag b = ground arith
    Free-guard (some t) (inr e) = cc

    abbrev closed : Option c.File → Option c.File → Names → State c
    closed staged target ns = record {
      tar = false;
      pending = true;
      lock = true;
      expected = ns;
      staged = staged;
      target = target;
    }

    same_names : (x y ns : Names) → x ≡ y → (not (names_eq y ns) && not (names_eq x y)) ≡ false
    same_names x y ns e = ground (arith, subst (λ z. names_eq z y ≡ true) (sym e) (names_eq_self y))

    publish-returned :
        (target : Option c.File) (h : c.File) (ns : Names)
        → u.names h ≡ ns
        → ns ≢ []
        → Free target
        → publish c timestamp (closed (some h) target ns) ≡ returned tt (closed none (some h) ns)
    unfolding publish
    publish-returned target h ns n e free =
        let v = verify-none h (λ q. e (sym n ∙ q)) in
        rw (publish, v, u.lists h)
          (if_else _ _ _ (same_names (u.names h) ns [] n)
            ∙ if-false c.fsync _ _ u.fsync
            ∙ if_else _ _ _ (Free-guard target free)
            ∙ if-false c.replace _ _ u.replace)

    close_archive-returned :
        (target : Option c.File) (f : c.File) (ns : Names)
        → u.names f ≡ ns
        → ns ≢ []
        → Free target
        → (h : c.File) × (close_archive c timestamp true (filling target f ns)
            ≡ returned tt (idle ns none (some h)))
    unfolding close_archive close_body settle
    close_archive-returned target f ns n e free =
        let (h, a, k) = u.closes f in
        let p = publish-returned target h ns (k ∙ n) e free in
        (h, rw (close_archive, close_body, a, p) refl)

    -- The rest of `fill_archive` after the walk.
    abbrev after_walk : State c → Walked → Exit c Total
    after_walk s walked =
        and_then c
          (and_then c
            (back_up_all c g d selection timestamp false (members_of walked)
              (record { count = 0; size = 0 }) s)
            (raise_stop c g d selection timestamp false walked))
          (λ t u.
            if t.count == 0
            then raised no_members u
            else if false
            then returned t u
            else and_then c (close_archive c timestamp true u) (λ _ v. returned t v))

    after_walk-returned :
        (target : Option c.File) (m : Member) (ms : List Member)
        → ((x : Member) → In x (m ∷ ms) → (i : Info) × (d.info x.path ≡ some i))
        → Free target
        → (v : Total) × (file : c.File) × (after_walk (filling target c.blank []) (done (m ∷ ms))
            ≡ returned v (idle (arcnames (m ∷ ms)) none (some file)))
    unfolding raise_stop
    after_walk-returned target m ms found free =
        let (h, v, r, k, count) =
          all-returned target c.blank [] (m ∷ ms) (record { count = 0; size = 0 }) u.starts found in
        let (file, q) = close_archive-returned target h (arcnames (m ∷ ms)) k (λ e. cc) free in
        let z : (v.count == 0) ≡ false = ground (arith, count) in
        let ending : Total → State c → Exit c Total = λ t u.
          if t.count == 0
          then raised no_members u
          else if false
          then returned t u
          else and_then c (close_archive c timestamp true u) (λ _ v. returned t v) in
        (
          v,
          file,
          ap
                (λ x.
                  and_then c
                    (and_then c x (raise_stop c g d selection timestamp false (done (m ∷ ms))))
                    ending)
                r
              ∙ if_else (v.count == 0) _ _ z
              ∙ ap (λ x. and_then c x (λ _ s. returned v s)) q,
        )

    abbrev sized : Exit c Total → Exit c ℕ
    sized x = and_then c x (λ u t. result_size c false u t)

    -- A run that nothing disturbs returns: if all calls work, the inputs stay as they are, the walk
    -- selects a member at least, and no archive is in the way of a stamped one, then `backup` publishes
    -- and returns the size of the archive.
    pub backup-returns :
        (fuel : ℕ) (ns : Names) (staged target : Option c.File) (raw : RawPath)
        (rest : List RawPath) (m : Member) (ms : List Member)
        → selection.backup_paths ≡ raw ∷ rest
        → walk g d (record selection { pending = some c.temporary }) fuel ≡ done (m ∷ ms)
        → Free target
        → (size : ℕ) × (file : c.File) × (c.stat file ≡ some size)
          × (backup c g d selection timestamp false fuel (idle ns staged target)
              ≡ returned size (idle (arcnames (m ∷ ms)) none (some file)))
    unfolding fill_archive walk_in or_discard result_size
    backup-returns fuel ns staged target raw rest m ms p w free =
        let s = idle ns staged target in
        let found : (x : Member) → In x (m ∷ ms) → (i : Info) × (d.info x.path ≡ some i) = λ x l.
          let b =
            walk-Belongs g d (record selection { pending = some c.temporary }) fuel x
              (subst (λ y. In x (members_of y)) (sym w) l) in
          (b.info, b.found) in
        let (v, file, r) = after_walk-returned target m ms found free in
        let opened = open_archive-returned timestamp ns staged target in
        let (size, e) = u.measures file in
        (
          size,
          file,
          e,
          backup-by_paths c g d selection timestamp (raw ∷ rest) false fuel s p
              ∙ ap
                  (λ x. sized (
                    or_discard c timestamp
                      (and_then c x (λ _ t. fill_archive c g d selection timestamp false fuel t))))
                  opened
              ∙ ap (λ y. sized (or_discard c timestamp (after_walk (filling target c.blank []) y)))
                  w
              ∙ ap (λ x. sized (or_discard c timestamp x)) r
              ∙ rw (result_size, e) refl,
        )
