-- ===== src/FileBackup/Archive/Safety.antt =====
-- bdbackup/filebackup.py, `backup`: what a run publishes, and what it leaves behind.
use bdbackup.Base.{
  ℕ, ◌≡◌, ◌⊎◌, refl, ap, ◌∙◌, Bool, true, false, Option, some, List, [], ◌∷◌, inl, inr,
  Option-cases, List-cases,
}
use bdbackup.Templates.{Globs}
use bdbackup.FileBackup.{Disk, Selection, RawPath}
use bdbackup.FileBackup.Archive.{
  Calls, State, Exit, returned, raised, state_of, and_then, close_archive, or_discard, Total,
  backup, result_size, unmeasured, no_paths,
}
use bdbackup.FileBackup.Archive.Close.{IsIdle, close_archive-IsIdle}
use bdbackup.FileBackup.Archive.Filling.{After, Saves, or_discard-After, or_discard-IsIdle}
use bdbackup.FileBackup.Archive.Body.{body, full_walk, body-Saves, body-IsIdle}

module _ (c : Calls) where
  module _ (g : Globs) (d : Disk) (selection : Selection) (timestamp : Bool) where
    -- A run by whether there is an entry in the template.
    abbrev pub by_paths : List RawPath → Bool → ℕ → State c → Exit c ℕ
    by_paths [] dry_run fuel s =
        and_then c (close_archive c timestamp false s) (λ _ t. raised no_paths t)
    by_paths (raw ∷ rest) dry_run fuel s =
        and_then c (or_discard c timestamp (body c g d selection timestamp dry_run fuel s))
          (λ u t. result_size c dry_run u t)

    pub backup-by_paths :
        (ps : List RawPath) (dry_run : Bool) (fuel : ℕ) (s : State c)
        → selection.backup_paths ≡ ps
        → backup c g d selection timestamp dry_run fuel s ≡ by_paths ps dry_run fuel s
    unfolding backup
    backup-by_paths ps dry_run fuel s p =
        go selection.backup_paths ∙ ap (λ qs. by_paths qs dry_run fuel s) p
      where
        go :
            (qs : List RawPath)
            → (elim qs [
              | [] ↦ and_then c (close_archive c timestamp false s) (λ _ t. raised no_paths t)
              | raw ∷ rest ↦
                  and_then c
                    (or_discard c timestamp (body c g d selection timestamp dry_run fuel s))
                    (λ u t. result_size c dry_run u t)
            ])
              ≡ by_paths qs dry_run fuel s
        go [] = refl
        go (raw ∷ rest) = refl

    -- How a run may end, where `P` holds of a state with a new archive.
    abbrev pub Outcome : Option c.File → (State c → Type 0) → Exit c ℕ → Type 0
    Outcome before P (returned n s) =
        P s × ((f : c.File) × (s.target ≡ some f) × (c.stat f ≡ some n))
    Outcome before P (raised e s) = (s.target ≡ before) ⊎ ((e ≡ unmeasured) × P s)

    result_size-Outcome :
        (before : Option c.File) (P : State c → Type 0) (x : Exit c Total)
        → After c before (λ _ t. P t) x
        → Outcome before P (and_then c x (λ u t. result_size c false u t))
    unfolding result_size
    result_size-Outcome before P (raised e s) h = inl h
    result_size-Outcome before P (returned u s) h = elim (Option-cases s.target) [
      | inl n ↦ rw (result_size, n) (inr (refl, h))
      | inr (f, n) ↦ elim (Option-cases (c.stat f)) [
        | inl m ↦ rw (result_size, n, m) (inr (refl, h))
        | inr (size, m) ↦ rw (result_size, n, m) (h, (f, n, m))
      ]
    ]

    -- A run that returns has published an archive whose members' names are those that the whole walk
    -- selected, one at least, no stamped archive was there before, and the size that it returns is the
    -- archive's. A run that raises leaves the archive that was there, unless the exception is that of
    -- the `stat` of the archive behind its publication: then it has published such an archive too.
    pub backup-Saves :
        (fuel : ℕ) (s : State c) (raw : RawPath) (rest : List RawPath)
        → selection.backup_paths ≡ raw ∷ rest
        → IsIdle c s
        → Outcome s.target
            (Saves c timestamp (full_walk c g d selection timestamp fuel) s.target)
            (backup c g d selection timestamp false fuel s)
    unfolding backup
    backup-Saves fuel s raw rest p i = rw (backup-by_paths (raw ∷ rest) false fuel s p) (
        result_size-Outcome s.target
          (Saves c timestamp (full_walk c g d selection timestamp fuel) s.target)
          (or_discard c timestamp (body c g d selection timestamp false fuel s))
          (or_discard-After c s.target
            (λ _ t. Saves c timestamp (full_walk c g d selection timestamp fuel) s.target t)
            timestamp (body c g d selection timestamp false fuel s)
            (first (body c g d selection timestamp false fuel s)
              (body-Saves c g d selection timestamp fuel s i))))
      where
        first :
            (x : Exit c Total)
            → After c s.target
                (λ _ t.
                  Saves c timestamp (full_walk c g d selection timestamp fuel) s.target t
                  × IsIdle c t)
                x
            → After c s.target
                (λ _ t. Saves c timestamp (full_walk c g d selection timestamp fuel) s.target t)
                x
        first (returned a u) h = h.0
        first (raised e u) h = h

    result_size-IsIdle :
        (dry_run : Bool) (u : Total) (t : State c)
        → IsIdle c t
        → IsIdle c (state_of c {A = ℕ} (result_size c dry_run u t))
    unfolding result_size
    result_size-IsIdle true u t h = h
    result_size-IsIdle false u t h = elim (Option-cases t.target) [
      | inl n ↦ rw (result_size, n) h
      | inr (f, n) ↦ elim (Option-cases (c.stat f)) [
        | inl m ↦ rw (result_size, n, m) h
        | inr (size, m) ↦ rw (result_size, n, m) h
      ]
    ]

    -- However a run ends, it leaves nothing open and nothing locked.
    pub backup-IsIdle :
        (dry_run : Bool) (fuel : ℕ) (s : State c)
        → IsIdle c s
        → IsIdle c (state_of c {A = ℕ} (backup c g d selection timestamp dry_run fuel s))
    unfolding backup
    backup-IsIdle dry_run fuel s i = elim (List-cases selection.backup_paths) [
      | inl p ↦
          rw (backup-by_paths [] dry_run fuel s p)
            (go (close_archive c timestamp false s) (close_archive-IsIdle c timestamp false s))
      | inr (raw, rest, p) ↦ rw (backup-by_paths (raw ∷ rest) dry_run fuel s p) (
          measured (or_discard c timestamp (body c g d selection timestamp dry_run fuel s)) (
            or_discard-IsIdle c timestamp (body c g d selection timestamp dry_run fuel s)
              (body-IsIdle c g d selection timestamp dry_run fuel s i)))
    ]
      where
        measured :
            (x : Exit c Total)
            → IsIdle c (state_of c {A = Total} x)
            → IsIdle c (state_of c {A = ℕ} (and_then c x (λ u t. result_size c dry_run u t)))
        measured (returned u t) h = result_size-IsIdle dry_run u t h
        measured (raised e t) h = h

        go :
            (x : Exit c Unit)
            → IsIdle c (state_of c {A = Unit} x)
            → IsIdle c (state_of c {A = ℕ} (and_then c x (λ _ t. raised no_paths t)))
        go (returned a t) h = h
        go (raised e t) h = h
