-- ===== src/FileBackup/Archive/Body.antt =====
-- bdbackup/filebackup.py, `backup`: its `try` block, in a run and in a dry run.
use bdbackup.Base.{
  ℕ, ◌+◌, ◌≡◌, ◌≢◌, refl, sym, subst, Bool, true, false, Option, some, List, [], ◌∷◌, inl, inr,
  Option-cases, arith, ◌==◌, length, if◌then◌else◌,
}
use bdbackup.Templates.{Globs}
use bdbackup.FileBackup.{Disk, Selection, Member, Walked, done, stopped, members_of, walk}
use bdbackup.FileBackup.Selected.{arcnames}
use bdbackup.FileBackup.Archive.{
  Calls, State, Exit, returned, raised, and_then, close_archive, open_archive, Total,
  back_up_member, back_up_all, raise_stop, walk_in, fill_archive, no_members,
}
use bdbackup.FileBackup.Archive.Close.{IsIdle}
use bdbackup.FileBackup.Archive.Filling.{
  After, After-and_then, After-if, Saves, Filling, all-Filling, open_archive-Filling,
  close_archive-Saves,
}

module _ (c : Calls) where
  module _ (g : Globs) (d : Disk) (selection : Selection) (timestamp : Bool) where
    abbrev Done : ℕ → State c → Option c.File → Total → State c → Type 0
    Done fuel s before t u =
        Saves c timestamp (walk_in c g d selection timestamp false fuel s) before u × IsIdle c u

    arcnames_nonempty :
        (ms : List Member) (n : ℕ) → n ≡ length ms → (n == 0) ≡ false → arcnames ms ≢ []
    arcnames_nonempty [] n e h q = absurd (ground arith)
    arcnames_nonempty (m ∷ ms) n e h q = cc

    -- The rest of a run after its loop, by what the walk was.
    ending-Saves :
        (before : Option c.File) (walked : Walked) (t : Total) (s : State c)
        → Filling c before (arcnames (members_of walked)) s
        → t.count ≡ length (members_of walked)
        → After c before
            (λ _ u. Saves c timestamp walked before u × IsIdle c u)
            (and_then c (raise_stop c g d selection timestamp false walked t s) (λ t u.
              if t.count == 0
              then raised no_members u
              else if false
              then returned t u
              else and_then c (close_archive c timestamp true u) (λ _ v. returned t v)))
    unfolding raise_stop
    ending-Saves before (stopped ms e) t s f n = f.1
    ending-Saves before (done ms) t s f n =
        After-if c before (λ _ u. Saves c timestamp (done ms) before u × IsIdle c u) (t.count == 0)
          _ _ (λ _. f.1)
          (λ z. close_archive-Saves c timestamp before ms s t (arcnames_nonempty ms t.count n z) f)

    fill_archive-Saves :
        (fuel : ℕ) (before : Option c.File) (s : State c)
        → Filling c before [] s
        → After c before (Done fuel s before) (fill_archive c g d selection timestamp false fuel s)
    unfolding fill_archive
    fill_archive-Saves fuel before s f =
        let walked = walk_in c g d selection timestamp false fuel s in
        let loop : Exit c Total =
          back_up_all c g d selection timestamp false (members_of walked)
            (record { count = 0; size = 0 }) s in
        go loop (
          all-Filling c g d selection timestamp before [] (members_of walked)
            (record { count = 0; size = 0 }) s f)
      where
        go :
            (x : Exit c Total)
            → After c before
                (λ u r.
                  Filling c before
                    (arcnames (members_of (walk_in c g d selection timestamp false fuel s)))
                    r
                  × (u.count
                      ≡ 0 + length (members_of (walk_in c g d selection timestamp false fuel s))))
                x
            → After c before (Done fuel s before) (
                and_then c
                  (and_then c x (
                    raise_stop c g d selection timestamp false
                      (walk_in c g d selection timestamp false fuel s)))
                  (λ t u.
                    if t.count == 0
                    then raised no_members u
                    else if false
                    then returned t u
                    else and_then c (close_archive c timestamp true u) (λ _ v. returned t v)))
        go (returned t u) h =
            ending-Saves before (walk_in c g d selection timestamp false fuel s) t u h.0
              (omega (arith, h.1))
        go (raised e u) h = h

    -- The `try` block of a run.
    abbrev pub body : Bool → ℕ → State c → Exit c Total
    body dry_run fuel s =
        and_then c (if dry_run then returned tt s else open_archive c timestamp s)
          (λ _ t. fill_archive c g d selection timestamp dry_run fuel t)

    abbrev pub full_walk : ℕ → Walked
    full_walk fuel = walk g d (record selection { pending = some c.temporary }) fuel

    pub body-Saves :
        (fuel : ℕ) (s : State c)
        → IsIdle c s
        → After c s.target
            (λ _ t. Saves c timestamp (full_walk fuel) s.target t × IsIdle c t)
            (body false fuel s)
    unfolding walk_in
    body-Saves fuel s i =
        After-and_then c s.target (λ _ t. Filling c s.target [] t)
          (λ _ t. Saves c timestamp (full_walk fuel) s.target t × IsIdle c t)
          (open_archive c timestamp s) (λ _ t. fill_archive c g d selection timestamp false fuel t)
          (open_archive-Filling c timestamp s i.0)
          (λ _ t f. same t f.0 _ (fill_archive-Saves fuel s.target t f))
      where
        same :
            (t : State c)
            → t.pending ≡ true
            → (x : Exit c Total) → After c s.target (Done fuel t s.target) x
            → After c s.target (λ _ u. Saves c timestamp (full_walk fuel) s.target u × IsIdle c u) x
        same t q (returned a u) h = (rw q at h.0, h.1)
        same t q (raised e u) h = h

    member-dry :
        (m : Member) (t : Total) (s : State c)
        → After c s.target (λ _ u. u ≡ s) (back_up_member c g d selection timestamp true m t s)
    unfolding back_up_member
    member-dry m t s = elim (Option-cases (d.info m.path)) [
      | inl e ↦ rw (back_up_member, e) refl
      | inr (i, e) ↦ rw (back_up_member, e) refl
    ]

    all-dry :
        (ms : List Member) (t : Total) (s : State c)
        → After c s.target (λ _ u. u ≡ s) (back_up_all c g d selection timestamp true ms t s)
    unfolding back_up_all
    all-dry [] t s = refl
    all-dry (m ∷ ms) t s =
        After-and_then c s.target (λ _ u. u ≡ s) (λ _ u. u ≡ s)
          (back_up_member c g d selection timestamp true m t s)
          (λ u r. back_up_all c g d selection timestamp true ms u r) (member-dry m t s)
          (λ u r e.
            subst
              (λ x.
                After c s.target (λ _ u. u ≡ s) (back_up_all c g d selection timestamp true ms u x))
              (sym e) (all-dry ms u s))

    ending-dry :
        (walked : Walked) (t : Total) (s : State c)
        → After c s.target
            (λ _ u. u ≡ s)
            (and_then c (raise_stop c g d selection timestamp true walked t s) (λ t u.
              if t.count == 0
              then raised no_members u
              else if true
              then returned t u
              else and_then c (close_archive c timestamp true u) (λ _ v. returned t v)))
    unfolding raise_stop
    ending-dry (stopped ms e) t s = refl
    ending-dry (done ms) t s =
        After-if c s.target (λ _ u. u ≡ s) (t.count == 0) _ _ (λ _. refl) (λ _. refl)

    body-dry : (fuel : ℕ) (s : State c) → After c s.target (λ _ t. t ≡ s) (body true fuel s)
    unfolding fill_archive
    body-dry fuel s =
        let walked = walk_in c g d selection timestamp true fuel s in
        go
          (back_up_all c g d selection timestamp true (members_of walked)
            (record { count = 0; size = 0 }) s)
          (all-dry (members_of walked) (record { count = 0; size = 0 }) s)
      where
        go :
            (x : Exit c Total)
            → After c s.target (λ _ t. t ≡ s) x
            → After c s.target
                (λ _ t. t ≡ s)
                (and_then c
                  (and_then c x (
                    raise_stop c g d selection timestamp true
                      (walk_in c g d selection timestamp true fuel s)))
                  (λ t u.
                    if t.count == 0
                    then raised no_members u
                    else if true
                    then returned t u
                    else and_then c (close_archive c timestamp true u) (λ _ v. returned t v)))
        go (returned t u) h =
            subst
              (λ z.
                After c s.target (λ _ t. t ≡ s)
                  (and_then c
                    (raise_stop c g d selection timestamp true
                      (walk_in c g d selection timestamp true fuel s) t z)
                    (λ t u.
                      if t.count == 0
                      then raised no_members u
                      else if true
                      then returned t u
                      else and_then c (close_archive c timestamp true u) (λ _ v. returned t v))))
              (sym h) (ending-dry (walk_in c g d selection timestamp true fuel s) t s)
        go (raised e u) h = h

    pub body-IsIdle :
        (dry_run : Bool) (fuel : ℕ) (s : State c)
        → IsIdle c s
        → (a : Total) (t : State c) → body dry_run fuel s ≡ returned a t
        → IsIdle c t
    body-IsIdle true fuel s i a t e = rw (rw e at (body-dry fuel s)) i
    body-IsIdle false fuel s i a t e = (rw e at (body-Saves fuel s i)).1
