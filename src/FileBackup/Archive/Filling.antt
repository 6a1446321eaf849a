-- ===== src/FileBackup/Archive/Filling.antt =====
-- bdbackup/filebackup.py, `backup`: its steps, and what each keeps of the archive that is there.
use bdbackup.Base.{
  ℕ, suc, ◌+◌, ◌≡◌, ◌≢◌, refl, sym, ap, subst, ◌∙◌, Bool, true, false, not, Option, none, some,
  List, [], ◌∷◌, ◌++◌, inl, inr, Option-cases, arith, length, if◌then◌else◌, append-nil,
  append_assoc,
}
use bdbackup.Templates.{Globs}
use bdbackup.FileBackup.{Disk, Info, Selection, Member, Walked, done}
use bdbackup.FileBackup.Selected.{arcnames}
use bdbackup.FileBackup.Archive.{
  Calls, State, Exit, returned, raised, state_of, and_then, Names, close_archive, open_archive,
  or_discard, Total, counted, add_member, check_member, back_up_member, back_up_all,
}
use bdbackup.FileBackup.Archive.Close.{
  Exit-cases, IsIdle, close_archive-IsIdle, close_archive-target, close_archive-raised,
  close_archive-Published,
}

module _ (c : Calls) where
  -- What holds where a step returns; where it raises, the archive is the one that was there.
  abbrev pub After : {A : Type 0} → Option c.File → (A → State c → Type 0) → Exit c A → Type 0
  After before P (returned a s) = P a s
  After before P (raised e s) = s.target ≡ before

  pub After-and_then :
      {A B : Type 0} (before : Option c.File) (P : A → State c → Type 0) (R : B → State c → Type 0)
      (x : Exit c A) (k : A → State c → Exit c B)
      → After before P x
      → ((a : A) (s : State c) → P a s → After before R (k a s))
      → After before R (and_then c x k)
  After-and_then before P R (returned a s) k h f = f a s h
  After-and_then before P R (raised e s) k h f = h

  pub After-if :
      {A : Type 0} (before : Option c.File) (P : A → State c → Type 0) (b : Bool) (x y : Exit c A)
      → (b ≡ true → After before P x)
      → (b ≡ false → After before P y)
      → After before P (if b then x else y)
  After-if before P true x y h k = h refl
  After-if before P false x y h k = k refl

  -- A file that a run publishes holds the names of the members that the whole walk selected, it was
  -- read through, and it replaced nothing if the archive is stamped.
  pub record Saves (timestamp : Bool) (walked : Walked) (before : Option c.File) (s : State c)
      : Type 0 where
    pub selected : List Member
    pub ends : walked ≡ done selected
    pub file : c.File
    pub stands : s.target ≡ some file
    pub members : ℕ
    pub full : c.read file ≡ some (suc members)
    pub listed : c.getnames file ≡ some (arcnames selected)
    pub unreplaced : timestamp ≡ true → before ≡ none

  -- The state in the loop of a run.
  abbrev pub Filling : Option c.File → Names → State c → Type 0
  Filling before names s = (s.pending ≡ true) × (s.target ≡ before) × (s.expected ≡ names)

  pub add_member-Filling :
      (before : Option c.File) (names : Names) (m : Member) (s : State c)
      → Filling before names s
      → After before (λ _ t. Filling before names t) (add_member c m s)
  unfolding add_member
  add_member-Filling before names m s f = ground arith

  pub check_member-Filling :
      (before : Option c.File) (names : Names) (i : Info) (m : Member) (s : State c)
      → Filling before names s
      → After before (λ _ t. Filling before (names ++ (m.arcname ∷ [])) t) (check_member c i m s)
  unfolding check_member
  check_member-Filling before names i m s f = ground arith

  module _ (g : Globs) (d : Disk) (selection : Selection) (timestamp : Bool) where
    pub member-Filling :
        (before : Option c.File) (names : Names) (m : Member) (t : Total) (s : State c)
        → Filling before names s
        → After before
            (λ u r. Filling before (names ++ (m.arcname ∷ [])) r × (u.count ≡ suc t.count))
            (back_up_member c g d selection timestamp false m t s)
    unfolding back_up_member counted
    member-Filling before names m t s f = elim (Option-cases (d.info m.path)) [
      | inl e ↦ rw (back_up_member, e) f.1
      | inr (i, e) ↦
          rw (back_up_member, e)
            (After-and_then before (λ _ r. Filling before (names ++ (m.arcname ∷ [])) r)
              (λ u r. Filling before (names ++ (m.arcname ∷ [])) r × (u.count ≡ suc t.count)) _ _
              (After-and_then before (λ _ r. Filling before names r)
                (λ _ r. Filling before (names ++ (m.arcname ∷ [])) r) (add_member c m s)
                (λ _ u. check_member c i m u) (add_member-Filling before names m s f)
                (λ _ u k. check_member-Filling before names i m u k))
              (λ _ u k. (k, refl)))
    ]

    pub all-Filling :
        (before : Option c.File) (names : Names) (ms : List Member) (t : Total) (s : State c)
        → Filling before names s
        → After before
            (λ u r. Filling before (names ++ arcnames ms) r × (u.count ≡ t.count + length ms))
            (back_up_all c g d selection timestamp false ms t s)
    unfolding back_up_all
    all-Filling before names [] t s f = (rw append-nil f, omega arith)
    all-Filling before names (m ∷ ms) t s f =
        After-and_then before
          (λ u r. Filling before (names ++ (m.arcname ∷ [])) r × (u.count ≡ suc t.count))
          (λ u r.
            Filling before (names ++ arcnames (m ∷ ms)) r × (u.count ≡ t.count + length (m ∷ ms)))
          (back_up_member c g d selection timestamp false m t s)
          (λ u r. back_up_all c g d selection timestamp false ms u r)
          (member-Filling before names m t s f)
          (λ u r k. go u r k.1 (all-Filling before (names ++ (m.arcname ∷ [])) ms u r k.0))
      where
        go :
            (u : Total) (r : State c)
            → u.count ≡ suc t.count
            → After before
                (λ v q.
                  Filling before ((names ++ (m.arcname ∷ [])) ++ arcnames ms) q
                  × (v.count ≡ u.count + length ms))
                (back_up_all c g d selection timestamp false ms u r)
            → After before
                (λ v q.
                  Filling before (names ++ arcnames (m ∷ ms)) q
                  × (v.count ≡ t.count + length (m ∷ ms)))
                (back_up_all c g d selection timestamp false ms u r)
        go u r k h = elim (Exit-cases c (back_up_all c g d selection timestamp false ms u r)) [
          | inl (v, q, e) ↦ rw e (
            subst (λ n. Filling before n q) (append_assoc names (m.arcname ∷ []) (arcnames ms))
                (rw e at h).0,
            omega (arith, (rw e at h).1, k),
          )
          | inr (v, q, e) ↦ rw e (rw e at h)
        ]

  pub or_discard-After :
      {A : Type 0} (before : Option c.File) (P : A → State c → Type 0) (timestamp : Bool)
      (x : Exit c A)
      → After before P x
      → After before P (or_discard c timestamp x)
  unfolding or_discard
  or_discard-After before P timestamp (returned a s) h = h
  or_discard-After before P timestamp (raised e s) h =
      elim (Exit-cases c (close_archive c timestamp false s)) [
        | inl (a, t, q) ↦
            rw (or_discard, q)
              (sym (ap (λ x. (state_of c x).target) q) ∙ close_archive-target c timestamp s ∙ h)
        | inr (e, t, q) ↦
            rw (or_discard, q)
              (sym (ap (λ x. (state_of c x).target) q) ∙ close_archive-target c timestamp s ∙ h)
      ]

  pub or_discard-IsIdle :
      {A : Type 0} (timestamp : Bool) (x : Exit c A)
      → ((a : A) (s : State c) → x ≡ returned a s → IsIdle c s)
      → IsIdle c (state_of c (or_discard c timestamp x))
  unfolding or_discard
  or_discard-IsIdle timestamp (returned a s) h = h a s refl
  or_discard-IsIdle timestamp (raised e s) h =
      elim (Exit-cases c (close_archive c timestamp false s)) [
        | inl (a, t, q) ↦
            rw (or_discard, q)
              (subst (λ x. IsIdle c (state_of c x)) q (close_archive-IsIdle c timestamp false s))
        | inr (e, t, q) ↦
            rw (or_discard, q)
              (subst (λ x. IsIdle c (state_of c x)) q (close_archive-IsIdle c timestamp false s))
      ]

  pub open_archive-Filling :
      (timestamp : Bool) (s : State c)
      → s.tar ≡ false
      → After s.target (λ _ t. Filling s.target [] t) (open_archive c timestamp s)
  unfolding open_archive
  open_archive-Filling timestamp s i =
      let P : Unit → State c → Type 0 = λ _ t. Filling s.target [] t in
      After-if s.target P s.tar _ _ (λ t. absurd (cc (t, i)))
        (λ _.
          After-if s.target P (not c.lock_free) _ _ (λ _. refl)
            (λ _. or_discard-After s.target P timestamp _ (
              After-if s.target P (not c.mkstemp) _ _ (λ _. refl)
                (λ _.
                  After-if s.target P (not c.tar_open) _ _ (λ _. refl) (λ _. (refl, refl, refl))))))

  pub close_archive-Saves :
      (timestamp : Bool) (before : Option c.File) (ms : List Member) (s : State c) (t : Total)
      → arcnames ms ≢ []
      → Filling before (arcnames ms) s
      → After before
          (λ _ u. Saves timestamp (done ms) before u × IsIdle c u)
          (and_then c (close_archive c timestamp true s) (λ _ u. returned t u))
  close_archive-Saves timestamp before ms s t n (p, b, e) =
      elim (Exit-cases c (close_archive c timestamp true s)) [
        | inl (a, u, q) ↦
            let (f, k, y) = close_archive-Published c timestamp s u a p q in
            rw q (
              record {
                selected = ms;
                ends = refl;
                file = f;
                stands = y;
                members = k.members;
                full = k.full;
                listed = elim k.expected [
                  | inl z ↦ absurd (n (sym e ∙ z))
                  | inr z ↦ k.listed ∙ ap some (z ∙ e)
                ];
                unreplaced = λ w. sym b ∙ k.unreplaced w;
              },
              subst (λ x. IsIdle c (state_of c x)) q (close_archive-IsIdle c timestamp true s),
            )
        | inr (r, u, q) ↦ rw q (close_archive-raised c timestamp s u r p q ∙ b)
      ]
