-- ===== src/FileBackup/Archive/Close.antt =====
-- bdbackup/filebackup.py, `close_archive`: what it publishes, and how it leaves the object.
use bdbackup.Base.{
  ℕ, zero, suc, ◌≡◌, ◌≢◌, refl, ap, subst, ◌∙◌, if◌then◌else◌, Bool, true, false, ◌&&◌, Option,
  none, some, [], ◌∷◌, ◌⊎◌, inl, inr, Bool-cases, Option-cases, arith,
}
use bdbackup.Base.FilePath.{path_eq_sound, path_eq_self}
use bdbackup.FileBackup.Archive.{
  Calls, State, Exit, returned, raised, state_of, Names, names_eq, verify, publish, close_body,
  settle, close_archive, Failure, broken,
}

pub names_eq_sound : (a b : Names) → names_eq a b ≡ true → a ≡ b
unfolding names_eq
names_eq_sound [] [] h = refl
names_eq_sound [] (y ∷ b) h = cc
names_eq_sound (x ∷ a) [] h = cc
names_eq_sound (x ∷ a) (y ∷ b) h = ground (arith, path_eq_sound x y, names_eq_sound a b)

pub names_eq_self : (a : Names) → names_eq a a ≡ true
unfolding names_eq
names_eq_self [] = refl
names_eq_self (x ∷ a) = ground (arith, names_eq_self a, path_eq_self x)

module _ (c : Calls) where
  pub Exit-cases :
      {A : Type 0} (x : Exit c A)
      → ((a : A) × (s : State c) × (x ≡ returned a s))
        ⊎ ((e : Failure) × (s : State c) × (x ≡ raised e s))
  Exit-cases (returned a s) = inl (a, s, refl)
  Exit-cases (raised e s) = inr (e, s, refl)

  -- Nothing is open, staged or locked by the object.
  abbrev pub IsIdle : State c → Type 0
  IsIdle s = (s.tar ≡ false) × (s.pending ≡ false) × (s.lock ≡ false)

  pub settle-IsIdle :
      (e : Option Failure) (s : State c)
      → IsIdle (state_of c (settle c e s)) × ((state_of c (settle c e s)).target ≡ s.target)
  unfolding settle
  settle-IsIdle none s = ground arith
  settle-IsIdle (some e) s = ground arith

  -- What is published: a file that a full read went through, that has the expected names, and that
  -- replaces nothing if the archive is stamped.
  pub record Published (timestamp : Bool) (names_wanted : Names) (before : Option c.File)
      (file : c.File) : Type 0 where
    pub members : ℕ
    pub names : Names
    pub full : c.read file ≡ some (suc members)
    pub listed : c.getnames file ≡ some names
    pub expected : (names_wanted ≡ []) ⊎ (names ≡ names_wanted)
    pub unreplaced : timestamp ≡ true → before ≡ none

  pub publish-raised :
      (timestamp : Bool) (s t : State c) (e : Failure) → publish c timestamp s ≡ raised e t → t ≡ s
  unfolding publish
  publish-raised timestamp s t e h = ground arith

  pub publish-Published :
      (timestamp : Bool) (s t : State c) (a : Unit)
      → publish c timestamp s ≡ returned a t
      → (file : c.File) × Published timestamp s.expected s.target file
        × (t.target ≡ some file)
        × (t.staged ≡ none)
        × (t.pending ≡ s.pending)
  unfolding publish verify
  publish-Published timestamp s t a h = elim (Option-cases s.staged) [
    | inl e ↦ absurd (ground arith)
    | inr (f, e) ↦ elim (Option-cases (c.read f)) [
      | inl r ↦ absurd (ground arith)
      | inr (zero, r) ↦ absurd (ground arith)
      | inr (suc n, r) ↦ elim (Option-cases (c.getnames f)) [
        | inl m ↦ absurd (ground arith)
        | inr (names, m) ↦ (
          f,
          record {
            members = n;
            names = names;
            full = r;
            listed = m;
            expected = elim (Bool-cases (names_eq s.expected [])) [
              | inl q ↦ inl (names_eq_sound s.expected [] q)
              | inr q ↦ inr (names_eq_sound names s.expected (ground arith))
            ];
            unreplaced = λ k. elim (Option-cases s.target) [
              | inl q ↦ q
              | inr (x, q) ↦ absurd (ground arith)
            ];
          },
          ground arith,
          ground arith,
          ground arith,
        )
      ]
    ]
  ]

  -- Closing `tar` changes the staging file only.
  close_tar_keeps :
      (timestamp : Bool) (s : State c)
      → (state_of c (close_body c timestamp false s)).target ≡ s.target
  unfolding close_body
  close_tar_keeps timestamp s = ground arith

  abbrev closed_tar : State c → Exit c Unit
  closed_tar s =
      if s.tar
      then elim s.staged [
        | none ↦ raised broken s
        | some f ↦ elim (c.tar_close f) [
          | none ↦ raised broken s
          | some h ↦ returned tt (record s { tar = false; staged = some h })
        ]
      ]
      else returned tt s

  closed_tar-raised : (s t : State c) (e : Failure) → closed_tar s ≡ raised e t → t ≡ s
  closed_tar-raised s t e h = ground arith

  closed_tar-returned :
      (s t : State c) (a : Unit)
      → closed_tar s ≡ returned a t
      → (t.expected ≡ s.expected) × (t.target ≡ s.target) × (t.pending ≡ s.pending)
  closed_tar-returned s t a h = ground arith

  -- The publication is tried if there is a staging file.
  abbrev tried : Bool → Bool → State c → Exit c Unit
  tried pending timestamp u = if pending && true then publish c timestamp u else returned tt u

  tried-raised :
      (b timestamp : Bool) (u t : State c) (e : Failure) → tried b timestamp u ≡ raised e t → t ≡ u
  tried-raised true timestamp u t e h = publish-raised timestamp u t e h
  tried-raised false timestamp u t e h = cc

  body-raised :
      (timestamp : Bool) (s t : State c) (e : Failure)
      → close_body c timestamp true s ≡ raised e t
      → t.target ≡ s.target
  unfolding close_body
  body-raised timestamp s t e h = elim (Exit-cases (closed_tar s)) [
    | inl (a, u, q) ↦
        ap (λ (x : State c). x.target) (tried-raised u.pending timestamp u t e (rw q at h))
        ∙ (closed_tar-returned s u a q).1
    | inr (r, u, q) ↦ ground (arith, rw q at h, closed_tar-raised s u r q)
  ]

  tried-Published :
      (b timestamp : Bool) (u t : State c) (a : Unit)
      → b ≡ true
      → tried b timestamp u ≡ returned a t
      → (file : c.File) × Published timestamp u.expected u.target file
        × (t.target ≡ some file)
        × (t.staged ≡ none)
  tried-Published true timestamp u t a p h =
      let (f, k, e, n, q) = publish-Published timestamp u t a h in (f, k, e, n)
  tried-Published false timestamp u t a p h = cc

  body-Published :
      (timestamp : Bool) (s t : State c) (a : Unit)
      → s.pending ≡ true
      → close_body c timestamp true s ≡ returned a t
      → (file : c.File) × Published timestamp s.expected s.target file
        × (t.target ≡ some file)
        × (t.staged ≡ none)
  unfolding close_body
  body-Published timestamp s t a p h = elim (Exit-cases (closed_tar s)) [
    | inl (b, u, q) ↦
        let (x, y, z) = closed_tar-returned s u b q in
        let (f, k, e, n) = tried-Published u.pending timestamp u t a (z ∙ p) (rw q at h) in
        (
          f,
          subst (λ w. Published timestamp w s.target f) x
              (subst (λ w. Published timestamp u.expected w f) y k),
          e,
          n,
        )
    | inr (r, u, q) ↦ absurd (cc (rw q at h))
  ]

  -- However it ends, `close_archive` leaves the object idle.
  pub close_archive-IsIdle :
      (timestamp wanted : Bool) (s : State c)
      → IsIdle (state_of c (close_archive c timestamp wanted s))
  unfolding close_archive
  close_archive-IsIdle timestamp wanted s = elim (Exit-cases (close_body c timestamp wanted s)) [
    | inl (a, t, q) ↦ rw (close_archive, q) (settle-IsIdle none t).0
    | inr (e, t, q) ↦ rw (close_archive, q) (settle-IsIdle (some e) t).0
  ]

  -- Without the wish to publish it leaves the archive alone.
  pub close_archive-target :
      (timestamp : Bool) (s : State c)
      → (state_of c (close_archive c timestamp false s)).target ≡ s.target
  unfolding close_archive
  close_archive-target timestamp s = elim (Exit-cases (close_body c timestamp false s)) [
    | inl (a, t, q) ↦
        rw (close_archive, q) ((settle-IsIdle none t).1 ∙ rw q at (close_tar_keeps timestamp s))
    | inr (e, t, q) ↦
        rw (close_archive, q) ((settle-IsIdle (some e) t).1 ∙ rw q at (close_tar_keeps timestamp s))
  ]

  settle_fails : (e : Failure) (s t : State c) (a : Unit) → settle c (some e) s ≢ returned a t
  unfolding settle
  settle_fails e s t a h = ground arith

  settle_moved : (e : Failure) (s t : State c) → s.staged ≡ none → settle c none s ≢ raised e t
  unfolding settle
  settle_moved e s t n h = ground arith

  -- If it raises, it leaves the archive that was there; if it returns, the new one is published.
  pub close_archive-raised :
      (timestamp : Bool) (s t : State c) (e : Failure)
      → s.pending ≡ true
      → close_archive c timestamp true s ≡ raised e t
      → t.target ≡ s.target
  unfolding close_archive
  close_archive-raised timestamp s t e p h = elim (Exit-cases (close_body c timestamp true s)) [
    | inl (a, u, q) ↦
        let (f, k, y, n) = body-Published timestamp s u a p q in
        absurd (settle_moved e u t n (rw (close_archive, q) at h))
    | inr (r, u, q) ↦
        rw (← ap (state_of c) (rw (close_archive, q) at h))
          ((settle-IsIdle (some r) u).1 ∙ body-raised timestamp s u r q)
  ]

  pub close_archive-Published :
      (timestamp : Bool) (s t : State c) (a : Unit)
      → s.pending ≡ true
      → close_archive c timestamp true s ≡ returned a t
      → (file : c.File) × Published timestamp s.expected s.target file × (t.target ≡ some file)
  unfolding close_archive
  close_archive-Published timestamp s t a p h = elim (Exit-cases (close_body c timestamp true s)) [
    | inl (b, u, q) ↦
        let (f, k, y, n) = body-Published timestamp s u b p q in
        (f, k, rw (← ap (state_of c) (rw (close_archive, q) at h)) ((settle-IsIdle none u).1 ∙ y))
    | inr (r, u, q) ↦ absurd (settle_fails r u t a (rw (close_archive, q) at h))
  ]
