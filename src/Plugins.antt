-- ===== src/Plugins.antt =====
-- What bdbackup/templates/__init__.py and bdbackup/engines.py share: a registry by name, filled from
-- modules. A module stands for what `_collect` finds in it.
use bdbackup.Base.{
  ◌≡◌, refl, Bool, Option, none, some, List, [], ◌∷◌, String, str_eq, if◌then◌else◌, starts_with,
  arith, eq_iff,
}

-- What a module's `register` gives: an entry, several things of which some are entries, or nothing of
-- use. A hook that raises gives `broken`.
pub data Hook (A : Type 0) : Type 0 where
  absent broken useless : Hook A
  one : A → Hook A
  many : List (Option A) → Hook A

-- A module: its file's name, whether its import works, its constant entry, and its hook.
pub record Plugin (A : Type 0) : Type 0 where
  pub name : String
  pub can_import : Bool
  pub constant : Option A
  pub hook : Hook A

module _ {A : Type 0} (name_of : A → String) where
  -- `_REGISTRY[entry.name] = entry`: a dict keeps the place of a replaced entry.
  unfoldable pub register : A → List A → List A
  register t [] = t ∷ []
  register t (u ∷ us) = if str_eq (name_of u) (name_of t) then t ∷ us else u ∷ register t us

  unfoldable pub register_all : List (Option A) → List A → List A
  unfolding register
  register_all [] r = r
  register_all (none ∷ ts) r = register_all ts r
  register_all (some t ∷ ts) r = register_all ts (register t r)

  abbrev pub run_hook : Hook A → List A → List A
  unfolding register register_all
  run_hook (one t) r = register t r
  run_hook (many ts) r = register_all ts r
  run_hook _ r = r

  -- `_collect`; what was registered before a hook raises stays.
  unfoldable pub collect : Plugin A → List A → List A
  unfolding run_hook register
  collect p r = run_hook p.hook (elim p.constant [ none ↦ r | some t ↦ register t r ])

  -- The loop over the modules: one whose name starts with an underscore is passed over, and one that
  -- cannot be imported is skipped.
  unfoldable pub load : List (Plugin A) → List A → List A
  unfolding collect
  load [] r = r
  load (p ∷ ps) r =
      load ps (if starts_with p.name "_" then r else if p.can_import then collect p r else r)

  -- `_REGISTRY[name]`, with none for a `KeyError`.
  unfoldable pub find : String → List A → Option A
  find k [] = none
  find k (t ∷ ts) = if str_eq (name_of t) k then some t else find k ts

  -- Registering replaces: after an entry is registered, a lookup of its name finds it, and a lookup of
  -- any other name finds what it found before.
  pub find-register :
      (t : A) (k : String) (r : List A)
      → find k (register t r) ≡ (if str_eq (name_of t) k then some t else find k r)
  unfolding find register
  find-register t k [] = refl
  find-register t k (u ∷ us) = ground (
    arith,
    eq_iff (name_of u) (name_of t),
    eq_iff (name_of u) k,
    eq_iff (name_of t) k,
    find-register t k us,
  )
