-- ===== src/Templates.antt =====
-- bdbackup/templates: the registry of exclusion templates and the rules that they are made of.
-- Whether a rule's regular expression matches a path is a parameter.
pub mod Registry
pub mod Rules
use bdbackup.Base.{
  ◌≡◌, refl, ◌∙◌, Bool, true, false, not, ◌&&◌, ◌||◌, none, some, List, [], ◌∷◌, ◌++◌, String,
  if◌then◌else◌, any_of, keep_if, arith,
}
use bdbackup.Base.FilePath.{FilePath, path_eq, is_relative_to, relative_to}

-- `_Rule`
pub record Rule : Type 0 where
  pub pattern : String
  pub negated : Bool
  pub dir_only : Bool
  pub anchored : Bool
  pub has_slash : Bool

-- What decides a single match, on a text given by its parts: the rule's regular expression, and
-- `fnmatch.fnmatchcase`.
pub record Globs : Type 0 where
  pub regex : Rule → List String → Bool
  pub fnmatch : Rule → List String → Bool

-- `as_posix()` of a relative path: the root itself is ".".
abbrev pub posix : List String → List String
posix [] = "." ∷ []
posix (p ∷ ps) = p ∷ ps

-- The root-relative forms of a path.
unfoldable pub candidates : FilePath → List FilePath → List FilePath
unfolding relative_to
candidates path [] = []
candidates path (r ∷ roots) =
    let rest = candidates path roots in
    elim (relative_to path r) [ none ↦ rest | some c ↦ posix c ∷ rest ]

-- Every trailing suffix of a path.
unfoldable pub any_suffix : (List String → Bool) → List String → Bool
any_suffix f [] = false
any_suffix f (p ∷ ps) = f (p ∷ ps) || any_suffix f ps

abbrev pub name_of : FilePath → List String
name_of [] = []
name_of (p ∷ []) = p ∷ []
name_of (p ∷ q ∷ ps) = name_of (q ∷ ps)

-- The directories above a path, the nearest first or not: only membership matters.
unfoldable pub parents : FilePath → List FilePath
parents [] = []
parents (p ∷ ps) = [] ∷ add_head (parents ps)
  where
    add_head : List FilePath → List FilePath
    add_head [] = []
    add_head (q ∷ qs) = (p ∷ q) ∷ add_head qs

module _ (g : Globs) where
  -- `_Rule.matches`; the absolute path starts with an empty part, for its slash.
  unfoldable pub rule_matches : Rule → FilePath → Bool → List FilePath → Bool
  unfolding candidates any_suffix
  rule_matches r path is_dir roots =
      if r.dir_only && not is_dir
      then false
      else if r.has_slash
      then (if r.anchored
          then any_of (g.regex r) (candidates path roots)
          else any_of (any_suffix (g.regex r)) (candidates path roots ++ (("" ∷ path) ∷ [])))
      else if r.anchored
      then any_of (g.fnmatch r) (candidates path roots)
      else g.fnmatch r (name_of path)

  -- The test of one rule in `GitignoreMatcher.matches`.
  unfoldable pub applies : Rule → FilePath → Bool → List FilePath → Bool
  unfolding rule_matches parents
  applies r path is_dir roots =
      rule_matches r path is_dir roots
      || any_of (λ p. rule_matches r p true roots)
          (keep_if (λ p. any_of (λ root. path_eq p root || is_relative_to p root) roots)
            (parents path))

  -- `GitignoreMatcher.matches`
  unfoldable pub excluded_by : List Rule → FilePath → Bool → List FilePath → Bool → Bool
  unfolding applies
  excluded_by [] path is_dir roots excluded = excluded
  excluded_by (r ∷ rs) path is_dir roots excluded =
      excluded_by rs path is_dir roots
        (if applies r path is_dir roots then not r.negated else excluded)

  unfoldable pub matches : List Rule → FilePath → Bool → List FilePath → Bool
  unfolding excluded_by
  matches rules path is_dir roots = excluded_by rules path is_dir roots false

  excluded_by-append :
      (xs ys : List Rule) (path : FilePath) (d : Bool) (roots : List FilePath) (e : Bool)
      → excluded_by (xs ++ ys) path d roots e
        ≡ excluded_by ys path d roots (excluded_by xs path d roots e)
  unfolding excluded_by
  excluded_by-append [] ys path d roots e = refl
  excluded_by-append (x ∷ xs) ys path d roots e = excluded_by-append xs ys path d roots _

  excluded_by-none :
      (rs : List Rule) (path : FilePath) (d : Bool) (roots : List FilePath) (e : Bool)
      → any_of (λ r. applies r path d roots) rs ≡ false
      → excluded_by rs path d roots e ≡ e
  unfolding excluded_by
  excluded_by-none [] path d roots e h = refl
  excluded_by-none (r ∷ rs) path d roots e h =
      let q : applies r path d roots ≡ false = ground arith in
      rw q (excluded_by-none rs path d roots e (ground arith))

  excluded_by-hit :
      (r : Rule) (ys : List Rule) (path : FilePath) (d : Bool) (roots : List FilePath) (e : Bool)
      → applies r path d roots ≡ true
      → excluded_by (r ∷ ys) path d roots e ≡ excluded_by ys path d roots (not r.negated)
  unfolding excluded_by
  excluded_by-hit r ys path d roots e a = rw a refl

  -- The last rule that applies decides: if a rule applies to a path or to a directory above it, and
  -- no later rule does, then the path is excluded exactly if that rule is not negated.
  pub matches-last :
      (xs ys : List Rule) (r : Rule) (path : FilePath) (d : Bool) (roots : List FilePath)
      → applies r path d roots ≡ true
      → any_of (λ s. applies s path d roots) ys ≡ false
      → matches (xs ++ (r ∷ ys)) path d roots ≡ not r.negated
  unfolding matches
  matches-last xs ys r path d roots a n =
      excluded_by-append xs (r ∷ ys) path d roots false ∙ last (excluded_by xs path d roots false)
    where
      last : (e : Bool) → excluded_by (r ∷ ys) path d roots e ≡ not r.negated
      last e =
          excluded_by-hit r ys path d roots e a ∙ excluded_by-none ys path d roots (not r.negated) n
