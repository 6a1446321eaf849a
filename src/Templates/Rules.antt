-- ===== src/Templates/Rules.antt =====
-- bdbackup/templates/_matching.py: how a rule is read from a line of a template.
use bdbackup.Base.{
  ◌≡◌, refl, subst, Bool, false, ◌&&◌, ◌||◌, Option, none, some, List, [], ◌∷◌, String,
  if◌then◌else◌, arith, Bool-cases, inl, inr, ◌==◌,
}
use Prim.Native.Char.{Char, code}
use bdbackup.Base.Strip.{is_empty, is_space, lstrip, rstrip, strip, head_is, last_is}
use bdbackup.Templates.{Rule}

abbrev pub is_char : Char → Char → Bool
is_char d c = code c == code d

abbrev pub drop_head : String → String
drop_head String.[] = String.[]
drop_head (String.◌∷◌ c s) = s

unfoldable pub has_char : Char → String → Bool
has_char d String.[] = false
has_char d (String.◌∷◌ c s) = is_char d c || has_char d s

-- `_Rule.__init__`, with none for its `ValueError`.
unfoldable pub parse_rule : String → Option Rule
unfolding strip lstrip rstrip has_char
parse_rule raw =
    let text = strip is_space raw in
    let negated = head_is (is_char "!") text in
    let plain = if negated then drop_head text else text in
    let dir_only = last_is (is_char "/") plain in
    let path = if dir_only then rstrip (is_char "/") plain else plain in
    let anchored = head_is (is_char "/") path in
    let pattern = if anchored then lstrip (is_char "/") path else path in
    if is_empty pattern
    then none
    else some (record {
      pattern = pattern;
      negated = negated;
      dir_only = dir_only;
      anchored = anchored;
      has_slash = has_char "/" pattern;
    })

-- `GitignoreMatcher.__init__`: lines without a pattern are left out.
unfoldable pub build_rules : List String → Option (List Rule)
unfolding parse_rule strip
build_rules [] = some []
build_rules (p ∷ ps) =
    let rest = build_rules ps in
    if is_empty (strip is_space p) then rest else elim (parse_rule p) [
      | none ↦ none
      | some r ↦ elim rest [ none ↦ none | some rs ↦ some (r ∷ rs) ]
    ]

lstrip-head : (p : Char → Bool) (s : String) → head_is p (lstrip p s) ≡ false
unfolding lstrip
lstrip-head p String.[] = refl
lstrip-head p (String.◌∷◌ c s) = ground (arith, lstrip-head p s)

rstrip-last : (p : Char → Bool) (s : String) → last_is p (rstrip p s) ≡ false
unfolding rstrip
rstrip-last p String.[] = refl
rstrip-last p (String.◌∷◌ c s) = go (rstrip p s) (rstrip-last p s)
  where
    go :
        (r : String)
        → last_is p r ≡ false
        → last_is p (if is_empty r && p c then String.[] else String.◌∷◌ c r) ≡ false
    go String.[] h = elim (Bool-cases (p c)) [ inl e ↦ rw e refl | inr e ↦ rw (e, last_is) e ]
    go (String.◌∷◌ d r) h = h

-- Taking characters off the front leaves the end as it is.
lstrip-last :
    (p q : Char → Bool) (s : String) → last_is q s ≡ false → last_is q (lstrip p s) ≡ false
unfolding lstrip
lstrip-last p q String.[] h = refl
lstrip-last p q (String.◌∷◌ c String.[]) h = elim (Bool-cases (p c)) [
  | inl e ↦ rw (lstrip, e) refl
  | inr e ↦ rw (lstrip, e, last_is) h
]
lstrip-last p q (String.◌∷◌ c (String.◌∷◌ d s)) h = ground (arith, lstrip-last p q (String.◌∷◌ d s))

-- The two steps of `parse_rule` that take slashes off.
abbrev without_end : String → String
without_end plain = if last_is (is_char "/") plain then rstrip (is_char "/") plain else plain

abbrev without_start : String → String
without_start path = if head_is (is_char "/") path then lstrip (is_char "/") path else path

without_end-last : (s : String) → last_is (is_char "/") (without_end s) ≡ false
without_end-last s = elim (Bool-cases (last_is (is_char "/") s)) [
  | inl e ↦ rw e (rstrip-last (is_char "/") s)
  | inr e ↦ rw e e
]

without_start-head : (s : String) → head_is (is_char "/") (without_start s) ≡ false
without_start-head s = elim (Bool-cases (head_is (is_char "/") s)) [
  | inl e ↦ rw e (lstrip-head (is_char "/") s)
  | inr e ↦ rw e e
]

without_start-last :
    (s : String) → last_is (is_char "/") s ≡ false → last_is (is_char "/") (without_start s) ≡ false
without_start-last s h = elim (Bool-cases (head_is (is_char "/") s)) [
  | inl e ↦ rw e (lstrip-last (is_char "/") (is_char "/") s h)
  | inr e ↦ rw e h
]

abbrev pub IsTrimmed : Rule → Type 0
IsTrimmed r =
    (is_empty r.pattern ≡ false)
    × (last_is (is_char "/") r.pattern ≡ false)
    × (head_is (is_char "/") r.pattern ≡ false)
    × (r.has_slash ≡ has_char "/" r.pattern)

-- A rule that is read has a pattern, without a slash at its end, and without one at its start, also
-- where the line had them; and it is a path pattern exactly if a slash is left in it.
pub parse_rule-IsTrimmed : (raw : String) (r : Rule) → parse_rule raw ≡ some r → IsTrimmed r
unfolding parse_rule
parse_rule-IsTrimmed raw r h =
    let text = strip is_space raw in
    of_plain (if head_is (is_char "!") text then drop_head text else text) h
  where
    of_plain :
        (plain : String)
        → (if is_empty (without_start (without_end plain))
            then none
            else some (record {
              pattern = without_start (without_end plain);
              negated = head_is (is_char "!") (strip is_space raw);
              dir_only = last_is (is_char "/") plain;
              anchored = head_is (is_char "/") (without_end plain);
              has_slash = has_char "/" (without_start (without_end plain));
            }))
          ≡ some r
        → IsTrimmed r
    of_plain plain k = elim (Bool-cases (is_empty (without_start (without_end plain)))) [
      | inl e ↦ absurd (cc (rw e at k))
      | inr e ↦
          subst IsTrimmed
            {x = record {
              pattern = without_start (without_end plain);
              negated = head_is (is_char "!") (strip is_space raw);
              dir_only = last_is (is_char "/") plain;
              anchored = head_is (is_char "/") (without_end plain);
              has_slash = has_char "/" (without_start (without_end plain));
            }}
            {y = r} (ground (arith, rw e at k))
            (
              e,
              without_start-last (without_end plain) (without_end-last plain),
              without_start-head (without_end plain),
              refl,
            )
    ]
