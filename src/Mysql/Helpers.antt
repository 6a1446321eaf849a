-- ===== src/Mysql/Helpers.antt =====
-- bdbackup/mysql/helpers.py: the quoting of a value in an options file of a MySQL client.
use Prim.Native.Char.{Char, code}
use text.Mathlib.TextEquality.{Char-path}
use text.Mathlib.TextLemmas.{nil-append, cons-append, append_assoc}
use bdbackup.Base.{
  ℕ, ◌≡◌, refl, ap, ◌∙◌, inl, inr, Bool, true, false, ◌||◌, Option, none, some, String, ◌<>◌, ltb,
  ◌==◌, if◌then◌else◌, Bool-cases, arith,
}

-- `ord(char) < 32 or ord(char) == 127`
unfoldable pub is_control : Char → Bool
is_control c = ltb (code c) 32 || (code c == 127)

abbrev pub has_control : String → Bool
unfolding is_control
has_control String.[] = false
has_control (String.◌∷◌ c s) = is_control c || has_control s

-- `str.replace` of the character with the given code point.
unfoldable pub replace_char : ℕ → String → String → String
replace_char k t String.[] = String.[]
replace_char k t (String.◌∷◌ c s) =
    let rest = replace_char k t s in if code c == k then t <> rest else String.◌∷◌ c rest

unfoldable pub escape : String → String
unfolding replace_char
escape value = replace_char 34 "\\\"" (replace_char 92 "\\\\" value)

-- `_quote_option`; `none` is its ValueError.
unfoldable pub quote_option : String → Option String
unfolding escape
quote_option value =
    if has_control value then none else some (String.◌∷◌ "\"" (escape value <> "\""))

-- A reader of quoted text up to the closing quote, which takes the character after a backslash as it
-- is, with what follows the quote. The flag says whether a backslash was just read.
abbrev push : Char → Option (String × String) → Option (String × String)
push c none = none
push c (some (s, rest)) = some (String.◌∷◌ c s, rest)

unfoldable read : Bool → String → Option (String × String)
read escaped String.[] = none
read true (String.◌∷◌ c s) = push c (read false s)
read false (String.◌∷◌ c s) =
    let taken = read true s in
    let plain = push c (read false s) in
    if code c == 34 then some (String.[], s) else if code c == 92 then taken else plain

unfoldable pub unquote : String → Option (String × String)
unfolding read
unquote String.[] = none
unquote (String.◌∷◌ c s) = if code c == 34 then read false s else none

pair-append :
    (a b : Char) (s : String)
    → String.◌∷◌ a (String.◌∷◌ b String.[]) <> s ≡ String.◌∷◌ a (String.◌∷◌ b s)
pair-append a b s =
    cons-append a (String.◌∷◌ b String.[]) s
    ∙ ap (String.◌∷◌ a) (cons-append b String.[] s ∙ ap (String.◌∷◌ b) (nil-append s))

-- Two characters in front, as a text is appended.
front-append :
    (a b : Char) (s t : String)
    → String.◌∷◌ a (String.◌∷◌ b s) <> t ≡ String.◌∷◌ a (String.◌∷◌ b (s <> t))
front-append a b s t = cons-append a (String.◌∷◌ b s) t ∙ ap (String.◌∷◌ a) (cons-append b s t)

escape-empty : escape String.[] ≡ String.[]
unfolding escape replace_char
escape-empty = refl

escape-backslash :
    (c : Char) (v : String)
    → (code c == 92) ≡ true
    → escape (String.◌∷◌ c v) ≡ String.◌∷◌ "\\" (String.◌∷◌ "\\" (escape v))
unfolding escape replace_char
escape-backslash c v t =
    rw t (ap (replace_char 34 "\\\"") (pair-append "\\" "\\" (replace_char 92 "\\\\" v)))

escape-quote :
    (c : Char) (v : String)
    → (code c == 92) ≡ false
    → (code c == 34) ≡ true
    → escape (String.◌∷◌ c v) ≡ String.◌∷◌ "\\" (String.◌∷◌ "\"" (escape v))
unfolding escape replace_char
escape-quote c v f t = rw (f, t) (pair-append "\\" "\"" (escape v))

escape-plain :
    (c : Char) (v : String)
    → (code c == 92) ≡ false
    → (code c == 34) ≡ false
    → escape (String.◌∷◌ c v) ≡ String.◌∷◌ c (escape v)
unfolding escape replace_char
escape-plain c v f t = rw (f, t) refl

read-escape : (v rest : String) → read false (escape v <> String.◌∷◌ "\"" rest) ≡ some (v, rest)
unfolding read
read-escape String.[] rest =
    ap (read false)
      (ap (λ s. s <> String.◌∷◌ "\"" rest) escape-empty ∙ nil-append (String.◌∷◌ "\"" rest))
read-escape (String.◌∷◌ c v) rest = elim (Bool-cases (code c == 92)) [
  | inl t ↦
      ap (read false) (
        ap (λ s. s <> String.◌∷◌ "\"" rest) (escape-backslash c v t)
        ∙ front-append "\\" "\\" (escape v) (String.◌∷◌ "\"" rest))
      ∙ ap (push "\\") (read-escape v rest)
      ∙ ap (λ d. some (String.◌∷◌ d v, rest)) (Char-path "\\" c (ground (arith, t)))
  | inr f ↦ elim (Bool-cases (code c == 34)) [
    | inl t ↦
        ap (read false) (
          ap (λ s. s <> String.◌∷◌ "\"" rest) (escape-quote c v f t)
          ∙ front-append "\\" "\"" (escape v) (String.◌∷◌ "\"" rest))
        ∙ ap (push "\"") (read-escape v rest)
        ∙ ap (λ d. some (String.◌∷◌ d v, rest)) (Char-path "\"" c (ground (arith, t)))
    | inr g ↦
        ap (read false) (
          ap (λ s. s <> String.◌∷◌ "\"" rest) (escape-plain c v f g)
          ∙ cons-append c (escape v) (String.◌∷◌ "\"" rest))
        ∙ rw (f, g) (ap (push c) (read-escape v rest))
  ]
]

-- A value without control characters is quoted, and reading the quoted text, whatever follows it, gives
-- the value back and stops at the closing quote.
pub unquote-quote_option :
    (value rest : String)
    → has_control value ≡ false
    → (quoted : String) × (quote_option value ≡ some quoted)
      × (unquote (quoted <> rest) ≡ some (value, rest))
unfolding quote_option unquote
unquote-quote_option value rest h = (
  String.◌∷◌ "\"" (escape value <> "\""),
  rw h refl,
  ap unquote (cons-append "\"" (escape value <> "\"") rest)
      ∙ ap (read false) (
          append_assoc (escape value) "\"" rest
          ∙ ap (λ s. escape value <> s)
              (cons-append "\"" String.[] rest ∙ ap (String.◌∷◌ "\"") (nil-append rest)))
      ∙ read-escape value rest,
)
