-- ===== src/Mysql/Dump.antt =====
-- bdbackup/mysql/mysqldump.py: the options and the selection of a logical dump, and the redaction
-- of its command (bdbackup/utils.py).
use bdbackup.Base.{
  Bool, not, ◌&&◌, ◌||◌, Option, none, some, List, [], ◌∷◌, ◌++◌, String, str_eq, starts_with,
  if◌then◌else◌, any_of, codes, ◌==◌,
}

abbrev pub mentions : String → List String → Bool
mentions x xs = any_of (λ y. str_eq y x) xs

-- `dict.fromkeys`: the first of equal options stays.
unfoldable pub unique : List String → List String → List String
unique seen [] = seen
unique seen (x ∷ xs) = unique (if mentions x seen then seen else seen ++ (x ∷ [])) xs

-- `list.remove`
unfoldable pub remove_first : String → List String → List String
remove_first x [] = []
remove_first x (y ∷ ys) = if str_eq y x then ys else y ∷ remove_first x ys

-- `DEFAULT_OPTIONS`
abbrev pub default_options : List String
default_options =
    "--single-transaction" ∷ "--databases" ∷ "--routines" ∷ "--events" ∷ "--triggers" ∷ []

-- The options that `__init__` keeps.
unfoldable pub dump_options : List String → List String
unfolding unique remove_first
dump_options more =
    let all = unique [] (default_options ++ more) in
    if mentions "--all-databases" all then remove_first "--databases" all else all

-- The database, or the job's own one.
abbrev pub chosen : Option String → Option String → Option String
chosen (some d) own = some d
chosen none own = own

abbrev is_bad : String → Bool
is_bad d = str_eq d "" || starts_with d "-" || any_of (λ c. c == 0) (codes d)

-- `selection`: what a dump covers, or none for a `BackupError`.
unfoldable pub selection : List String → Option String → Option String → Option String
selection options database own = elim (chosen database own) [
  | some d ↦ if is_bad d then none else some d
  | none ↦ if mentions "--all-databases" options then some "all databases" else none
]

-- `_build_cmd`, for the defaults file's option.
unfoldable pub build_cmd : List String → Option String → String → List String
build_cmd options database defaults =
    "mysqldump" ∷ defaults ∷ options
    ++ (elim database [ none ↦ [] | some d ↦ if str_eq d "" then [] else d ∷ [] ])

-- `redact_cmd`
unfoldable pub redact_cmd : List String → List String → List String
redact_cmd secrets [] = []
redact_cmd secrets (p ∷ ps) =
    (if mentions p secrets && not (str_eq p "") then "***" else p) ∷ redact_cmd secrets ps
