-- ===== src/Templates/Registry.antt =====
-- bdbackup/templates/__init__.py: the registry of exclusion templates.
use bdbackup.Base.{◌≡◌, Option, none, some, List, [], ◌++◌, ◌∷◌, String, str_eq, if◌then◌else◌}
use bdbackup.Plugins.{Plugin, register, load, find, find-register}

-- `ExclusionTemplate`
pub record Template : Type 0 where
  pub name : String
  pub patterns : List String

abbrev pub Registry : Type 0
Registry = List Template

abbrev template_name : Template → String
template_name t = t.name

-- `register_template`
unfoldable pub register_template : Template → Registry → Registry
unfolding register
register_template = register template_name

-- `_ensure_loaded`, the first time: the built-in presets, then the user's.
unfoldable pub ensure_loaded : List (Plugin Template) → List (Plugin Template) → Registry
unfolding load
ensure_loaded builtin user = load template_name user (load template_name builtin [])

-- `get_template`, with none for a `TemplateError`.
unfoldable pub get_template : String → Registry → Option Template
unfolding find
get_template = find template_name

-- `resolve_patterns`
unfoldable pub resolve_patterns : List String → Registry → Option (List String)
unfolding get_template
resolve_patterns [] r = some []
resolve_patterns (k ∷ ks) r = elim (get_template k r) [
  | none ↦ none
  | some t ↦ elim (resolve_patterns ks r) [ none ↦ none | some ps ↦ some (t.patterns ++ ps) ]
]

-- Registering replaces: after a template is registered, a lookup of its name finds it, and a lookup
-- of any other name finds what it found before.
pub get_template-register_template :
    (t : Template) (k : String) (r : Registry)
    → get_template k (register_template t r)
      ≡ (if str_eq t.name k then some t else get_template k r)
unfolding get_template register_template
get_template-register_template t k r = find-register template_name t k r
