-- ===== src/Engines.antt =====
-- bdbackup/engines.py: the registry of backup engines, and the backend of a job. A backend class is
-- given by its name.
use bdbackup.Base.{
  Bool, true, Option, none, some, List, [], ◌∷◌, String, str_eq, if◌then◌else◌, map,
}
use bdbackup.Plugins.{Plugin, register, load, find}

-- `EngineInfo`
pub record EngineInfo : Type 0 where
  pub name : String
  pub backend : String
  pub description : String
  pub family : String

abbrev engine_name : EngineInfo → String
engine_name e = e.name

-- `_REGISTRY` and `_LOADED`
pub record Engines : Type 0 where
  pub registry : List EngineInfo
  pub loaded : Bool

-- `register_engine`
unfoldable pub register_engine : EngineInfo → Engines → Engines
unfolding register
register_engine e s = record s { registry = register engine_name e s.registry }

-- `_load_builtin`, over the modules of each family.
unfoldable pub load_builtin : List (List (Plugin EngineInfo)) → List EngineInfo → List EngineInfo
unfolding load
load_builtin [] r = r
load_builtin (family ∷ families) r = load_builtin families (load engine_name family r)

-- `_load_user`, over the files of a directory that exists.
unfoldable pub load_user : List (Plugin EngineInfo) → List EngineInfo → List EngineInfo
unfolding load
load_user files r = load engine_name files r

-- `_ensure_loaded`
unfoldable pub ensure_loaded :
    List (List (Plugin EngineInfo)) → List (Plugin EngineInfo) → Engines → Engines
unfolding load_builtin load_user
ensure_loaded builtin user s =
    if s.loaded
    then s
    else record { registry = load_user user (load_builtin builtin s.registry); loaded = true }

-- What `build_backend` makes: a file backup, or a backend of an engine's class.
pub data Backend : Type 0 where
  file_backup unknown_engine : Backend
  engine_backend : EngineInfo → Backend

abbrev names_of : Engines → List String
names_of s = map engine_name s.registry

module _ (builtin : List (List (Plugin EngineInfo))) (user : List (Plugin EngineInfo)) where
  -- The names of `list_engines`, and the registry that it leaves.
  unfoldable pub list_engines : Engines → List String × Engines
  unfolding ensure_loaded
  list_engines s = let t = ensure_loaded builtin user s in (names_of t, t)

  -- `get_engine`, with none for its `EngineError`.
  unfoldable pub get_engine : String → Engines → Option EngineInfo × Engines
  unfolding ensure_loaded find
  get_engine k s = let t = ensure_loaded builtin user s in (find engine_name k t.registry, t)

  -- `build_backend` of bdbackup/config.py, up to the call of the class.
  unfoldable pub build_backend : String → Engines → Backend × Engines
  unfolding get_engine
  build_backend kind s =
      let (found, t) = get_engine kind s in
      if str_eq kind "file"
      then (file_backup, s)
      else (elim found [ none ↦ unknown_engine | some e ↦ engine_backend e ], t)
