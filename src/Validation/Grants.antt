-- ===== src/Validation/Grants.antt =====
-- bdbackup/validation.py: the grants that an engine needs, and the check of the server's answer.
use bdbackup.Base.{
  Bool, true, false, not, ◌&&◌, ◌||◌, Option, none, some, List, [], ◌∷◌, ◌++◌, String, ◌<>◌, str_eq,
  starts_with, if◌then◌else◌, any_of, keep_if, ◌==◌, map,
}
use Prim.Native.Char.{code}
use bdbackup.Base.FilePath.{FilePath}
use bdbackup.Validation.{Report, Host, add, write, directory, status_ok, status_fail, status_info}

-- A back quote is doubled.
abbrev doubled : String → String
doubled String.[] = String.[]
doubled (String.◌∷◌ c s) =
    let rest = doubled s in
    if code c == 96 then String.◌∷◌ c (String.◌∷◌ c rest) else String.◌∷◌ c rest

-- `_identifier`
unfoldable pub identifier : String → String
identifier s = "`" <> (doubled s <> "`")

-- `_scope`
unfoldable pub scope : String → String → String
unfolding identifier
scope database table =
    (if str_eq database "*" then "*" else identifier database)
    <> ("." <> (if str_eq table "*" then "*" else identifier table))

-- `SHOW GRANTS`: a line's privileges, in capitals, and its scope if it grants any; and whether it
-- revokes, and whether it grants a role.
pub record Grant : Type 0 where
  pub parsed : Option (List String × String)
  pub revokes : Bool
  pub grants_role : Bool

-- A privilege on a table of a database.
pub record Requirement : Type 0 where
  pub privilege : String
  pub database : String
  pub table : String

-- `_has_grant`, the test of one line.
unfoldable pub covers : Requirement → Grant → Bool
unfolding scope
covers q g = elim g.parsed [
  | none ↦ false
  | some (names, at) ↦
      (str_eq at (scope q.database q.table) || str_eq at (scope q.database "*") || str_eq at "*.*")
      && (any_of (str_eq q.privilege) names
          || (any_of (str_eq "ALL PRIVILEGES") names
              && not (str_eq q.privilege "BACKUP_ADMIN" || str_eq q.privilege "SHOW_ROUTINE")))
]

-- `_has_grant`
unfoldable pub has_grant : List Grant → Requirement → Bool
unfolding covers
has_grant grants q = any_of (covers q) grants

-- What the checks read of a database backend.
pub record Physical : Type 0 where
  pub is_mariadb : Bool

pub record Logical : Type 0 where
  pub database : Option String
  pub options : List String

pub data Engine : Type 0 where
  physical : Physical → Engine
  logical : Logical → Engine

abbrev everywhere : String → Requirement
everywhere p = record { privilege = p; database = "*"; table = "*" }

abbrev log_table : String → Requirement
log_table t = record { privilege = "SELECT"; database = "performance_schema"; table = t }

abbrev pub has_option : List String → String → Bool
has_option options o = any_of (λ p. str_eq p o) options

-- `_requirements` of a physical backup.
unfoldable pub physical_requirements : Physical → String → List Requirement
physical_requirements b version =
    if b.is_mariadb
    then map everywhere ("RELOAD" ∷ "BINLOG MONITOR" ∷ "PROCESS" ∷ "LOCK TABLES" ∷ [])
    else if starts_with version "5."
    then map everywhere ("RELOAD" ∷ "REPLICATION CLIENT" ∷ "PROCESS" ∷ "LOCK TABLES" ∷ [])
    else map everywhere
        ("RELOAD" ∷ "BACKUP_ADMIN" ∷ "REPLICATION CLIENT" ∷ "PROCESS" ∷ "LOCK TABLES" ∷ [])
      ++ map log_table
          ("log_status" ∷ "keyring_component_status" ∷ "replication_group_members" ∷ [])

-- `backend.database or "*"`
abbrev database_or_all : Option String → String
database_or_all none = "*"
database_or_all (some s) = if str_eq s "" then "*" else s

-- `_requirements` of a dump.
unfoldable pub logical_requirements : Logical → List Requirement
logical_requirements b =
    let on : String → Requirement =
      λ p. record { privilege = p; database = database_or_all b.database; table = "*" } in
    map on (
      "SELECT"
      ∷ "SHOW VIEW"
      ∷ ((if has_option b.options "--skip-triggers" then [] else "TRIGGER" ∷ [])
          ++ ((if has_option b.options "--skip-events" then [] else "EVENT" ∷ [])
              ++ (if has_option b.options "--skip-single-transaction"
                    || has_option b.options "--lock-tables"
                  then "LOCK TABLES" ∷ []
                  else []))))
    ++ (if has_option b.options "--no-tablespaces" then [] else everywhere "PROCESS" ∷ [])

-- `_requirements`
unfoldable pub requirements : Engine → String → List Requirement
unfolding physical_requirements logical_requirements
requirements (physical b) version = physical_requirements b version
requirements (logical b) version = logical_requirements b

-- The answer of the server: the query fails, an exception is raised on the way, or it answers.
pub record Answer : Type 0 where
  pub version : String
  pub version_is_mariadb : Bool
  pub grants : List Grant
  pub datadir : FilePath

pub data Query : Type 0 where
  exits_nonzero raises : Query
  answers : Answer → Query

abbrev pub missing_in : List Grant → List Requirement → List Requirement
missing_in grants qs = keep_if (λ q. not (has_grant grants q)) qs

abbrev differs : Bool → Bool → Bool
differs true b = not b
differs false b = b

module _ (h : Host) where
  -- `_mysql`, the part for a physical backup or a dump.
  unfoldable pub engine_part : Engine → Answer → Report → Report
  unfolding directory add
  engine_part (physical b) a r = add status_info "datadir" (
      directory h a.datadir "MySQL datadir" false false (
        if differs b.is_mariadb a.version_is_mariadb then add status_fail "binary family" r else r))
  engine_part (logical b) a r = add status_info "additional grants" r

  -- `_mysql`, what it says of the missing grants.
  unfoldable pub grants_part : List Requirement → Report → Report
  unfolding add write
  grants_part [] r = add status_ok "grants" r
  grants_part (q ∷ qs) r = write "GRANT" (add status_fail "grants" r)

  -- `_mysql`, behind the login. The help texts of `_grant_help` are one line.
  unfoldable pub check_answer : Engine → Answer → Report → Report
  unfolding engine_part requirements has_grant grants_part add
  check_answer e a r =
      let logged_in = add status_ok "authenticated" r in
      let granted = grants_part (missing_in a.grants (requirements e a.version)) logged_in in
      let revoked =
        if any_of (λ g. g.revokes) a.grants then add status_fail "revokes" granted else granted in
      let roles =
        if any_of (λ g. g.grants_role) a.grants then add status_info "roles" revoked else revoked in
      engine_part e a roles

  -- `_mysql`, by how the query ends.
  unfoldable pub check_query : Engine → Query → Report → Report
  unfolding check_answer add write
  check_query e exits_nonzero r = write "GRANT" (add status_fail "login" r)
  check_query e raises r = write "GRANT" (add status_fail "cannot validate" r)
  check_query e (answers a) r = check_answer e a r

  -- `_mysql`
  unfoldable pub mysql : Engine → Query → Report → Report
  unfolding check_query add write
  mysql e query r =
      if h.which "mysql" || h.which "mariadb"
      then check_query e query r
      else write "GRANT" (add status_fail "client" r)
