-- ===== src/Lib.antt =====
-- bdbackup takes backups of files and MySQL servers, records each run in a history database, and
-- rotates the backups of a chain from stage to stage. This library models its logic and shows what it
-- guarantees.
--
-- The parts, and where they are:
-- - bdbackup/gfs/policy.py decides which units stay, move, are held or are deleted: Gfs/Policy, over
--   the dates of Gfs/Calendar. `decide` is the source's `decide`; `weekly_units`, `monthly_units` and
--   `yearly_units` are the sets of `_eligibility`.
-- - bdbackup/gfs/stages.py holds keep ages and stages, Gfs/Stages, and checks the configuration,
--   Gfs/Config.
-- - bdbackup/gfs/store.py keeps units, locations and judgments: Gfs/Store and Gfs/Store/Load. A
--   function of the database takes the tables and returns them, and `none` is a rolled back
--   transaction. Gfs/Store/Steps is the relation of one operation, and
--   Gfs/Store/View the store as maps.
-- - bdbackup/gfs/actions.py and bdbackup/gfs/runner.py act on the disk and the tables: Gfs/Runner for
--   the actions on one unit, Gfs/Run for a whole run. The state is a `World`: the disk, the temporary
--   copies, the tables, and a schedule that says which effect works, raises or is cut off by a crash.
-- - bdbackup/history.py tracks runs and upgrades its schema: History. bdbackup/ledger.py finds the
--   unit of a backup: Ledger.
-- - bdbackup/mysql/xtrabackup.py chains physical backups and prepares recovery copies:
--   Mysql/XtraBackup, with the dated directories and `prune` in Mysql/XtraBackup/Dates, and `prepare` in
--   Mysql/XtraBackup/Prepare.
-- - bdbackup/filebackup.py archives files: FileBackup for the walk that selects the members,
--   FileBackup/Archive for the archive from its staging file to its publication, FileBackup/Restore
--   for the extraction and FileBackup/Setup for the constructor.
-- - bdbackup/engines.py registers the engines: Engines, over the registry by name of Plugins, which
--   bdbackup/templates/__init__.py has too.
-- - bdbackup/config.py reads the configuration: Config. bdbackup/validation.py checks what a run
--   needs: Validation, with the grants in Validation/Grants and the jobs in Validation/Jobs.
-- - bdbackup/recovery.py chooses the copy to restore from, Recovery, and suggests where to,
--   Recovery/Destination.
-- - bdbackup/gfs/structure.py prepares the stage directories, and the runner copies snapshots of the
--   ledger to them: Gfs/Structure.
-- - bdbackup/mysql/mysqldump.py selects what a dump covers: Mysql/Dump. bdbackup/mysql/helpers.py
--   quotes the values of an options file: Mysql/Helpers.
-- - bdbackup/cli.py checks options and gives exit codes, Cli, and leads through a restore from the
--   history, Cli/Restoring. bdbackup/templates holds the exclusion rules, Templates, reads them,
--   Templates/Rules, and keeps their registry, Templates/Registry.
-- Base holds the shared names, lists, texts and paths; Tests applies the theorems to examples.
--
-- The runner loads units from the store, gives them to the policy, and acts on its decisions; the
-- policy reads no state. The history records what the engines produce, and the ledger names the units
-- that the store then loads. The file backup asks the exclusion rules about each path, the validation
-- runs the same walk, and the configuration hands its stages to the rules of the rotation.
--
-- Bounds: a chain is followed with one round more than it has children, and each round takes a child
-- out. A walk over files goes as deep as its fuel says, and one more than the inodes of the
-- directories is enough. The search for a free destination tries as many names as its fuel. All other
-- loops are structural. Numbers are natural numbers, as Python's integers have no bound; where the
-- source subtracts, the model says what happens below zero.
--
-- Parameters stand for what the source only calls: the file system, the content check of a unit, the
-- locks, the identities and checksums of files, tarfile, fnmatch and regular expressions, TOML, the
-- database server and the resolution of paths.
--
-- Not modelled: the texts of a server's grants, whose meaning is an input, the log of steps, the reports and listings, the bytes of a ledger snapshot, the
-- command lines of the backup tools, the import of engines and presets, and the compilation of
-- exclusion patterns. They are input and output or texts, and no state above depends on them.
pub mod Base
pub mod Ledger
pub mod History
pub mod Cli
pub mod Engines
pub mod Plugins
pub mod Config
pub mod FileBackup
pub mod Templates
pub mod Tests
pub mod Gfs
pub mod Recovery
pub mod Validation
pub mod Mysql
