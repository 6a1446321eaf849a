-- ===== src/Mysql.antt =====
-- The MySQL engines (bdbackup/mysql).
pub mod XtraBackup
pub mod Helpers
pub mod Dump
