-- ===== src/Tests.antt =====
-- Examples of the theorems at concrete inputs.
mod Archives
mod Configs
mod Checks
mod Rotation
mod Moves
mod Physical
mod Records
mod Options
mod Restores
