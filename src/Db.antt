-- ===== src/Db.antt =====
-- The PostgreSQL schema of migrations/000001_init_schema.up.sql and
-- migrations/000002_attempts_and_timings.up.sql: its enums, the rows of its four tables, and the
-- statements that several programs share. Identifiers are only compared, so a UUID is a number;
-- so is a time, in seconds. A text is the list of its characters.
pub mod Table
pub mod Schema
pub mod Sql
pub mod Postgres
pub mod Groups
pub mod Select
pub mod Statements
pub mod Effects
pub mod Invariant
pub mod Held
pub mod Evolves
pub mod Retire
pub mod Start
pub mod Create
pub mod Retry
pub mod Upkeep
