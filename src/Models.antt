-- ===== src/Models.antt =====
-- backend/app/db/models: the rows of the tables that the components share.
-- Time stamps are numbers; a column that is nullable is an `Option`.
pub mod Json
pub mod Chat
pub mod Profiles
pub mod Database
pub mod Tailored
pub mod Skills
pub mod Tailoring
