-- ===== src/Pg.antt =====
-- The package pg (pkg/pg): the PostgreSQL objects and how they are brought in line.
pub mod Quote
pub mod State
pub mod RoleOption
pub mod ConnParam
pub mod Server
pub mod Conn
pub mod Role
pub mod Grant
pub mod Slot
pub mod Schema
pub mod Extension
pub mod Database
pub mod Handler
pub mod Fixture
pub mod Filled
mod Tests
