-- ===== src/Backend/Entities.antt =====
-- src/tactmon/backend/db/entity: the tables, and the statements that the application prepares.
pub mod Products
pub mod Builds
pub mod BoundChannels
pub mod TrackedFiles
pub mod CommandStates
pub mod Numbering
pub mod Statements
