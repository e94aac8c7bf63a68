-- ===== src/Storage.antt =====
-- server/internal/storage: the rows of the tables (models.go), and the statements on the table of tasks
-- (postgres.go).
pub mod Model
pub mod Tasks
pub mod Notifications
pub mod Users
pub mod Agents
