-- ===== src/Server.antt =====
-- server/internal/server.go and notification_*.go: the handlers of the gRPC server.
pub mod World
pub mod Calls
pub mod Rows
pub mod Dispatch
pub mod Deliveries
pub mod Keeps
pub mod Events
pub mod Results
pub mod Tests
pub mod Agents
pub mod Logs
pub mod Uploads
pub mod StreamTests
