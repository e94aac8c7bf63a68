-- ===== src/Notify.antt =====
-- server/internal/notification_*.go: alert payloads, routing rules, and deliveries.
pub mod Unique
pub mod Payload
pub mod Policy
pub mod Router
pub mod Backoff
pub mod Dedup
pub mod Tests
