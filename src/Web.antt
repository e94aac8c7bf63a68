-- ===== src/Web.antt =====
-- server/internal/web: what stands behind the pages and the API.
pub mod Values
pub mod ExecPolicies
pub mod Tests
pub mod Request
pub mod Access
pub mod Answers
pub mod Permissions
pub mod Handler
pub mod Site
pub mod TaskForm
pub mod Uploads
pub mod Tasks
pub mod TaskTests
pub mod Reschedule
pub mod Retry
