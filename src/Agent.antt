-- ===== src/Agent.antt =====
-- agent/internal: the program on a machine, which runs the tasks that the server sends.
pub mod Report
pub mod Identity
pub mod Fetch
pub mod Update
pub mod Tests
