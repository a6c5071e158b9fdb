-- ===== src/Server.antt =====
-- The handlers of the Go server that the console calls: router/admin.go and what it uses.
pub mod Clock
pub mod Files
pub mod Ui
pub mod Agreement
pub mod Containment
pub mod Status
pub mod Query
pub mod FileRequest
pub mod Versions
mod Tests
