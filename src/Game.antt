-- ===== src/Game.antt =====
-- The unit of work of the game server and the services that write through it: internal/uow,
-- internal/service and internal/handler.
pub mod Commit
pub mod Items
pub mod Dispatch
pub mod Ledger
pub mod Lock
pub mod Front
mod Tests
