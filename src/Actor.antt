-- ===== src/Actor.antt =====
-- The actor runtime, src/actor.
pub mod Registry
pub mod Future
pub mod Supervisor
pub mod Mailbox
pub mod FutureTable
