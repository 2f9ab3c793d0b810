-- ===== src/Engine.antt =====
-- The engine of the server: its allocator of paged memory, engine/block_manager.py.
pub mod Request
pub mod Blocks
mod Held
pub mod Facade
pub mod Slots
pub mod Paged
mod Pool
pub mod Allocator
pub mod Scheduler
mod Tests
