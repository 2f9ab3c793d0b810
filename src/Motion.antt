-- ===== src/Motion.antt =====
-- site-src/src/components/Motion.tsx: the two simulations of the results page, of static against
-- continuous batching and of reserved against paged memory, and the player that drives them.
pub mod Stream
pub mod Batching
pub mod Memory
pub mod Grid
pub mod Player
mod Tests
