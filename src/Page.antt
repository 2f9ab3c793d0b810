-- ===== src/Page.antt =====
-- The sections of the results page that print measured numbers: the data that they read and what they work
-- out of it.
pub mod Data
pub mod Stall
pub mod Figures
mod Tests
