-- ===== src/Site.antt =====
-- The page's shell, under site-src/src: the hooks, the navigation, the sidebar and the list of
-- problems.
pub mod Hooks
pub mod Nav
pub mod Sidebar
pub mod Problems
mod Tests
