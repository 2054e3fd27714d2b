-- ===== src/Tab.antt =====
-- ui/tab.h and ui/tab.c: a row of tabs, one of them active.
pub mod Widget
pub mod Render
pub mod Layout
pub mod Hit
mod Tests
