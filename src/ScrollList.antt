-- ===== src/ScrollList.antt =====
-- ui/scroll_list.h and ui/scroll_list.c: a list of strings with a selection.
pub mod Widget
pub mod Render
pub mod Selection
pub mod Shown
mod Tests
