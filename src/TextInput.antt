-- ===== src/TextInput.antt =====
-- ui/text_input.c: a line of UTF-8 text with a cursor.
pub mod Widget
pub mod Line
pub mod Refinement
pub mod Typing
pub mod Text
mod Tests
