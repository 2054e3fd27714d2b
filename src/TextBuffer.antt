-- ===== src/TextBuffer.antt =====
-- ui/text_buffer.h and ui/text_buffer.c: a text of several lines with a cursor and a selection.
pub mod State
pub mod Content
pub mod Editing
pub mod Dispatch
pub mod Boundary
pub mod Doc
pub mod Edit
pub mod Rows
pub mod Backspace
pub mod Deletion
pub mod Movement
pub mod Typing
pub mod Keyboard
pub mod Flat
pub mod RoundTrip
pub mod Setting
pub mod Offset
pub mod Places
pub mod Replacing
pub mod Selection
pub mod OneLine
pub mod Search
pub mod Found
mod Tests
