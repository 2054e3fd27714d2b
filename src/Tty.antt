-- ===== src/Tty.antt =====
-- platform/tty_decoder.h and platform/tty_decoder.c: key and mouse events out of the bytes of a
-- terminal.
pub mod Numbers
pub mod Decoder
pub mod Progress
pub mod Rounds
pub mod Pointer
pub mod Mouse
mod Tests
