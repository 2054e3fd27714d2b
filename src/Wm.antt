-- ===== src/Wm.antt =====
-- wm/window_manager.h and wm/window_manager.c: the window collection with its z-order, focus, drag
-- and modal policy.
pub mod Window
pub mod State
pub mod Operations
pub mod Events
pub mod Collection
pub mod Lookup
pub mod Invariant
pub mod Soundness
pub mod Steps
pub mod Requests
pub mod Validity
pub mod Session
pub mod Order
pub mod Modal
pub mod Closing
pub mod Geometry
mod Tests
