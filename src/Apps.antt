-- ===== src/Apps.antt =====
-- app/app_runtime.h and app/app_runtime.c: the registry of applications and the negotiation about
-- closing one.
pub mod Registry
pub mod Close
mod Tests
