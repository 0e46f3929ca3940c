-- ===== src/Session.antt =====
-- src/common.c: a trace session, from `init_trace` to `fini_trace`.
pub mod Keeps
pub mod Enable
pub mod Start
pub mod Init
pub mod Fini
