-- ===== src/Config.antt =====
-- src/config.c: the registers of the ETMs, and the trace components switched on and off.
pub mod Etm
pub mod Sinks
pub mod Trace
pub mod Keeps
