-- ===== src/Tracer.antt =====
-- src/cs-trace.c: the command line, the child process and the parent process.
pub mod Status
pub mod Parent
pub mod Options
pub mod Main
