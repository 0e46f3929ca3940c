-- ===== src/Lib.antt =====
-- A verification library of ultrasight, a tracer for Arm CoreSight hardware.
--
-- The program: `cs-trace` runs a target under ptrace, sets up the trace components of the board through
-- the library CSAL, collects the trace while the target runs, and writes it to a file. src/cs-trace.c
-- is the parent process; src/common.c is the session: its state machine, its buffers, its critical
-- sections and the fetcher thread; src/config.c drives the components; src/utils.c reads and writes
-- sysfs and /proc.
--
-- The model: a C function is a procedure on `Machine`, the record of the globals of src/common.c
-- (Machine/State). A step goes on with a value, leaves the function with what it returns, or faults: a
-- failed assertion, a write through NULL, or a loop out of fuel (Machine/Monad). Every call of CSAL, of
-- POSIX threads and of the kernel is logged with its arguments (Machine/Calls), and answered by an
-- environment, whose answers may depend on all calls before; nothing is assumed of the answers but what
-- a theorem names. Buffer/Laws states what mremap and `cs_get_trace_data` are documented to answer.
-- Messages are left out; the dumps of src/utils.c to a given stream are calls of `fprintf`.
--
-- The parts, by file:
--   Common      numbers, integers, lists and Boolean tests over the native numbers
--   Machine     the state, the calls and the monad; Keeps, Order, Total and Fails have the rules for
--               procedures that keep a part of the state, make their calls in phases, do not fault,
--               or leave only with -1
--   Config      src/config.c: Etm (the filter of an ETM), Sinks, Trace (the whole configuration), with
--               Trace/Judge on results, Trace/Phases on the order of calls, Trace/Ids on source ids,
--               and Keeps on what is untouched
--   Lifecycle   src/common.c: `set_trace_state` and the callbacks; Table has the table of its comment
--   Buffer      src/common.c: Trace (`fetch_trace` and the rest of the trace buffer; Trace/Fetch/Record and
--               Trace/Runs have the record of bytes that it stands for), Ksight (with its read loop in
--               Ksight/Round and Ksight/Drain), and Memory, a mapping with 64-bit addresses
--   Session     src/common.c: Enable, Start, Init, Fini, from `init_trace` to `fini_trace`, with
--               Fini/Order on the order of the teardown and Fini/Record on what it writes
--   Locks       src/common.c: the mutexes that a log of calls holds
--   Files       the files and directories that a log of calls has open: Uses and Uses/Handles have the rules
--               for procedures that close what they open; Utils, Cpu, Session and Parent apply them, up to `parent`
--   Utils       src/utils.c: Sysfs, Cpu, Maps (Maps/Bounds on the table, Maps/Hex and Maps/Line on the
--               lines of /proc/<pid>/maps), Dump, and Scan for what they use of sscanf and strtol
--   Tracer      src/cs-trace.c: `main` and `child` (Main), the option loop (Options, with its two
--               tables, and Options/Last on its result), `parent` and its wait loop
--   Boards      include/known_boards.h: the two registrations (Zcu104, Zynq7000) by the calls of Register;
--               Wiring has the trace bus that a log of calls links, Wired and Inputs its shape
--   Stm         src/stm_preload.c, and `setup_stm_region` and `clean_stm_region` of src/utils.c
--   Fetcher     src/common.c: `fetcher_worker` and `trace_sink_polling` (Worker), the fetcher, the parent and
--               the child as one system of steps (World, Steps), its invariant (Sound, kept by the steps in
--               Sound/Worker and Sound/Parent, and State on the current event) and what follows (Resume)
--   Tests       the theorems at concrete inputs
--
-- How the parts interact: `main` (Tracer) reads the options into the globals, forks, and calls `child` or
-- `parent`; `parent` calls `init_trace`, `start_trace`, `stop_trace` and `fini_trace` (Session), which call
-- src/config.c (Config), the buffers (Buffer) and the utilities (Utils).
-- `set_trace_state` (Lifecycle) is how the parent tells the fetcher what happened to the child.
--
-- Bounds: addresses and sizes are numbers with their wrap-around at 2^64 written out, and registers at
-- 2^32. The growth loop of `fetch_trace` has 64 rounds, and returns within them while the contents
-- are below 2^61 bytes. The loop over ksight events takes one round more than the device has reads that
-- give bytes. Loops over /proc and sysfs lists, and the wait loop, take fuel and fault when it is used up;
-- theorems that go through them are about the runs that end. In Fetcher
-- `disable_cs_trace`, `fetch_trace`, `enable_cs_trace` and each change of state, which are critical sections,
-- are steps of their own, and so are each wait, each signal that is sent, and the SIGSTOP's arrival at the
-- child. A poll (the test of the child and the read of the sink's pointer), a report with the change of
-- state that it leads to, and the writes to ksight's attributes are one step each. SIGSTOP and SIGCONT
-- reach the child only from the fetcher.
--
-- Parameters: `getopt_long` is a function from the command line to the options that it finds, the final
-- `optind` and the final order of the arguments. CSAL's handles in a registration depend on the address, the
-- CPU or the port that is asked for. CSAL's `setup_named_board`, which looks a board up by its name, is a
-- call like the others: its answer is the environment's, and the registrations are modelled by themselves. The C library's `stderr`
-- is a number of the environment.
--
-- Not modelled: messages, the usage text, the traced programs in tests/, and the prebuilt packet lister.
-- `trace_bitmap` and `trace_bitmap_size` are globals that nothing reads, and are left out.
pub mod Common
pub mod Machine
pub mod Config
pub mod Lifecycle
pub mod Locks
pub mod Buffer
pub mod Utils
pub mod Session
pub mod Tracer
pub mod Fetcher
pub mod Boards
pub mod Stm
pub mod Files
pub mod Tests
