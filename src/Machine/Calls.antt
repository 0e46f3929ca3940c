-- ===== src/Machine/Calls.antt =====
-- The calls that src/ makes of CSAL, of POSIX threads and of the kernel, each with the arguments that
-- the code computes. Printing is left out.
use ultrasight.Common.{ℕ, ℤ, List}
use ultrasight.Machine.Data.{Device, EtmConfig}

pub data Mutex : Type 0 where
  trace_mutex trace_state_mutex trace_event_mutex trace_fetcher_mutex : Mutex

pub data Cond : Type 0 where
  trace_event_cond trace_fetcher_cond : Cond

-- The trigger ports of CSAL's headers that the boards connect: CS_TRIGOUT_ETB_FULL, ...,
-- CS_TRIGIN_ETB_FLUSHIN, ..., CS_TRIGOUT_STM_ASYNCOUT.
pub data Trigger : Type 0 where
  etb_full etb_acqcomp etb_flushin etb_trigin : Trigger
  stm_trigoutspte stm_trigoutsw stm_trigouthete stm_asyncout : Trigger

pub data Call : Type 0 where
  -- POSIX threads
  mutex_init mutex_lock mutex_unlock mutex_destroy : Mutex → Call
  cond_init cond_broadcast cond_destroy : Cond → Call
  cond_wait : Cond → Mutex → Call
  thread_create thread_join : Call
  -- CSAL: sinks
  sink_is_enabled sink_enable sink_disable : Device → Call
  sink_etr_setup : (d : Device) (addr size axictl : ℕ) → Call
  sink_etf_setup : (d : Device) (mode : ℕ) → Call
  tmc_hw_fifo_enable : (d : Device) (bufwm : ℕ) → Call
  disable_tpiu : Call
  -- CSAL: registers
  device_read : (d : Device) (reg : ℕ) → Call
  device_write : (d : Device) (reg value : ℕ) → Call
  device_wait : (d : Device) (reg bits : ℕ) → Call
  -- CSAL: sources
  cpu_get_device : (cpu class : ℕ) → Call
  set_trace_source_id : (d : Device) (id : ℕ) → Call
  source_enable source_disable : Device → Call
  swstim_enable_all_ports : Device → Call
  swstim_set_sync_repeat : (d : Device) (n : ℕ) → Call
  device_has_class : (d : Device) (class : ℕ) → Call
  etm_get_version etm_clean etm_config_init etm_config_print : Device → Call
  etm_config_get etm_config_put : (d : Device) (c : EtmConfig) → Call
  -- CSAL: the session
  checkpoint error_count reset_error_count shutdown cti_diag dump_config : Call
  -- CSAL: the trace buffer
  get_buffer_rwp get_buffer_size_bytes get_buffer_unread_bytes empty_trace_buffer : Device → Call
  get_trace_data : (d : Device) (addr size : ℕ) → Call
  setup_named_board : (name : List ℕ) → Call
  -- CSAL: the registration of a board
  exclude_range : (start end : ℕ) → Call
  register_romtable device_register device_get : (addr : ℕ) → Call
  set_affinity : (d : Device) (cpu : ℕ) → Call
  stm_config_master : (d : Device) (master addr : ℕ) → Call
  stm_select_master : (d : Device) (master : ℕ) → Call
  atb_add_replicator : (outputs : ℕ) → Call
  atb_register : (d : Device) (output : ℕ) (e : Device) (input : ℕ) → Call
  cti_trigsrc cti_trigdst : (cti : Device) (port : ℕ) → Call
  connect_trigsrc : (d : Device) (t : Trigger) (source : ℕ) → Call
  connect_trigdst : (destination : ℕ) (d : Device) (t : Trigger) → Call
  -- the kernel and the C library
  mmap : (size : ℕ) → Call
  mmap_file : (size : ℕ) (fd : ℤ) (offset : ℕ) → Call
  mremap : (addr old_size new_size : ℕ) → Call
  munmap : (addr size : ℕ) → Call
  usleep : (usec : ℕ) → Call
  -- the value of a machine register, xN
  set_register : (n value : ℕ) → Call
  kill : (pid : ℤ) (sig : ℕ) → Call
  stat : (path : List ℕ) → Call
  open_file : (path : List ℕ) → Call
  read_file : (fd : ℤ) (size : ℕ) → Call
  write_file : (fd : ℤ) (text : List ℕ) → Call
  close_file : (fd : ℤ) → Call
  get_errno : Call
  getcwd : Call
  fopen : (path : List ℕ) → Call
  fwrite : (file : ℤ) (content : List ℕ) → Call
  fprintf : (stream : ℤ) (text : List ℕ) → Call
  read_line read_token : (file : ℤ) → Call
  fclose : (file : ℤ) → Call
  opendir : (path : List ℕ) → Call
  readdir closedir : (dir : ℤ) → Call
  get_nprocs sysconf_nprocs cpu_free : Call
  cpu_alloc : (count : ℕ) → Call
  sched_setaffinity : (pid : ℤ) (cpus : List ℕ) → Call
  sched_getaffinity : (pid : ℤ) → Call
  -- the tracer process
  waitpid : (pid : ℤ) → Call
  ptrace_detach : (pid : ℤ) → Call
  fork wait_any ptrace_traceme : Call
  access : (path : List ℕ) (mode : ℕ) → Call
  execvpe : (path : List ℕ) (argv : List (List ℕ)) → Call
  get_pid : Call
