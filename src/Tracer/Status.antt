-- ===== src/Tracer/Status.antt =====
-- The status words of waitpid, read by the macros of <sys/wait.h>.
use ultrasight.Common.{ℕ, ◌+◌, ◌*◌, ◌/◌, ◌%◌, ◌≤◌, ◌<◌, ◌≡◌, Bool, ◌==◌}

abbrev pub sigtrap : ℕ
sigtrap = 5

abbrev pub sigcont : ℕ
sigcont = 18

abbrev pub sigstop : ℕ
sigstop = 19

abbrev pub wifexited : ℕ → Bool
wifexited w = w % 128 == 0

abbrev pub wifcontinued : ℕ → Bool
wifcontinued w = w == 0xffff

abbrev pub wifstopped : ℕ → Bool
wifstopped w = w % 256 == 0x7f

abbrev pub wstopsig : ℕ → ℕ
wstopsig w = w / 256 % 256

-- What the kernel reports of a child that is not traced: its exit with a code, its death by a signal
-- (with a flag for a core dump), its stop by one of the four stop signals, its continuation.
pub data Report : ℕ → Type 0 where
  exited : (code : ℕ) {w : ℕ} → code < 256 → w ≡ code * 256 → Report w
  signaled :
      (sig core : ℕ) {w : ℕ} → 0 < sig → sig < 127 → core < 2 → w ≡ sig + core * 128 → Report w
  stopped : (sig : ℕ) {w : ℕ} → 19 ≤ sig → sig ≤ 22 → w ≡ sig * 256 + 0x7f → Report w
  continued : {w : ℕ} → w ≡ 0xffff → Report w
