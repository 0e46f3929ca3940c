-- ===== src/Files.antt =====
-- The files and directories that a log of calls has open, as the kernel and the C library count them.
pub mod Uses
pub mod Utils
pub mod Cpu
pub mod Session
pub mod Parent
use ultrasight.Common.{
  ◌≡◌, refl, ℕ, ℤ, u64, is_neg, Bool, true, false, ◌&&◌, Option, none, some, List, [], ◌∷◌, ◌++◌,
  ◌==◌, if◌then◌else◌,
}
use ultrasight.Machine.{Env, Machine, Call, open_file, close_file, fopen, fclose, opendir, closedir}

-- A descriptor, a FILE and a DIR.
pub data Handle : Type 0 where
  file stream dir : ℤ → Handle

abbrev pub same_handle : Handle → Handle → Bool
same_handle (file a) (file b) = u64 a == u64 b
same_handle (stream a) (stream b) = u64 a == u64 b
same_handle (dir a) (dir b) = u64 a == u64 b
same_handle _ _ = false

-- What an open gives: nothing where it failed.
abbrev pub file_of : ℤ → List Handle
file_of fd = if is_neg fd then [] else file fd ∷ []

abbrev pub stream_of : ℤ → List Handle
stream_of fp = if u64 fp == 0 then [] else stream fp ∷ []

abbrev pub dir_of : ℤ → List Handle
dir_of dp = if u64 dp == 0 then [] else dir dp ∷ []

-- `none` once something is closed that is not what was opened last.
abbrev pub shut : Handle → List Handle → Option (List Handle)
shut h [] = none
shut h (k ∷ ks) = if same_handle h k then some ks else none

-- close of a negative descriptor fails, and does nothing.
abbrev pub shut_file : ℤ → List Handle → Option (List Handle)
shut_file fd ks = if is_neg fd then some ks else shut (file fd) ks

abbrev pub file_step : ℤ → Call → List Handle → Option (List Handle)
file_step r (open_file path) ks = some (file_of r ++ ks)
file_step r (close_file fd) ks = shut_file fd ks
file_step r (fopen path) ks = some (stream_of r ++ ks)
file_step r (fclose fp) ks = shut (stream fp) ks
file_step r (opendir path) ks = some (dir_of r ++ ks)
file_step r (closedir dp) ks = shut (dir dp) ks
file_step r _ ks = some ks

-- What is open after the calls of a log, the newest call first.
abbrev pub opened : Env → List Call → Option (List Handle)
opened env [] = some []
opened env (c ∷ l) = elim (opened env l) [ none ↦ none | some ks ↦ file_step (env.ret l c) c ks ]

abbrev pub open_in : Env → Machine → Option (List Handle)
open_in env s = opened env s.log
