-- ===== src/Locks/Calls.antt =====
-- The calls of POSIX mutexes, and those that open and close files, among the calls of src/.
use ultrasight.Common.{◌≡◌, refl, Bool, true, false}
use ultrasight.Machine.{
  Call, mutex_lock, mutex_unlock, cond_wait, open_file, close_file, fopen, fclose, opendir,
  closedir,
}

-- The calls that take, release or need a mutex.
abbrev pub touches_mutex : Call → Bool
touches_mutex (mutex_lock m) = true
touches_mutex (mutex_unlock m) = true
touches_mutex (cond_wait c m) = true
touches_mutex _ = false

-- The calls that open or close a file or a directory.
abbrev pub touches_file : Call → Bool
touches_file (open_file path) = true
touches_file (close_file fd) = true
touches_file (fopen path) = true
touches_file (fclose fp) = true
touches_file (opendir path) = true
touches_file (closedir dp) = true
touches_file _ = false

-- Either.
abbrev pub is_tracked : Call → Bool
is_tracked (mutex_lock m) = true
is_tracked (mutex_unlock m) = true
is_tracked (cond_wait c m) = true
is_tracked (open_file path) = true
is_tracked (close_file fd) = true
is_tracked (fopen path) = true
is_tracked (fclose fp) = true
is_tracked (opendir path) = true
is_tracked (closedir dp) = true
is_tracked _ = false

pub untracked-mutex : (c : Call) → is_tracked c ≡ false → touches_mutex c ≡ false
untracked-mutex (mutex_lock m) h = h
untracked-mutex (mutex_unlock m) h = h
untracked-mutex (cond_wait c m) h = h
untracked-mutex _ h = refl

pub untracked-file : (c : Call) → is_tracked c ≡ false → touches_file c ≡ false
untracked-file (open_file path) h = h
untracked-file (close_file fd) h = h
untracked-file (fopen path) h = h
untracked-file (fclose fp) h = h
untracked-file (opendir path) h = h
untracked-file (closedir dp) h = h
untracked-file _ h = refl
