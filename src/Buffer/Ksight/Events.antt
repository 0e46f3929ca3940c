-- ===== src/Buffer/Ksight/Events.antt =====
-- The kernel's tag events, as the reads of a log give them.
use ultrasight.Common.{
  ℕ, suc, ◌+◌, ◌%◌, ◌^◌, ◌≤◌, ◌<◌, ◌≡◌, ◌⊎◌, ℤ, pos, negsuc, is_positive, false, List, [], ◌∷◌,
  ◌++◌, length,
}
use ultrasight.Machine.{Env, Call, mremap, read_file}

abbrev pub gained : ℤ → List ℕ → List ℕ
gained (pos n) bytes = bytes
gained (negsuc n) bytes = []

-- All bytes that the reads of a log gave, in order, and how many reads there were.
abbrev pub events : Env → List Call → List ℕ
events env [] = []
events env (read_file fd size ∷ l) =
    events env l ++ gained (env.ret l (read_file fd size)) (env.out l (read_file fd size))
events env (_ ∷ l) = events env l

abbrev pub reads : List Call → ℕ
reads [] = 0
reads (read_file fd size ∷ l) = suc (reads l)
reads (_ ∷ l) = reads l

-- read(2): an error, or the number of the bytes that it wrote, at most `size`; here below 2^32.
abbrev pub ReadResult : ℕ → ℤ → List ℕ → Type 0
ReadResult size r bytes =
    ((k : ℕ) × (r ≡ negsuc k))
    ⊎ ((r ≡ pos (length bytes)) × (length bytes ≤ size) × (length bytes < 2 ^ 32))

-- What the loop relies on: mremap of less than 2^63 bytes succeeds, reads are reads, and after `n` reads the device is empty.
pub record DeviceLaws (env : Env) (n : ℕ) : Type 0 where
  pub remap_lem :
      (l : List Call) (addr old_size new_size : ℕ)
      → new_size < 2 ^ 63
      → (p : ℕ) × (env.ret l (mremap addr old_size new_size) ≡ pos p)
        × (0 < p)
        × (p % 8 ≡ 0)
        × (p + new_size < 2 ^ 64)
  pub read_lem :
      (l : List Call) (fd : ℤ) (size : ℕ)
      → ReadResult size (env.ret l (read_file fd size)) (env.out l (read_file fd size))
  pub dry_lem :
      (l : List Call) (fd : ℤ) (size : ℕ)
      → n ≤ reads l
      → is_positive (env.ret l (read_file fd size)) ≡ false
