-- ===== src/Base/Errno.antt =====
-- The values of `errno` that the code sets or tests, and those of other calls, by number.
use Prim.Native.Nat.{ℕ}

pub data Errno : Type 0 where
  ebadf emsgsize eagain ebusy einval eexist enoent etimedout : Errno
  code : ℕ → Errno
