-- ===== src/Util/Errno.antt =====
-- The error numbers of <cerrno> that the code names, as Linux has them.
use io_uring_async_load_proc.Prelude.{ℕ}

abbrev pub enoent : ℕ
enoent = 2

abbrev pub eintr : ℕ
eintr = 4

abbrev pub eio : ℕ
eio = 5

abbrev pub eagain : ℕ
eagain = 11

abbrev pub einval : ℕ
einval = 22

abbrev pub enosys : ℕ
enosys = 38

abbrev pub ecanceled : ℕ
ecanceled = 125
