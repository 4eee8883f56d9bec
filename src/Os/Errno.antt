-- ===== src/Os/Errno.antt =====
-- The values that Linux gives the names of <errno.h> that the programs test.
use dp.Base.{ℕ}

abbrev pub eintr : ℕ
eintr = 4

abbrev pub ebadf : ℕ
ebadf = 9

abbrev pub enomem : ℕ
enomem = 12

abbrev pub enfile : ℕ
enfile = 23

abbrev pub emfile : ℕ
emfile = 24

abbrev pub eproto : ℕ
eproto = 71

abbrev pub econnaborted : ℕ
econnaborted = 103

abbrev pub enobufs : ℕ
enobufs = 105
