-- ===== src/Errno.antt =====
-- include/bathos/errno.h: the codes that the modelled functions return.
use bathos_mcuio.Prelude.{ℕ, zero, suc}
use bathos_mcuio.Prelude.Int.{ℤ, pos, negsuc}

-- `-e`
abbrev pub neg : ℕ → ℤ
neg zero = pos 0
neg (suc e) = negsuc e

abbrev pub eperm : ℕ
eperm = 1

abbrev pub enxio : ℕ
enxio = 6

abbrev pub ebadf : ℕ
ebadf = 9

abbrev pub eagain : ℕ
eagain = 11

abbrev pub enomem : ℕ
enomem = 12

abbrev pub enodev : ℕ
enodev = 19

abbrev pub einval : ℕ
einval = 22

abbrev pub enfile : ℕ
enfile = 23
