-- ===== src/Prelude/Limits.antt =====
-- llimits.h: the limits that several parts share.
use Prim.Native.Nat.{ℕ, ◌-◌, ◌^◌}

-- MAX_INT, that is INT_MAX - 2
abbrev pub max_int : ℕ
max_int = 2 ^ 31 - 3

-- MAX_SIZET with 64 bits
abbrev pub max_sizet : ℕ
max_sizet = 2 ^ 64 - 3
