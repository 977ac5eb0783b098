-- ===== src/Word.antt =====
-- `v_int64` as its bit pattern, a number below 2 ^ 64: equality is equality of patterns, the
-- conversion to `v_uint64` is the identity, and the patterns from 2 ^ 63 on are the negative ones.
use helicopter.Base.{ℕ, ◌+◌, ◌-◌, ◌%◌, ◌^◌, Bool, ltb, leb}

abbrev pub Int64 : Type 0
Int64 = ℕ

abbrev pub modulus : ℕ
modulus = 2 ^ 64

abbrev pub minus_one : Int64
minus_one = 2 ^ 64 - 1

abbrev pub is_neg : Int64 → Bool
is_neg a = leb (2 ^ 63) a

-- The signed order, through the shift of both sides by 2 ^ 63.
abbrev pub lt_signed : Int64 → Int64 → Bool
lt_signed a b = ltb ((a + 2 ^ 63) % 2 ^ 64) ((b + 2 ^ 63) % 2 ^ 64)

abbrev pub inc : Int64 → Int64
inc a = (a + 1) % 2 ^ 64

abbrev pub sub : Int64 → Int64 → Int64
sub a b = (a + 2 ^ 64 - b) % 2 ^ 64
