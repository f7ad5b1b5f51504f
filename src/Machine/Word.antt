-- ===== src/Machine/Word.antt =====
-- Machine words: `uint64` arithmetic, `int` as its 32-bit pattern, page rounding.
use testcode.Base.{ℕ, ◌+◌, ◌-◌, ◌*◌, ◌/◌, ◌%◌, ◌^◌, Bool, ltb}

abbrev pub add64 : ℕ → ℕ → ℕ
add64 a b = (a + b) % 2 ^ 64

abbrev pub sub64 : ℕ → ℕ → ℕ
sub64 a b = (a + 2 ^ 64 - b) % 2 ^ 64

abbrev pub add32 : ℕ → ℕ → ℕ
add32 a b = (a + b) % 2 ^ 32

abbrev pub sub32 : ℕ → ℕ → ℕ
sub32 a b = (a + 2 ^ 32 - b) % 2 ^ 32

-- `a < b` on two patterns of type `int`.
abbrev pub slt32 : ℕ → ℕ → Bool
slt32 a b = ltb ((a + 2 ^ 31) % 2 ^ 32) ((b + 2 ^ 31) % 2 ^ 32)

-- An `int` pattern converted to `uint64`: the sign is extended.
abbrev pub sext32 : ℕ → ℕ
sext32 a = ((a + 2 ^ 31) % 2 ^ 32 + 2 ^ 64 - 2 ^ 31) % 2 ^ 64

abbrev pub pgsize : ℕ
pgsize = 4096

abbrev pub round_down : ℕ → ℕ
round_down a = a / pgsize * pgsize

abbrev pub round_up : ℕ → ℕ
round_up a = (sub64 a 1 / pgsize + 1) * pgsize % 2 ^ 64
