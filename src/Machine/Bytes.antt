-- ===== src/Machine/Bytes.antt =====
-- Single bytes of memory, and `strcmp` of util/string.c where the kernel calls it.
use testcode.Base.{ℕ, zero, suc, ◌+◌, ◌*◌, ◌/◌, ◌%◌, ◌&&◌, not, ◌==◌, if◌then◌else◌}
use testcode.Machine.{K, pure, ◌>>=◌, stop, out_of_fuel, load, store}
use testcode.Machine.Word.{sub32}

-- The byte `i` of a word, the lowest first.
unfoldable pub byte_of : (word i : ℕ) → ℕ
byte_of word zero = word % 256
byte_of word (suc i) = byte_of (word / 256) i

-- The word with another byte `i`.
unfoldable pub with_byte : (word i v : ℕ) → ℕ
with_byte word zero v = word / 256 * 256 + v % 256
with_byte word (suc i) v = with_byte (word / 256) i v * 256 + word % 256

unfoldable pub load8 : ℕ → K ℕ
unfolding load
load8 a = do w ← load (a / 8 * 8); pure (byte_of w (a % 8))

unfoldable pub store8 : ℕ → ℕ → K (Unit {0})
unfolding load store
store8 a v = do w ← load (a / 8 * 8); store (a / 8 * 8) (with_byte w (a % 8) v)

-- `strcmp` on kernel memory: a pointer outside of it faults.
unfoldable pub compare_strings : ℕ → (s1 s2 : ℕ) → K ℕ
unfolding load8
compare_strings zero s1 s2 = stop out_of_fuel
compare_strings (suc n) s1 s2 = do
  c1 ← load8 s1
  c2 ← load8 s2
  let rest : K ℕ = compare_strings n (s1 + 1) (s2 + 1)
  if not (c1 == 0) && c1 == c2 then rest else pure (sub32 c1 c2)
