-- ===== src/Machine/Monad.antt =====
-- Results of a kernel function, the monad, and access to memory words.
use testcode.Base.{
  ℕ, ◌+◌, ◌*◌, ◌/◌, ◌%◌, ◌^◌, Bool, true, false, ◌&&◌, Option, none, some, ◌==◌, leb, ltb,
  if◌then◌else◌, update,
}
use testcode.Machine.State.{Kernel, dram_base, phys_top}

-- `panic` and `assert` stop the machine, `fault` is an access outside the kernel's direct map,
-- `to_user` is control passed to the current process by `return_to_user`, which does not return.
pub data Run {ℓ} (A : Type ℓ) : Type ℓ where
  ok : A → Kernel → Run A
  panic : Run A
  fault : Run A
  to_user : Kernel → Run A
  shutdown : ℕ → Run A
  out_of_fuel : Run A

abbrev pub K {ℓ} : Type ℓ → Type ℓ
K A = Kernel → Run A

abbrev pub pure {ℓ} : {A : Type ℓ} → A → K A
pure a s = ok a s

module _ {ℓ κ} {A : Type ℓ} {B : Type κ} where
  abbrev pub and_then : Run A → (A → K B) → Run B
  and_then (ok a s) f = f a s
  and_then panic f = panic
  and_then fault f = fault
  and_then (to_user s) f = to_user s
  and_then (shutdown c) f = shutdown c
  and_then out_of_fuel f = out_of_fuel

  infixl 5 ◌>>=◌
  abbrev pub ◌>>=◌ : K A → (A → K B) → K B
  ◌>>=◌ m f s = and_then (m s) f

infixl 5 ◌>>◌
abbrev pub ◌>>◌ {ℓ} : {B : Type ℓ} → K (Unit {0}) → K B → K B
m >> k = m >>= λ _. k

abbrev pub stop {ℓ} : {A : Type ℓ} → Run A → K A
stop r s = r

abbrev pub get : K Kernel
get s = ok s s

-- An assignment to global variables or to fields of the process table.
abbrev pub modify : (Kernel → Kernel) → K (Unit {0})
modify f s = ok tt (f s)

abbrev pub assert : Bool → K (Unit {0})
assert true = pure tt
assert false = stop panic

-- The words that the kernel can reach: aligned, and in the direct map of physical memory.
abbrev pub in_ram : ℕ → Bool
in_ram a = (a % 8 == 0) && leb dram_base a && ltb a phys_top

unfoldable pub load : ℕ → K ℕ
load a s = if in_ram a then ok (s.mem a) s else fault

unfoldable pub store : ℕ → ℕ → K (Unit {0})
store a v s = if in_ram a then ok tt (record s { mem = update s.mem a v }) else fault

-- A 32-bit store: it replaces one half of the word around it.
abbrev pub with_half : ℕ → ℕ → ℕ → ℕ
with_half a w v =
    if a % 8 == 0 then w / 2 ^ 32 * 2 ^ 32 + v % 2 ^ 32 else w % 2 ^ 32 + v % 2 ^ 32 * 2 ^ 32

unfoldable pub load32 : ℕ → K ℕ
unfolding load
load32 a = do w ← load (a / 8 * 8); pure (if a % 8 == 0 then w % 2 ^ 32 else w / 2 ^ 32 % 2 ^ 32)

unfoldable pub store32 : ℕ → ℕ → K (Unit {0})
unfolding load store
store32 a v = do w ← load (a / 8 * 8); store (a / 8 * 8) (with_half a w v)

-- `p->...` through a pointer to a process; a null pointer faults.
abbrev pub deref : Option ℕ → K ℕ
deref none = stop fault
deref (some i) = pure i
