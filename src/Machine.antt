-- ===== src/Machine.antt =====
-- The machine and the kernel's global state: constants of kernel/riscv.h, config.h, memlayout.h and
-- process.h, the process table, and the monad in which the kernel's functions are written.
mod State
mod Monad
pub mod Access
pub mod Bytes
pub mod Memory
pub mod Returns
pub mod Word
pub use State.*
unfoldable pub use Monad.*
