-- ===== src/Memory/Allocator.antt =====
-- What the other parts of the kernel use of the allocator: `kmalloc` and `kfree` of
-- src/lib/memory.c, as an interface.
use tbs_kernel.Memory.State.{Mm}
use tbs_kernel.Base.{ℕ, Option}
use tbs_kernel.Memory.Heap.{kmalloc, kfree}

-- Addresses are numbers, 0 is the null pointer, and `none` is a fault.
pub record Allocator : Type 1 where
  pub State : Type 0
  pub alloc : ℕ → State → Option (ℕ × State)
  pub free : ℕ → State → Option State

-- The kernel's own.
abbrev pub kernel_allocator : Allocator
kernel_allocator = record { State = Mm; alloc = kmalloc; free = kfree }
