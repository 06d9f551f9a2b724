-- ===== src/Memory/State.antt =====
-- The state of src/lib/memory.c and the chains of its steps.
use tbs_kernel.Base.{ℕ, ◌==◌, if◌then◌else◌}
use tbs_kernel.Memory.Pmm.{Pmm}

-- `memory_block_t`; the lowest bit of `len` is the used flag.
pub record Block : Type 0 where
  pub len : ℕ
  pub next : ℕ

-- Page tables are found by the physical address of their frame, block headers by the address of
-- the block. 0 is the null pointer.
pub record Mm : Type 0 where
  pub pmm : Pmm
  pub page_directory : ℕ → ℕ
  pub page_tables : ℕ → ℕ → ℕ
  pub headers : ℕ → Block
  pub block_list : ℕ
  pub heap_next_virt : ℕ

unfoldable pub update {ℓ} : {A : Type ℓ} → (ℕ → A) → ℕ → A → ℕ → A
update f a v x = if x == a then v else f x
