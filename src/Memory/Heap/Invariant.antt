-- ===== src/Memory/Heap/Invariant.antt =====
-- The well-formed states of the heap of src/lib/memory.c.
use tbs_kernel.Memory.State.{Mm}
use tbs_kernel.Base.{ℕ, ◌+◌, ◌%◌, ◌≤◌, ◌<◌, ◌≡◌, true, List}
use tbs_kernel.Memory.Heap.{heap_start, heap_end}
use tbs_kernel.Memory.Heap.Chain.{Cell, Chain, Avoids, Ordered, total}
use tbs_kernel.Memory.Pmm.{Pmm}
use tbs_kernel.Memory.Vmm.{is_present, pde_index}

-- Every page of the heap's range has a page table. The boot code fills the first 256 directory
-- entries, which map the first GiB.
abbrev pub IsMapped : (ℕ → ℕ) → Type 0
IsMapped directory =
    (v : ℕ) → heap_start ≤ v → v < heap_end → is_present (directory (pde_index v)) ≡ true

pub record IsHeap (mm : Mm) (xs : List Cell) : Type 0 where
  pub chain : Chain mm.headers mm.block_list xs 0
  pub ordered : Ordered heap_start xs mm.heap_next_virt
  pub bound : mm.heap_next_virt ≤ heap_end
  pub aligned : mm.heap_next_virt % 4096 ≡ 0
  pub mapped : IsMapped mm.page_directory

-- The block of `n` bytes at `a` was taken out of the free list `xs`, which leaves `ys`: it meets no
-- block that is still free, and no byte is lost.
pub record Taken (mm' : Mm) (xs ys : List Cell) (a n : ℕ) : Type 0 where
  pub heap : IsHeap mm' ys
  pub avoids : Avoids a n ys
  pub accounts : total xs ≡ n + total ys
  pub header : (mm'.headers a).len ≡ n + 1
  pub low : heap_start ≤ a
  pub high : a + n ≤ mm'.heap_next_virt
  pub place : a % 4 ≡ 0
  pub size_word : n % 4 ≡ 0

-- The list does not depend on the page allocator and the page tables.
pub IsHeap-pages :
    (mm : Mm) (xs : List Cell) (pages : Pmm) (tables : ℕ → ℕ → ℕ)
    → IsHeap mm xs
    → IsHeap (record mm { pmm = pages; page_tables = tables }) xs
IsHeap-pages mm xs pages tables heap = record {
  chain = heap.chain;
  ordered = heap.ordered;
  bound = heap.bound;
  aligned = heap.aligned;
  mapped = heap.mapped;
}
