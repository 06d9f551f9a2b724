-- ===== src/Examples/Blocks.antt =====
-- The heap of src/lib/memory.c before its first page, and with one block handed out.
use tbs_kernel.Memory.Vmm.{vmm_map_page, vmm_check_identity_page}
use tbs_kernel.Memory.Vmm.Mapping.{vmm_map_page-identity}
use tbs_kernel.Memory.Heap.Malloc.{kmalloc-grants, Granted, AllSmaller}
use tbs_kernel.Memory.Heap.Free.{kfree-returns, kfree-coalesces, kfree-kmalloc}
use tbs_kernel.Base.{
  ℕ, ◌+◌, ◌≡◌, refl, ◌⊎◌, true, some, List, [], ◌∷◌, ◌++◌, arith, ◌==◌, if◌then◌else◌, ◌||◌,
}
use tbs_kernel.Memory.State.{Mm}
use tbs_kernel.Memory.Heap.Invariant.{IsHeap}
use tbs_kernel.Memory.Heap.Free.Insert.{IsHeld}
use tbs_kernel.Memory.Heap.{heap_start, kmalloc, kfree}
use tbs_kernel.Memory.Heap.Chain.{Cell, total, is_free, in_block}
use tbs_kernel.Memory.Pmm.{page_size}
use tbs_kernel.Memory.Heap.Grow.{IsGrowthRefused}
use tbs_kernel.Memory.Heap.Free.Merge.{IsApart}

abbrev fresh : Mm
fresh = record {
  pmm = record { bitmap = 0x0F ∷ 0 ∷ []; total_pages = 16 };
  page_directory = λ _. 3;
  page_tables = λ _ _. 0;
  headers = λ _. record { len = 0; next = 0 };
  block_list = 0;
  heap_next_virt = heap_start;
}

fresh-IsHeap : IsHeap fresh []
fresh-IsHeap = record {
  chain = refl;
  ordered = omega arith;
  bound = omega arith;
  aligned = refl;
  mapped = λ v l h. refl;
}

-- One page, all of it one used block.
abbrev full_heap : Mm
full_heap = record fresh {
  headers = λ _. record { len = 4097; next = 0 };
  heap_next_virt = heap_start + 4096;
}

full_heap-IsHeap : IsHeap full_heap []
full_heap-IsHeap = record {
  chain = refl;
  ordered = omega arith;
  bound = omega arith;
  aligned = refl;
  mapped = λ v l h. refl;
}

full_heap-IsHeld : IsHeld full_heap [] heap_start 4096
full_heap-IsHeld = record {
  header = refl;
  avoids = tt;
  least = omega arith;
  size_word = refl;
  place_word = refl;
  low = omega arith;
  high = omega arith;
}

kfree-returns_example :
    (mm' : Mm) × (ys : List Cell) × (kfree (heap_start + 8) full_heap ≡ some mm')
    × IsHeap mm' ys
    × (total ys ≡ total [] + 4096)
kfree-returns_example = kfree-returns full_heap [] heap_start 4096 full_heap-IsHeap full_heap-IsHeld

-- A held block of 32 bytes between two free ones that it touches.
abbrev split_heap : Mm
split_heap = record full_heap {
  headers = λ p.
      if p == heap_start
      then record { len = 16; next = heap_start + 48 }
      else if p == heap_start + 48
      then record { len = 4048; next = 0 }
      else record { len = 33; next = 0 };
  block_list = heap_start;
}

abbrev split_cells : List Cell
split_cells = (heap_start, 16) ∷ (heap_start + 48, 4048) ∷ []

split_heap-IsHeap : IsHeap split_heap split_cells
split_heap-IsHeap = record {
  chain = (refl, refl, (refl, refl, refl));
  ordered = ground arith;
  bound = omega arith;
  aligned = refl;
  mapped = λ v l h. refl;
}

split_heap-IsHeld : IsHeld split_heap split_cells (heap_start + 16) 32
split_heap-IsHeld = record {
  header = refl;
  avoids = ground arith;
  least = omega arith;
  size_word = refl;
  place_word = refl;
  low = omega arith;
  high = omega arith;
}

kfree-coalesces_example :
    (mm' : Mm) × (ys : List Cell) × (kfree (heap_start + 16 + 8) split_heap ≡ some mm')
    × IsHeap mm' ys
    × IsApart ys
    × ((x : ℕ) → is_free ys x ≡ (in_block (heap_start + 16) 32 x || is_free split_cells x))
    × (total ys ≡ total split_cells + 32)
kfree-coalesces_example =
    kfree-coalesces split_heap split_cells (heap_start + 16) 32 split_heap-IsHeap split_heap-IsHeld
      (ground arith)

-- The first free block of `split_heap` is too small.
kmalloc-grants_example :
    (ptr : ℕ) × (mm' : Mm) × (kmalloc 100 split_heap ≡ some (ptr, mm'))
    × ((ptr ≡ 0) × IsHeap mm' split_cells × AllSmaller 108 split_cells × IsGrowthRefused split_heap
        ⊎ Granted 108 ptr mm' split_cells
        ⊎ AllSmaller 108 split_cells
          × Granted 108 ptr mm' (split_cells ++ (heap_start + 4096, page_size) ∷ []))
kmalloc-grants_example =
    kmalloc-grants 100 split_heap split_cells (omega arith) (omega arith) split_heap-IsHeap

kfree-kmalloc_example :
    (ptr : ℕ) × (mm1 mm2 : Mm) × (ys : List Cell) × (kmalloc 100 fresh ≡ some (ptr, mm1))
    × (kfree ptr mm1 ≡ some mm2)
    × IsHeap mm2 ys
    × ((total ys ≡ total []) ⊎ (total ys ≡ total [] + page_size))
kfree-kmalloc_example = kfree-kmalloc 100 fresh [] (omega arith) (omega arith) fresh-IsHeap

vmm_map_page-identity_example :
    (mm' : Mm) × (vmm_map_page 0x40_0000 0x40_0000 3 fresh ≡ some mm')
    × (vmm_check_identity_page mm' 0x40_0123 ≡ true)
vmm_map_page-identity_example =
    vmm_map_page-identity 0x40_0000 0x40_0123 fresh (omega arith) (omega arith) refl
