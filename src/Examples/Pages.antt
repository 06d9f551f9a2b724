-- ===== src/Examples/Pages.antt =====
-- The page allocator of src/lib/memory.c on small maps.
use tbs_kernel.Memory.Pmm.Alloc.{pmm_alloc_page-first, IsValid, IsFree, Allocated}
use tbs_kernel.Base.{ℕ, ◌*◌, ◌<◌, ◌≡◌, refl, ◌⊎◌, ◌||◌, List, [], ◌∷◌, arith, if◌then◌else◌}
use tbs_kernel.Memory.Pmm.{Pmm, pmm_alloc_page, pmm_test_bit, page_size}
use tbs_kernel.Memory.Pmm.Init.{Image, MemoryEntry, place_bitmap, pmm_init}
use tbs_kernel.Memory.Pmm.Init.Reserved.{is_usable, in_bitmap, is_taken, placed, pmm_init-free_iff}

abbrev pages : Pmm
pages = record { bitmap = 0x0F ∷ 0 ∷ []; total_pages = 16 }

pages-IsValid : IsValid pages
pages-IsValid = record { bytes = ground arith; covers = omega arith; addresses = omega arith }

pmm_alloc_page-first_example :
    let (pmm', address) = pmm_alloc_page pages in
    IsValid pmm'
    × (((address ≡ 0) × (pmm' ≡ pages) × ((q : ℕ) → q < 16 → ¬ IsFree pages q))
        ⊎ ((page : ℕ) × (address ≡ page * page_size) × Allocated pages pmm' page))
pmm_alloc_page-first_example = pmm_alloc_page-first pages-IsValid

-- The first free page is number 4.
pages_alloc : (pmm_alloc_page pages).1 ≡ 0x4000
unfolding pmm_alloc_page pmm_test_bit
pages_alloc = refl

abbrev image : Image
image = record {
  kernel_start = 0x10_0000;
  kernel_end = 0x10_5000;
  page_directory = 0x10_5000;
  first_page_table = 0x10_6000;
}

abbrev entries : List MemoryEntry
entries = record { addr = 0; len = 0x40_0000 } ∷ []

image_total : (placed entries [] image).total_pages ≡ 1024
unfolding place_bitmap
image_total = refl

pmm_init-free_iff_example :
    ((pmm_init entries [] image).total_pages ≡ (placed entries [] image).total_pages)
    × (pmm_test_bit (pmm_init entries [] image).bitmap 900 ≡ (
        if is_taken entries [] image 900 || in_bitmap entries [] image 900
        then 1
        else if is_usable 900 entries
        then 0
        else 1))
unfolding place_bitmap
pmm_init-free_iff_example =
    pmm_init-free_iff entries [] image 900 (rw image_total (omega arith)) (ground arith) _
      (omega arith, omega arith)
