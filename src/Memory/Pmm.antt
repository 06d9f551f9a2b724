-- ===== src/Memory/Pmm.antt =====
-- The physical page allocator of src/lib/memory.c: one bit for each page, set for a used page.
-- The bitmap is the list of its bytes; a write past it, to memory outside the allocator, is not
-- modelled and changes nothing here.
pub mod Bitmap
pub mod Alloc
pub mod Init
use tbs_kernel.Base.Bits.{bit, set_bit_of, clear_bit_of}
use tbs_kernel.Base.{
  ℕ, zero, suc, ◌+◌, ◌-◌, ◌*◌, ◌/◌, ◌%◌, ◌^◌, ◌≤◌, ◌<◌, ◌≡◌, refl, sym, ap, ◌∙◌, ◌≢◌, ◌↔◌, ◌⊎◌, inl,
  inr, Bool, true, false, not, ◌&&◌, ◌||◌, Option, none, some, List, [], ◌∷◌, ◌++◌, append-nil,
  append_assoc, arith, dec_lt, ℕ_discrete, ltb, leb, ◌==◌, if◌then◌else◌, ltb→lt, lt→ltb, ==_iff,
  Bool-cases, Option-cases, length, get_elem?, get_or, set, take, drop, replicate, length-append,
  length-set, get_or-set_self, get_or-set_ne, ◌>>=◌, All, All-append,
}
use tbs_kernel.Base.Words.{add32}

abbrev pub page_size : ℕ
page_size = 4096

unfoldable pub pmm_set_bit : List ℕ → ℕ → List ℕ
pmm_set_bit bitmap page = set bitmap (page / 8) (set_bit_of (get_or bitmap (page / 8) 0) (page % 8))

unfoldable pub pmm_clear_bit : List ℕ → ℕ → List ℕ
pmm_clear_bit bitmap page =
    set bitmap (page / 8) (clear_bit_of (get_or bitmap (page / 8) 0) (page % 8))

unfoldable pub pmm_test_bit : List ℕ → ℕ → ℕ
pmm_test_bit bitmap page = bit (get_or bitmap (page / 8) 0) (page % 8)

-- Step 3 of `pmm_init`: the loop that stores 0xFF in each byte of the bitmap.
abbrev pub all_used : ℕ → List ℕ
all_used bytes = replicate bytes 0xFF

-- `pmm_bitmap` and `pmm_total_pages`.
pub record Pmm : Type 0 where
  pub bitmap : List ℕ
  pub total_pages : ℕ

-- The loop of `pmm_alloc_page` from `page` on, with the rounds that are left: the first free page.
find_free : List ℕ → ℕ → ℕ → Option ℕ
find_free bitmap zero page = none
find_free bitmap (suc left) page =
    let later = find_free bitmap left (page + 1) in
    if pmm_test_bit bitmap page == 0 then some page else later

-- The address of the page, or 0.
unfoldable pub pmm_alloc_page : Pmm → Pmm × ℕ
unfolding find_free
pmm_alloc_page pmm = elim (find_free pmm.bitmap pmm.total_pages 0) [
  | none ↦ (pmm, 0)
  | some page ↦ (record pmm { bitmap = pmm_set_bit pmm.bitmap page }, page * page_size % 2 ^ 32)
]

unfoldable pub pmm_free_page : Pmm → ℕ → Pmm
pmm_free_page pmm phys_addr =
    let page = phys_addr / page_size in
    if ltb page pmm.total_pages then record pmm { bitmap = pmm_clear_bit pmm.bitmap page } else pmm
