-- ===== src/Memory/Pmm/Init.antt =====
-- `pmm_init` of src/lib/memory.c: the bitmap from the memory map and the boot modules. The
-- linker's and the boot code's symbols are the fields of `Image`.
pub mod Reserved
use tbs_kernel.Base.{
  ℕ, zero, suc, ◌+◌, ◌-◌, ◌*◌, ◌/◌, ◌%◌, ◌^◌, ◌≤◌, ◌<◌, ◌≡◌, refl, sym, ap, ◌∙◌, ◌≢◌, ◌↔◌, ◌⊎◌, inl,
  inr, Bool, true, false, not, ◌&&◌, ◌||◌, Option, none, some, List, [], ◌∷◌, ◌++◌, append-nil,
  append_assoc, arith, dec_lt, ℕ_discrete, ltb, leb, ◌==◌, if◌then◌else◌, ltb→lt, lt→ltb, ==_iff,
  Bool-cases, Option-cases, length, get_elem?, get_or, set, take, drop, replicate, length-append,
  length-set, get_or-set_self, get_or-set_ne, ◌>>=◌, All, All-append,
}
use tbs_kernel.Memory.Pmm.{page_size, pmm_set_bit, pmm_clear_bit, Pmm, all_used}
use tbs_kernel.Base.Words.{add32}

-- `struct memory_entry` and the two fields of `multiboot_module_t` that are read.
pub record MemoryEntry : Type 0 where
  pub addr : ℕ
  pub len : ℕ

pub record BootModule : Type 0 where
  pub mod_start : ℕ
  pub mod_end : ℕ

pub record Image : Type 0 where
  pub kernel_start : ℕ
  pub kernel_end : ℕ
  pub page_directory : ℕ
  pub first_page_table : ℕ

abbrev pub entry_end : MemoryEntry → ℕ
entry_end e = add32 e.addr e.len

-- Step 1: the highest end of an entry, and the lowest start of a module.
abbrev pub highest_end : List MemoryEntry → ℕ → ℕ
highest_end [] highest = highest
highest_end (e ∷ entries) highest =
    highest_end entries (if ltb highest (entry_end e) then entry_end e else highest)

abbrev pub first_module : List BootModule → ℕ → ℕ
first_module [] start = start
first_module (m ∷ mods) start =
    first_module mods (if ltb m.mod_start start then m.mod_start else start)

abbrev pub page_up : ℕ → ℕ
page_up a = add32 a 0xFFF / 4096 * 4096

-- `(x + PAGE_SIZE - 1) / PAGE_SIZE`
abbrev pub pages_up : ℕ → ℕ
pages_up a = add32 a 4095 / page_size

-- Step 2: the numbers that place the bitmap.
pub record Placement : Type 0 where
  pub total_pages : ℕ
  pub bitmap_bytes : ℕ
  pub bitmap_start : ℕ
  pub bitmap_end : ℕ

-- The fallback moves `bitmap_start` and leaves `bitmap_end` as computed before.
unfoldable pub place_bitmap : List MemoryEntry → List BootModule → Image → Placement
place_bitmap entries mods image =
    let highest = highest_end entries 0 in
    let module_start = first_module mods 0xFFFF_FFFF in
    let total = pages_up highest in
    let start = page_up (add32 image.first_page_table (256 * page_size)) in
    let bytes = (total + 7) / 8 in
    let end_of = add32 start bytes in
    record {
      total_pages = total;
      bitmap_bytes = bytes;
      bitmap_start =
          if ltb module_start end_of then page_up (add32 module_start (page_size * 100)) else start;
      bitmap_end = end_of;
    }

-- `for (p = first; p < last; ++p) pmm_set_bit(p)`, by the rounds left, and the same with
-- `pmm_clear_bit`.
unfoldable pub set_pages : ℕ → ℕ → List ℕ → List ℕ
set_pages zero p bitmap = bitmap
set_pages (suc left) p bitmap = set_pages left (p + 1) (pmm_set_bit bitmap p)

unfoldable pub clear_pages : ℕ → ℕ → List ℕ → List ℕ
clear_pages zero p bitmap = bitmap
clear_pages (suc left) p bitmap = clear_pages left (p + 1) (pmm_clear_bit bitmap p)

abbrev pub reserve : ℕ → ℕ → List ℕ → List ℕ
reserve first last bitmap = set_pages (last - first) first bitmap

abbrev pub release : ℕ → ℕ → List ℕ → List ℕ
release first last bitmap = clear_pages (last - first) first bitmap

abbrev pub one_mib : ℕ
one_mib = 0x0010_0000

-- The first page of an entry that step 4 frees.
abbrev pub entry_first_page : MemoryEntry → ℕ
entry_first_page e = (if ltb e.addr one_mib then one_mib else e.addr) / page_size

-- Step 4: usable memory above 1 MiB.
unfoldable pub free_entries : List MemoryEntry → List ℕ → List ℕ
free_entries [] bitmap = bitmap
free_entries (e ∷ entries) bitmap = free_entries entries (
    if leb (entry_end e) one_mib
    then bitmap
    else release (entry_first_page e) (pages_up (entry_end e)) bitmap)

-- Step 8: the modules.
unfoldable pub reserve_modules : List BootModule → List ℕ → List ℕ
reserve_modules [] bitmap = bitmap
reserve_modules (m ∷ mods) bitmap =
    reserve_modules mods (reserve (m.mod_start / page_size) (pages_up m.mod_end) bitmap)

-- Steps 3 to 8.
unfoldable pub pmm_init : List MemoryEntry → List BootModule → Image → Pmm
pmm_init entries mods image =
    let p = place_bitmap entries mods image in
    let usable = free_entries entries (all_used p.bitmap_bytes) in
    let kernel = reserve (image.kernel_start / page_size) (pages_up image.kernel_end) usable in
    let itself = reserve (p.bitmap_start / page_size) (pages_up p.bitmap_end) kernel in
    let directory = pmm_set_bit itself (image.page_directory / page_size) in
    let first_table = image.first_page_table / page_size in
    let tables = reserve first_table (first_table + 256) directory in
    record { bitmap = reserve_modules mods tables; total_pages = p.total_pages }
