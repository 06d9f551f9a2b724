-- ===== src/Memory/Pmm/Init/Reserved.antt =====
-- Which pages are free after `pmm_init` of src/lib/memory.c.
use tbs_kernel.Base.{
  ℕ, zero, suc, ◌+◌, ◌-◌, ◌/◌, ◌<◌, ◌≡◌, refl, inl, inr, Bool, false, not, ◌&&◌, ◌||◌, List, [],
  ◌∷◌, arith, ltb, leb, if◌then◌else◌, Bool-cases, length, ◌%◌, true, ◌==◌, ==_iff, ◌*◌, ◌^◌, All,
}
use tbs_kernel.Memory.Pmm.{pmm_set_bit, pmm_clear_bit, pmm_test_bit, page_size, all_used}
use tbs_kernel.Memory.Pmm.Init.{
  set_pages, clear_pages, MemoryEntry, BootModule, free_entries, reserve_modules, reserve, release,
  entry_end, one_mib, pages_up, entry_first_page, Image, Placement, place_bitmap, pmm_init,
}
use tbs_kernel.Base.Bits.{holds_up_to, bit, holds_up_to_lem}
use tbs_kernel.Memory.Pmm.Bitmap.{
  length-all_used, get_or-all_used, all_used-IsBytes, length-pmm_clear_bit, length-pmm_set_bit,
  pmm_test_bit-clear, pmm_test_bit-set, pmm_clear_bit-IsBytes, pmm_set_bit-IsBytes, IsBytes,
}

abbrev pub within : ℕ → ℕ → ℕ → Bool
within first last page = leb first page && ltb page last

-- An end that the code can round up to a page within 32 bits.
abbrev pub IsBelowTop : ℕ → Type 0
IsBelowTop end_of = end_of + 4095 < 2 ^ 32

-- A bitmap of bytes that has a bit for page `q`.
pub record Covers (q : ℕ) (bm : List ℕ) : Type 0 where
  pub bytes : IsBytes bm
  pub inside : q / 8 < length bm

module _ (q : ℕ) where
  pmm_set_bit-Covers : (bm : List ℕ) (p : ℕ) → Covers q bm → Covers q (pmm_set_bit bm p)
  pmm_set_bit-Covers bm p c = record {
    bytes = pmm_set_bit-IsBytes bm p c.bytes;
    inside = omega (arith, c.inside, length-pmm_set_bit bm p);
  }

  pmm_clear_bit-Covers : (bm : List ℕ) (p : ℕ) → Covers q bm → Covers q (pmm_clear_bit bm p)
  pmm_clear_bit-Covers bm p c = record {
    bytes = pmm_clear_bit-IsBytes bm p c.bytes;
    inside = omega (arith, c.inside, length-pmm_clear_bit bm p);
  }

  set_pages-Covers : (n p : ℕ) (bm : List ℕ) → Covers q bm → Covers q (set_pages n p bm)
  unfolding set_pages
  set_pages-Covers zero p bm c = c
  set_pages-Covers (suc n) p bm c =
      set_pages-Covers n (p + 1) (pmm_set_bit bm p) (pmm_set_bit-Covers bm p c)

  clear_pages-Covers : (n p : ℕ) (bm : List ℕ) → Covers q bm → Covers q (clear_pages n p bm)
  unfolding clear_pages
  clear_pages-Covers zero p bm c = c
  clear_pages-Covers (suc n) p bm c =
      clear_pages-Covers n (p + 1) (pmm_clear_bit bm p) (pmm_clear_bit-Covers bm p c)

  -- A loop over a range changes the bits of that range and no other.
  set_pages-test :
      (n p : ℕ) (bm : List ℕ)
      → Covers q bm
      → pmm_test_bit (set_pages n p bm) q ≡ (if within p (p + n) q then 1 else pmm_test_bit bm q)
  unfolding set_pages
  set_pages-test zero p bm c = ground arith
  set_pages-test (suc n) p bm c = ground (
    arith,
    set_pages-test n (p + 1) (pmm_set_bit bm p) (pmm_set_bit-Covers bm p c),
    pmm_test_bit-set bm p q c.bytes c.inside,
  )

  clear_pages-test :
      (n p : ℕ) (bm : List ℕ)
      → Covers q bm
      → pmm_test_bit (clear_pages n p bm) q ≡ (if within p (p + n) q then 0 else pmm_test_bit bm q)
  unfolding clear_pages
  clear_pages-test zero p bm c = ground arith
  clear_pages-test (suc n) p bm c = ground (
    arith,
    clear_pages-test n (p + 1) (pmm_clear_bit bm p) (pmm_clear_bit-Covers bm p c),
    pmm_test_bit-clear bm p q c.bytes c.inside,
  )

  reserve-test :
      (a b : ℕ) (bm : List ℕ)
      → Covers q bm
      → pmm_test_bit (reserve a b bm) q ≡ (if within a b q then 1 else pmm_test_bit bm q)
  reserve-test a b bm c = ground (arith, set_pages-test (b - a) a bm c)

  release-test :
      (a b : ℕ) (bm : List ℕ)
      → Covers q bm
      → pmm_test_bit (release a b bm) q ≡ (if within a b q then 0 else pmm_test_bit bm q)
  release-test a b bm c = ground (arith, clear_pages-test (b - a) a bm c)

  -- Page `q` meets the bytes from `start` on and below `end_of`; a page inside which both lie does
  -- so too where there is no byte between them.
  abbrev pub touches : ℕ → ℕ → Bool
  touches start end_of = ltb (q * 4096) end_of && ltb start (q * 4096 + 4096)

  -- Page `q` lies above 1 MiB and holds a byte of an entry of the memory map.
  unfoldable pub is_usable : List MemoryEntry → Bool
  is_usable [] = false
  is_usable (e ∷ entries) = leb 256 q && touches e.addr (e.addr + e.len) || is_usable entries

  -- Page `q` holds a byte of a boot module.
  unfoldable pub in_module : List BootModule → Bool
  in_module [] = false
  in_module (m ∷ mods) = touches m.mod_start m.mod_end || in_module mods

  within-touches :
      (start end_of : ℕ)
      → IsBelowTop end_of
      → within (start / page_size) (pages_up end_of) q ≡ touches start end_of
  within-touches start end_of low =
      let up : pages_up end_of ≡ (end_of + 4095) / 4096 = omega (arith, low) in rw up (ground arith)

  directory_page :
      (directory : ℕ) → (directory / page_size == q) ≡ touches directory (directory + 1)
  directory_page directory = ground arith

  table_pages :
      (first : ℕ)
      → within (first / page_size) (first / page_size + 256) q
        ≡ touches first (first / 4096 * 4096 + 256 * 4096)
  table_pages first = ground arith

  entry-touches :
      (e : MemoryEntry)
      → IsBelowTop (e.addr + e.len)
      → (not (leb (entry_end e) one_mib) && within (entry_first_page e) (pages_up (entry_end e)) q)
        ≡ (leb 256 q && touches e.addr (e.addr + e.len))
  entry-touches e low =
      let whole : entry_end e ≡ e.addr + e.len = omega (arith, low) in
      let up : pages_up (e.addr + e.len) ≡ (e.addr + e.len + 4095) / 4096 = omega (arith, low) in
      rw (whole, up) (ground arith)

  free_entries-test :
      (entries : List MemoryEntry) (bm : List ℕ)
      → All (λ (e : MemoryEntry). IsBelowTop (e.addr + e.len)) entries
      → Covers q bm
      → Covers q (free_entries entries bm)
        × (pmm_test_bit (free_entries entries bm) q
            ≡ (if is_usable entries then 0 else pmm_test_bit bm q))
  unfolding free_entries is_usable
  free_entries-test [] bm low c = (c, refl)
  free_entries-test (e ∷ entries) bm low c = elim (Bool-cases (leb (entry_end e) one_mib)) [
    | inl below ↦ ground (arith, free_entries-test entries bm low.1 c, entry-touches e low.0)
    | inr high ↦
        let first : ℕ = entry_first_page e in
        let last : ℕ = pages_up (entry_end e) in
        ground (
          arith,
          free_entries-test entries (release first last bm) low.1
              (clear_pages-Covers (last - first) first bm c),
          release-test first last bm c,
          entry-touches e low.0,
        )
  ]

  reserve_modules-test :
      (mods : List BootModule) (bm : List ℕ)
      → All (λ (m : BootModule). IsBelowTop m.mod_end) mods
      → Covers q bm
      → pmm_test_bit (reserve_modules mods bm) q ≡ (if in_module mods then 1 else pmm_test_bit bm q)
  unfolding reserve_modules in_module
  reserve_modules-test [] bm low c = refl
  reserve_modules-test (m ∷ mods) bm low c =
      let first : ℕ = m.mod_start / page_size in
      let last : ℕ = pages_up m.mod_end in
      ground (
        arith,
        reserve_modules-test mods (reserve first last bm) low.1
            (set_pages-Covers (last - first) first bm c),
        reserve-test first last bm c,
        within-touches m.mod_start m.mod_end low.0,
      )

ones_table : holds_up_to (λ k. bit 255 k == 1) 8 ≡ true
unfolding holds_up_to
ones_table = refl

ones : (k : ℕ) → k < 8 → bit 255 k ≡ 1
ones k h = (==_iff _ _).0 (holds_up_to_lem _ h ones_table)

module _ (entries : List MemoryEntry) (mods : List BootModule) (image : Image) where
  -- The placement that `pmm_init` computes.
  abbrev pub placed : Placement
  placed = place_bitmap entries mods image

  -- Page `q` holds a byte of the kernel image, the page directory, or a boot module, or is one of
  -- the 256 from the first page table on.
  unfoldable pub is_taken : ℕ → Bool
  is_taken q =
      touches q image.kernel_start image.kernel_end
      || touches q image.page_directory (image.page_directory + 1)
      || touches q image.first_page_table (image.first_page_table / 4096 * 4096 + 256 * 4096)
      || in_module q mods

  -- Page `q` holds a byte of the range that step 6 reserves for the bitmap.
  unfoldable pub in_bitmap : ℕ → Bool
  in_bitmap q = touches q placed.bitmap_start placed.bitmap_end

  all_used-Covers : (q : ℕ) → q < placed.total_pages → Covers q (all_used placed.bitmap_bytes)
  unfolding place_bitmap
  all_used-Covers q h = record {
    bytes = all_used-IsBytes placed.bitmap_bytes;
    inside = omega (arith, length-all_used placed.bitmap_bytes);
  }

  all_used-test :
      (q : ℕ) → q < placed.total_pages → pmm_test_bit (all_used placed.bitmap_bytes) q ≡ 1
  unfolding pmm_test_bit place_bitmap
  all_used-test q h =
      rw (get_or-all_used placed.bitmap_bytes (q / 8) (omega arith)) (ones (q % 8) (omega arith))

  -- The entries of the memory map, the kernel image, the bitmap and the modules end below the last
  -- page of 4 GiB. Then after `pmm_init` a page below `pmm_total_pages` is free exactly if it lies
  -- above 1 MiB, holds a byte of an entry, and holds none of the kernel image, the range reserved
  -- for the bitmap, the page directory, the 256 page tables and the boot modules.
  pub pmm_init-free_iff :
      (q : ℕ)
      → q < placed.total_pages
      → All (λ (e : MemoryEntry). IsBelowTop (e.addr + e.len)) entries
      → All (λ (m : BootModule). IsBelowTop m.mod_end) mods
      → IsBelowTop image.kernel_end × IsBelowTop placed.bitmap_end
      → ((pmm_init entries mods image).total_pages ≡ placed.total_pages)
        × (pmm_test_bit (pmm_init entries mods image).bitmap q
            ≡ (if is_taken q || in_bitmap q then 1 else if is_usable q entries then 0 else 1))
  unfolding pmm_init is_taken in_bitmap
  pmm_init-free_iff q h low_entries low_mods (low_kernel, low_bitmap) =
      let p : Placement = placed in
      let full : List ℕ = all_used p.bitmap_bytes in
      let usable : List ℕ = free_entries entries full in
      let k1 : ℕ = image.kernel_start / page_size in
      let k2 : ℕ = pages_up image.kernel_end in
      let kernel : List ℕ = reserve k1 k2 usable in
      let b1 : ℕ = p.bitmap_start / page_size in
      let b2 : ℕ = pages_up p.bitmap_end in
      let itself : List ℕ = reserve b1 b2 kernel in
      let dir : ℕ = image.page_directory / page_size in
      let directory : List ℕ = pmm_set_bit itself dir in
      let t1 : ℕ = image.first_page_table / page_size in
      let tables : List ℕ = reserve t1 (t1 + 256) directory in
      let (c0, e0) = free_entries-test q entries full low_entries (all_used-Covers q h) in
      let c1 : Covers q kernel = set_pages-Covers q (k2 - k1) k1 usable c0 in
      let c2 : Covers q itself = set_pages-Covers q (b2 - b1) b1 kernel c1 in
      let c3 : Covers q directory = pmm_set_bit-Covers q itself dir c2 in
      let c4 : Covers q tables = set_pages-Covers q (t1 + 256 - t1) t1 directory c3 in
      let by_page : pmm_test_bit (pmm_init entries mods image).bitmap q ≡ (
          if (within k1 k2 q || (dir == q) || within t1 (t1 + 256) q || in_module q mods)
            || within b1 b2 q
          then 1
          else if is_usable q entries
          then 0
          else 1) =
        ground (
          arith,
          all_used-test q h,
          e0,
          reserve-test q k1 k2 usable c0,
          reserve-test q b1 b2 kernel c1,
          pmm_test_bit-set itself dir q c2.bytes c2.inside,
          reserve-test q t1 (t1 + 256) directory c3,
          reserve_modules-test q mods tables low_mods c4,
        ) in
      (
        refl,
        rw
            (
              within-touches q image.kernel_start image.kernel_end low_kernel,
              within-touches q p.bitmap_start p.bitmap_end low_bitmap,
              directory_page q image.page_directory,
              table_pages q image.first_page_table,
            )
            at by_page,
      )
