-- ===== src/Memory/Map/Parsed.antt =====
-- What `parse_memory_map` of src/lib/memory.c hands to the page allocator.
use tbs_kernel.Memory.Map.{
  MmapEntry, take_entry, parse_loop, max_mem_entries, clamp_len, parse_memory_map, MultibootInfo,
  init_allocator,
}
use tbs_kernel.Base.{
  ℕ, zero, suc, ◌+◌, ◌/◌, ◌%◌, ◌^◌, ◌≤◌, ◌<◌, ◌≡◌, refl, ap, ◌∙◌, inl, inr, Bool, true, false, not,
  ◌&&◌, Option, some, List, [], ◌∷◌, arith, ltb, leb, ◌==◌, ltb→lt, Bool-cases, length,
  length-append, ◌>>=◌, All, All-append,
}
use tbs_kernel.Base.Words.{add32}
use tbs_kernel.Memory.State.{Mm}
use tbs_kernel.Memory.Pmm.Init.{Image, MemoryEntry}

-- An entry of usable memory above 1 MiB that ends at 4 GiB at most.
pub record IsUsable (e : MemoryEntry) : Type 0 where
  pub above : 0x10_0000 ≤ e.addr
  pub least : 16 ≤ e.len
  pub below : e.addr + e.len ≤ 2 ^ 32

clamp_len-end :
    (addr len : ℕ)
    → addr + len < 2 ^ 64
    → addr ≤ 0xFFFF_FFFF
    → 0x10_0000 ≤ addr
    → addr + clamp_len addr len % 2 ^ 32 ≤ 2 ^ 32
clamp_len-end addr len word low above = ground arith

abbrev takes : MmapEntry → List MemoryEntry → Bool
takes e found =
    leb 0x10_0000 e.addr
    && leb 16 (clamp_len e.addr e.len % 2 ^ 32)
    && ltb (length found) max_mem_entries

take_entry-IsUsable :
    (e : MmapEntry) (found : List MemoryEntry)
    → e.addr + e.len < 2 ^ 64
    → All IsUsable found
    → length found ≤ max_mem_entries
    → All IsUsable (take_entry e found) × (length (take_entry e found) ≤ max_mem_entries)
unfolding take_entry
take_entry-IsUsable e found word all few = elim (Bool-cases (not (e.type == 1))) [
  | inl other ↦ rw other (all, few)
  | inr memory ↦ rw memory (elim (Bool-cases (ltb 0xFFFF_FFFF e.addr)) [
    | inl high ↦ rw high (all, few)
    | inr low ↦ rw low (elim (Bool-cases (takes e found)) [
      | inr left ↦ rw left (all, few)
      | inl taken ↦
          let len32 : ℕ = clamp_len e.addr e.len % 2 ^ 32 in
          let above : 0x10_0000 ≤ e.addr = ground arith in
          let least : 16 ≤ len32 = ground arith in
          let new : List MemoryEntry = record { addr = e.addr; len = len32 } ∷ [] in
          let room : length found < max_mem_entries = ground arith in
          let ends : e.addr + len32 ≤ 2 ^ 32 =
            clamp_len-end e.addr e.len word (ground arith) above in
          rw taken (
            All-append IsUsable found new all
                (record { above = above; least = least; below = ends }, tt),
            omega (arith, length-append found new, room),
          )
    ])
  ])
]

-- The loop reads the map to its end if it ends below 2 GiB, its entries are smaller than 1 GiB, no
-- range passes 2 ^ 64, and the fuel is at least the number of bytes, as in `parse_memory_map`. At most
-- 128 entries are kept, and each has at least 16 bytes, starts at 1 MiB or above, and ends at 4 GiB
-- or below.
pub parse_loop-IsUsable :
    (fuel : ℕ) (mmap : ℕ → MmapEntry) (ptr mmap_end : ℕ) (found : List MemoryEntry)
    → ((a : ℕ) → (mmap a).size < 2 ^ 30)
    → ((a : ℕ) → (mmap a).addr + (mmap a).len < 2 ^ 64)
    → mmap_end < 2 ^ 31
    → mmap_end ≤ ptr + fuel
    → All IsUsable found
    → length found ≤ max_mem_entries
    → (entries : List MemoryEntry) × (parse_loop fuel mmap ptr mmap_end found ≡ some entries)
      × All IsUsable entries
      × (length entries ≤ max_mem_entries)
unfolding parse_loop
parse_loop-IsUsable zero mmap ptr mmap_end found sizes lens low fuel all few =
    let done : ltb ptr mmap_end ≡ false = ground arith in rw done (found, refl, all, few)
parse_loop-IsUsable (suc f) mmap ptr mmap_end found sizes lens low fuel all few =
    let e : MmapEntry = mmap ptr in
    elim (Bool-cases (ltb ptr mmap_end)) [
      | inr done ↦ rw done (found, refl, all, few)
      | inl more ↦
          let inside : ptr < mmap_end = ltb→lt ptr mmap_end more in
          let step : add32 ptr (add32 e.size 4) ≡ ptr + e.size + 4 =
            omega (arith, sizes ptr, inside, low) in
          let (all', few') = take_entry-IsUsable e found (lens ptr) all few in
          rw (more, step)
            (parse_loop-IsUsable f mmap (ptr + e.size + 4) mmap_end (take_entry e found) sizes lens
              low (omega arith) all' few')
    ]

-- With the flag of the memory map set, a map that ends below 2 GiB, entries smaller than 1 GiB and
-- ranges that do not pass 2 ^ 64, `parse_memory_map` returns, and starts the allocator with at most
-- 128 ranges, each of at least 16 bytes, from 1 MiB on and up to 4 GiB at most.
pub parse_memory_map-IsUsable :
    (info : MultibootInfo) (image : Image) (mm : Mm)
    → info.flags / 2 ^ 6 % 2 ≡ 1
    → info.mmap_addr + info.mmap_length < 2 ^ 31
    → ((a : ℕ) → (info.mmap a).size < 2 ^ 30)
    → ((a : ℕ) → (info.mmap a).addr + (info.mmap a).len < 2 ^ 64)
    → (entries : List MemoryEntry) × (parse_memory_map info image mm
        ≡ some (init_allocator entries info.modules image mm))
      × All IsUsable entries
      × (length entries ≤ max_mem_entries)
unfolding parse_memory_map
parse_memory_map-IsUsable info image mm flag low sizes ranges =
    let set_flag : (info.flags / 2 ^ 6 % 2 == 1) ≡ true = ground arith in
    let sum : add32 info.mmap_addr info.mmap_length ≡ info.mmap_addr + info.mmap_length =
      omega (arith, low) in
    let start : List MemoryEntry → Option Mm =
      λ entries. some (init_allocator entries info.modules image mm) in
    let found : Option (List MemoryEntry) =
      parse_loop info.mmap_length info.mmap info.mmap_addr (info.mmap_addr + info.mmap_length) [] in
    let (entries, e, all, few) =
      parse_loop-IsUsable info.mmap_length info.mmap info.mmap_addr
        (info.mmap_addr + info.mmap_length) [] sizes ranges low (omega arith) tt (omega arith) in
    let loop : parse_memory_map info image mm ≡ (found >>= start) = rw (set_flag, sum) in
    (entries, loop ∙ ap (λ o. o >>= start) e, all, few)
