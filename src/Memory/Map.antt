-- ===== src/Memory/Map.antt =====
-- `parse_memory_map` and `init_allocator` of src/lib/memory.c.
pub mod Parsed
use tbs_kernel.Memory.Pmm.Init.{MemoryEntry, BootModule, Image, pmm_init}
use tbs_kernel.Memory.State.{Mm}
use tbs_kernel.Base.{
  ℕ, zero, suc, ◌+◌, ◌-◌, ◌*◌, ◌/◌, ◌%◌, ◌^◌, ◌≤◌, ◌<◌, ◌≡◌, refl, sym, ap, ap₂, ◌∙◌, ◌≢◌, ◌↔◌, ◌⊎◌,
  inl, inr, Bool, true, false, not, ◌&&◌, ◌||◌, Option, none, some, List, [], ◌∷◌, ◌++◌, append-nil,
  append_assoc, arith, dec_lt, ℕ_discrete, ltb, leb, ◌==◌, if◌then◌else◌, ltb→lt, lt→ltb, ==_iff,
  Bool-cases, Option-cases, length, get_elem?, get_or, set, take, drop, replicate, length-append,
  length-set, get_or-set_self, get_or-set_ne, ◌>>=◌, All, All-append,
}
use tbs_kernel.Base.Words.{add32}
use tbs_kernel.Memory.Heap.{heap_start}

-- `struct multiboot_mmap_entry`; the 64-bit fields are numbers below 2 ^ 64.
pub record MmapEntry : Type 0 where
  pub size : ℕ
  pub addr : ℕ
  pub len : ℕ
  pub type : ℕ

-- The fields of `struct multiboot_info` that are read, and the entries by their address.
pub record MultibootInfo : Type 0 where
  pub flags : ℕ
  pub mmap_addr : ℕ
  pub mmap_length : ℕ
  pub mmap : ℕ → MmapEntry
  pub modules : List BootModule

abbrev pub max_mem_entries : ℕ
max_mem_entries = 128

-- The length up to 4 GiB: `len64` after the clamp.
abbrev pub clamp_len : ℕ → ℕ → ℕ
clamp_len addr len = if ltb 0xFFFF_FFFF ((addr + len) % 2 ^ 64) then 2 ^ 32 - addr else len

-- One entry of the map: what it adds to the array of `memory_entries`.
unfoldable pub take_entry : MmapEntry → List MemoryEntry → List MemoryEntry
take_entry e found =
    let len32 = clamp_len e.addr e.len % 2 ^ 32 in
    if not (e.type == 1)
    then found
    else if ltb 0xFFFF_FFFF e.addr
    then found
    else if leb 0x10_0000 e.addr && leb 16 len32 && ltb (length found) max_mem_entries
    then found ++ record { addr = e.addr; len = len32 } ∷ []
    else found

-- The `for` loop: `ptr` grows by the entry's size and the 4 bytes of the size field. With fuel.
unfoldable pub parse_loop :
    ℕ → (ℕ → MmapEntry) → ℕ → ℕ → List MemoryEntry → Option (List MemoryEntry)
parse_loop zero mmap ptr mmap_end found = if ltb ptr mmap_end then none else some found
parse_loop (suc fuel) mmap ptr mmap_end found =
    let e = mmap ptr in
    let ptr' = add32 ptr (add32 e.size 4) in
    let rest = parse_loop fuel mmap ptr' mmap_end (take_entry e found) in
    if ltb ptr mmap_end then rest else some found

unfoldable pub init_allocator : List MemoryEntry → List BootModule → Image → Mm → Mm
init_allocator entries mods image mm = record mm {
  pmm = pmm_init entries mods image;
  block_list = 0;
  heap_next_virt = heap_start;
}

-- The fuel is the number of bytes of the map; every entry takes at least 4.
unfoldable pub parse_memory_map : MultibootInfo → Image → Mm → Option Mm
parse_memory_map info image mm =
    let mmap_end = add32 info.mmap_addr info.mmap_length in
    if not (info.flags / 2 ^ 6 % 2 == 1) then some mm else do
      entries ← parse_loop info.mmap_length info.mmap info.mmap_addr mmap_end []
      some (init_allocator entries info.modules image mm)
