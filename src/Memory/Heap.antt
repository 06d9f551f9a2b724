-- ===== src/Memory/Heap.antt =====
-- The kernel heap of src/lib/memory.c: a list of free blocks, sorted by address, threaded through
-- the block headers. A step that does not return (an endless loop, a fault) is `none`.
pub mod Chain
pub mod Walk
pub mod Relink
pub mod Grow
pub mod Invariant
pub mod Malloc
pub mod Free
use tbs_kernel.Base.Words.{add32, sub32}
use tbs_kernel.Memory.Pmm.{page_size, pmm_alloc_page}
use tbs_kernel.Memory.State.{Block, Mm, update}
use tbs_kernel.Base.{
  ℕ, zero, suc, ◌+◌, ◌-◌, ◌*◌, ◌/◌, ◌%◌, ◌^◌, ◌≤◌, ◌<◌, ◌≡◌, refl, sym, ap, ◌∙◌, ◌≢◌, ◌↔◌, ◌⊎◌, inl,
  inr, Bool, true, false, not, ◌&&◌, ◌||◌, Option, none, some, List, [], ◌∷◌, ◌++◌, append-nil,
  append_assoc, arith, dec_lt, ℕ_discrete, ltb, leb, ◌==◌, if◌then◌else◌, ltb→lt, lt→ltb, ==_iff,
  Bool-cases, Option-cases, length, get_elem?, get_or, set, take, drop, replicate, length-append,
  length-set, get_or-set_self, get_or-set_ne, ◌>>=◌, All, All-append,
}
use tbs_kernel.Memory.Vmm.{vmm_map_page}

abbrev pub heap_start : ℕ
heap_start = 0x0040_0000

abbrev pub heap_end : ℕ
heap_end = 0x1000_0000

abbrev pub header_size : ℕ
header_size = 8

-- `((x) + 3) & ~3U`
abbrev pub align4 : ℕ → ℕ
align4 x = add32 x 3 / 4 * 4

abbrev pub block_size : Block → ℕ
block_size b = b.len / 2 * 2

abbrev pub block_used : Block → Bool
block_used b = b.len % 2 == 1

-- `len | USED_FLAG` and `len & ~USED_FLAG`.
abbrev pub with_used : ℕ → ℕ
with_used len = len / 2 * 2 + 1

abbrev pub without_used : ℕ → ℕ
without_used len = len / 2 * 2

-- The loops that walk the list while a test holds at the current block: `(prev, cur)` where they
-- stop. `none` is a walk longer than the fuel.
unfoldable pub walk : (ℕ → Block) → (ℕ → Bool) → ℕ → ℕ → ℕ → Option (ℕ × ℕ)
walk headers go_on zero prev cur = none
walk headers go_on (suc fuel) prev cur =
    let later = walk headers go_on fuel cur (headers cur).next in
    if cur == 0 then some (prev, cur) else if go_on cur then later else some (prev, cur)

-- A list in order of address has fewer blocks than the heap has bytes.
abbrev pub walk_fuel : ℕ
walk_fuel = heap_end

-- `if (prev) prev->next = q; else kernel_block_list = q`
unfoldable pub link : ℕ → ℕ → Mm → Mm
link prev q mm =
    if prev == 0
    then record mm { block_list = q }
    else record mm { headers = update mm.headers prev (record (mm.headers prev) { next = q }) }

abbrev pub put_block : ℕ → ℕ → ℕ → Mm → Mm
put_block a len next mm = record mm {
  headers = update mm.headers a (record { len = len; next = next });
}

unfoldable pub add_block : ℕ → ℕ → Mm → Option Mm
unfolding link
add_block addr len mm = if ltb len (header_size + 4) then some mm else do
  (prev, cur) ← walk mm.headers (λ c. ltb c addr) walk_fuel 0 mm.block_list
  some (link prev addr (put_block addr (without_used (align4 len)) cur mm))

unfoldable pub heap_grow : Mm → Option (Bool × Mm)
heap_grow mm =
    let (pmm', phys) = pmm_alloc_page mm.pmm in
    if ltb heap_end (add32 mm.heap_next_virt page_size)
    then some (false, mm)
    else if phys == 0
    then some (false, record mm { pmm = pmm' })
    else do
      mapped ← vmm_map_page mm.heap_next_virt phys 3 (record mm { pmm = pmm' })
      added ← add_block mm.heap_next_virt page_size mapped
      some (true, record added { heap_next_virt = add32 added.heap_next_virt page_size })

unfoldable pub fits : (ℕ → Block) → ℕ → ℕ → Bool
fits headers needed cur = not (block_used (headers cur)) && leb needed (block_size (headers cur))

unfoldable pub find_prev_for_size : ℕ → Mm → Option (ℕ × ℕ)
find_prev_for_size needed mm =
    walk mm.headers (λ c. not (fits mm.headers needed c)) walk_fuel 0 mm.block_list

abbrev pub min_split : ℕ
min_split = header_size + 4

-- What `kmalloc` does with the block it found: it splits off the rest, or takes the block whole.
unfoldable pub take_block : ℕ → ℕ → ℕ → Mm → Mm
unfolding link
take_block needed prev block mm =
    let b = mm.headers block in
    let bsize = block_size b in
    let rest = add32 block needed in
    if leb (add32 needed min_split) bsize
    then (let mm' = put_block rest (without_used (sub32 bsize needed)) b.next mm in
        let linked = link prev rest mm' in
        record linked {
          headers =
              update linked.headers block
                (record (linked.headers block) { len = with_used needed });
        })
    else (let linked = link prev b.next mm in
        record linked {
          headers =
              update linked.headers block
                (record (linked.headers block) { len = with_used (linked.headers block).len });
        })

-- The part behind the label `retry`; the fuel counts the attempts.
kmalloc_retry : ℕ → ℕ → Mm → Option (ℕ × Mm)
kmalloc_retry zero needed mm = none
kmalloc_retry (suc attempts) needed mm = do
  (prev, block) ← find_prev_for_size needed mm
  let again = heap_grow mm >>= λ (grown, mm').
      if grown then kmalloc_retry attempts needed mm' else some (0, mm')
  if block == 0 then again else some (add32 block header_size, take_block needed prev block mm)

-- The loop over the pages of a large block: whether all of them were added.
grow_pages : ℕ → Mm → Option (Bool × Mm)
grow_pages zero mm = some (true, mm)
grow_pages (suc pages) mm =
    heap_grow mm >>= λ (grown, mm'). if grown then grow_pages pages mm' else some (false, mm')

-- Two attempts: a block that `heap_grow` adds is large enough for the second.
unfoldable pub kmalloc : ℕ → Mm → Option (ℕ × Mm)
unfolding kmalloc_retry grow_pages
kmalloc size mm =
    let needed = add32 header_size (align4 size) in
    let pages = add32 needed (page_size - 1) / page_size in
    let base = mm.heap_next_virt in
    if size == 0
    then some (0, mm)
    else if ltb page_size needed
    then (grow_pages pages mm >>= λ (grown, mm').
        if grown
        then some
            (add32 base header_size, put_block base (with_used (pages * page_size % 2 ^ 32)) 0 mm')
        else some (0, mm'))
    else kmalloc_retry 2 needed mm

-- `if (block->next && !block_used(block->next))`: merge with the block behind, if it is adjacent.
unfoldable pub merge_next : ℕ → Mm → Mm
merge_next block mm =
    let b = mm.headers block in
    let n = mm.headers b.next in
    if not (b.next == 0) && not (block_used n) && (add32 block (block_size b) == b.next)
    then put_block block (without_used (add32 (block_size b) (block_size n))) n.next mm
    else mm

-- `if (prev && !block_used(prev))`: merge with the block before.
unfoldable pub merge_prev : ℕ → ℕ → Mm → Mm
merge_prev prev block mm =
    let p = mm.headers prev in
    let b = mm.headers block in
    if not (prev == 0) && not (block_used p) && (add32 prev (block_size p) == block)
    then put_block prev (without_used (add32 (block_size p) (block_size b))) b.next mm
    else mm

unfoldable pub kfree : ℕ → Mm → Option Mm
kfree ptr mm = if ptr == 0 then some mm else do
  let block = sub32 ptr header_size
  let freed = put_block block (without_used (mm.headers block).len) (mm.headers block).next mm
  (prev, cur) ← walk freed.headers (λ c. ltb c block) walk_fuel 0 freed.block_list
  let linked = link prev block (put_block block (freed.headers block).len cur freed)
  some (merge_prev prev block (merge_next block linked))
