-- ===== src/Memory/Heap/Grow.antt =====
-- `heap_grow` of src/lib/memory.c adds one page behind the heap, or changes no block.
use tbs_kernel.Memory.Pmm.{Pmm, pmm_alloc_page, page_size}
use tbs_kernel.Memory.State.{Block, Mm, update}
use tbs_kernel.Memory.Vmm.{
  vmm_map_page, is_present, pde_index, write_entry, frame, pte_index, make_entry,
}
use tbs_kernel.Base.{
  ℕ, ◌+◌, ◌≤◌, ◌<◌, ◌≡◌, refl, ◌⊎◌, inl, inr, true, false, some, List, [], ◌∷◌, ◌++◌, arith, dec_lt,
  ltb, ◌==◌, Bool-cases,
}
use tbs_kernel.Memory.Heap.Chain.{
  Cell, Ordered, Ordered-le, last_of, Chain, Chain-update_above, Chain-append, Ordered-append,
}
use tbs_kernel.Memory.Heap.Invariant.{IsHeap, IsHeap-pages}
use tbs_kernel.Memory.Heap.Walk.{passed, ahead, walk_lem}
use tbs_kernel.Memory.Heap.{
  heap_end, add_block, heap_start, walk_fuel, put_block, link, walk, heap_grow,
}
use tbs_kernel.Memory.Heap.Relink.{last_of-lt, link-Chain, headers-link, next-link, fields-link}
use tbs_kernel.Base.Words.{add32}

-- Every block in order below `addr` is passed.
passed-all :
    (addr lo : ℕ) (xs : List Cell) (hi : ℕ)
    → hi ≤ addr
    → Ordered lo xs hi
    → (passed (λ c. ltb c addr) xs ≡ xs) × (ahead (λ c. ltb c addr) xs ≡ [])
passed-all addr lo [] hi h o = (refl, refl)
passed-all addr lo ((a, l) ∷ xs) hi h o =
    ground (arith, passed-all addr (a + l) xs hi h o.4, Ordered-le (a + l) xs hi o.4)

-- Where the page table is there, mapping a page writes one entry of it.
pub vmm_map_page-present :
    (virt phys flags : ℕ) (mm : Mm)
    → is_present (mm.page_directory (pde_index virt)) ≡ true
    → (tables : ℕ → ℕ → ℕ) × (vmm_map_page virt phys flags mm
        ≡ some (record mm { page_tables = tables }))
unfolding vmm_map_page
vmm_map_page-present virt phys flags mm e = (
  write_entry mm.page_tables (frame (mm.page_directory (pde_index virt))) (pte_index virt)
      (make_entry phys flags),
  rw e,
)

-- The state after the page at the end of the heap was added.
pub record Grown (mm mm' : Mm) (xs : List Cell) : Type 0 where
  pub heap : IsHeap mm' (xs ++ (mm.heap_next_virt, page_size) ∷ [])

appended : Mm → List Cell → Mm
appended mm xs = link (last_of 0 xs) mm.heap_next_virt (put_block mm.heap_next_virt 4096 0 mm)

module _ (mm : Mm) (xs : List Cell) (heap : IsHeap mm xs)
    (room : mm.heap_next_virt + 4096 ≤ heap_end) where
  -- The walk goes to the end of the list.
  walk-end :
      walk mm.headers (λ c. ltb c mm.heap_next_virt) walk_fuel 0 mm.block_list
      ≡ some (last_of 0 xs, 0)
  walk-end =
      let hi : ℕ = mm.heap_next_virt in
      let (all_passed, none_ahead) = passed-all hi heap_start xs hi (omega arith) heap.ordered in
      rw (all_passed, none_ahead) at
        (walk_lem (λ c. ltb c hi) mm.headers walk_fuel 0 mm.block_list heap_start xs hi
          (omega arith) (omega (arith, Ordered-le heap_start xs hi heap.ordered, room)) heap.ordered
          heap.chain)

  add_block-appended : add_block mm.heap_next_virt page_size mm ≡ some (appended mm xs)
  unfolding add_block appended
  add_block-appended = rw walk-end

  appended-Grown :
      ((appended mm xs).heap_next_virt ≡ mm.heap_next_virt)
      × Grown mm (record (appended mm xs) { heap_next_virt = mm.heap_next_virt + page_size }) xs
  unfolding appended update
  appended-Grown =
      let hi : ℕ = mm.heap_next_virt in
      let prev : ℕ = last_of 0 xs in
      let b : Block = record { len = 4096; next = 0 } in
      let mm1 : Mm = put_block hi 4096 0 mm in
      let c1 : Chain mm1.headers mm1.block_list xs 0 =
        Chain-update_above mm.headers hi b mm.block_list heap_start xs hi 0 (omega arith)
          heap.ordered heap.chain in
      let mm2 : Mm = link prev hi mm1 in
      let prev-lt : prev < hi = last_of-lt heap_start xs hi (omega arith) heap.ordered in
      let c2 : Chain mm2.headers mm2.block_list xs hi =
        link-Chain mm1 hi heap_start xs hi 0 (omega arith) heap.ordered c1 in
      let new-len : (mm2.headers hi).len ≡ 4096 = ground (arith, headers-link mm1 hi prev hi) in
      let new-next : (mm2.headers hi).next ≡ 0 = ground (arith, next-link mm1 hi prev hi) in
      (
        (fields-link mm1 hi prev).0,
        record {
          heap = record {
            chain =
                Chain-append mm2.headers mm2.block_list xs ((hi, 4096) ∷ []) hi 0 c2
                  (refl, new-len, new-next);
            ordered =
                Ordered-append heap_start xs ((hi, 4096) ∷ []) hi (hi + 4096) heap.ordered
                  (omega arith, omega arith, omega arith, omega (arith, heap.aligned), omega arith);
            bound = room;
            aligned = omega (arith, heap.aligned);
            mapped = rw (fields-link mm1 hi prev).2 heap.mapped;
          };
        },
      )

-- The heap's addresses end, or the page allocator has no page to give.
abbrev pub IsGrowthRefused : Mm → Type 0
IsGrowthRefused mm = (heap_end < mm.heap_next_virt + page_size) ⊎ ((pmm_alloc_page mm.pmm).1 ≡ 0)

-- On a well-formed heap `heap_grow` returns. It reports failure only where the addresses end or no
-- page is free, with the free list as it was; if it reports success there is one more block, the
-- page at the end of the heap.
pub heap_grow-page :
    (mm : Mm) (xs : List Cell)
    → IsHeap mm xs
    → (mm' : Mm) × ((heap_grow mm ≡ some (false, mm')) × IsHeap mm' xs × IsGrowthRefused mm
        ⊎ (heap_grow mm ≡ some (true, mm'))
          × (mm.heap_next_virt + 4096 ≤ heap_end)
          × Grown mm mm' xs)
unfolding heap_grow
heap_grow-page mm xs heap = elim (dec_lt heap_end (mm.heap_next_virt + 4096)) [
  | yes full ↦
      let e : ltb heap_end (add32 mm.heap_next_virt page_size) ≡ true =
        ground (arith, heap.bound) in
      (mm, inl (rw e refl, heap, inl full))
  | no room ↦
      let e : ltb heap_end (add32 mm.heap_next_virt page_size) ≡ false =
        ground (arith, heap.bound) in
      let pmm' : Pmm = (pmm_alloc_page mm.pmm).0 in
      let phys : ℕ = (pmm_alloc_page mm.pmm).1 in
      elim (Bool-cases (phys == 0)) [
        | inl zero_phys ↦ (
          record mm { pmm = pmm' },
          inl (
            rw (e, zero_phys) refl,
            IsHeap-pages mm xs pmm' mm.page_tables heap,
            inr (ground (arith, zero_phys)),
          ),
        )
        | inr got ↦
            let at_pmm : Mm = record mm { pmm = pmm' } in
            let (tables, map_eq) = vmm_map_page-present mm.heap_next_virt phys 3 at_pmm (
              heap.mapped mm.heap_next_virt
                (omega (arith, Ordered-le heap_start xs mm.heap_next_virt heap.ordered))
                (omega arith)) in
            let mm1 : Mm = record mm { pmm = pmm'; page_tables = tables } in
            let heap1 : IsHeap mm1 xs = IsHeap-pages mm xs pmm' tables heap in
            let room1 : mm1.heap_next_virt + 4096 ≤ heap_end = omega arith in
            let (same, grown) = appended-Grown mm1 xs heap1 room1 in
            let sum : add32 (appended mm1 xs).heap_next_virt page_size
                ≡ mm.heap_next_virt + page_size =
              rw same (omega (arith, heap.bound)) in
            (
              record (appended mm1 xs) { heap_next_virt = mm.heap_next_virt + page_size },
              inr (
                rw (e, got, map_eq, add_block-appended mm1 xs heap1 room1, sum),
                omega arith,
                record { heap = grown.heap },
              ),
            )
      ]
]
