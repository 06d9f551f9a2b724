-- ===== src/Memory/Heap/Free/Insert.antt =====
-- The first half of `kfree` of src/lib/memory.c: the block goes back to its place in the list.
use tbs_kernel.Base.{
  ℕ, ◌+◌, ◌%◌, ◌≤◌, ◌<◌, ◌≡◌, refl, ap, inl, inr, some, List, [], ◌∷◌, ◌++◌, arith, ltb, Bool-cases,
}
use tbs_kernel.Memory.Heap.Chain.{
  Cell, Headers, Avoids, Ordered, Chain, total, last_of, total-append, first_of_cells, Ordered-le,
  Chain-update_above, Chain-update_below, Chain-append, Ordered-append,
}
use tbs_kernel.Memory.Heap.Invariant.{IsHeap}
use tbs_kernel.Memory.Heap.{heap_start, put_block, link, walk, walk_fuel}
use tbs_kernel.Memory.Heap.Walk.{passed, ahead, passed-Chain, passed-append-ahead, walk_lem}
use tbs_kernel.Memory.Heap.Relink.{
  last_of-lt, link-Chain, link-Chain_above, headers-link, next-link, fields-link,
}
use tbs_kernel.Memory.State.{Block, Mm, update}

-- A range that avoids the list has room between the blocks before and behind it.
passed-Ordered :
    (a n lo : ℕ) (xs : List Cell) (hi : ℕ)
    → lo ≤ a
    → Avoids a n xs
    → Ordered lo xs hi
    → Ordered lo (passed (λ c. ltb c a) xs) a
passed-Ordered a n lo [] hi h v o = h
passed-Ordered a n lo ((b, l) ∷ xs) hi h v o = elim (Bool-cases (ltb b a)) [
  | inl before ↦
      let below : b + l ≤ a = ground arith in
      rw before (o.0, o.1, o.2, o.3, passed-Ordered a n (b + l) xs hi below v.1 o.4)
  | inr behind ↦ rw behind h
]

ahead-Ordered :
    (a n lo : ℕ) (xs : List Cell) (hi : ℕ)
    → a + n ≤ hi
    → Avoids a n xs
    → Ordered lo xs hi
    → Ordered (a + n) (ahead (λ c. ltb c a) xs) hi
ahead-Ordered a n lo [] hi h v o = h
ahead-Ordered a n lo ((b, l) ∷ xs) hi h v o = elim (Bool-cases (ltb b a)) [
  | inl before ↦ rw before (ahead-Ordered a n (b + l) xs hi h v.1 o.4)
  | inr behind ↦ let above : a + n ≤ b = ground arith in rw behind (above, o.1, o.2, o.3, o.4)
]

Chain-update_avoided :
    (h : Headers) (a n : ℕ) (c : Block) (p lo : ℕ) (xs : List Cell) (hi stop : ℕ)
    → 0 < n
    → Avoids a n xs
    → Ordered lo xs hi
    → Chain h p xs stop
    → Chain (update h a c) p xs stop
unfolding update
Chain-update_avoided h a n c p lo [] hi stop pos_n v o d = d
Chain-update_avoided h a n c p lo ((b, l) ∷ xs) hi stop pos_n v o d =
    ground (arith, Chain-update_avoided h a n c (h b).next (b + l) xs hi stop pos_n v.1 o.4 d.2)

-- A block that was handed out: used, inside the heap, apart from every free block.
pub record IsHeld (mm : Mm) (xs : List Cell) (a n : ℕ) : Type 0 where
  pub header : (mm.headers a).len ≡ n + 1
  pub avoids : Avoids a n xs
  pub least : 12 ≤ n
  pub size_word : n % 4 ≡ 0
  pub place_word : a % 4 ≡ 0
  pub low : heap_start ≤ a
  pub high : a + n ≤ mm.heap_next_virt

-- The header as `mark_free` leaves it.
abbrev pub marked : Mm → ℕ → ℕ → Mm
marked mm a n = put_block a n (mm.headers a).next mm

-- The blocks below the address and above it.
abbrev pub before : List Cell → ℕ → List Cell
before xs a = passed (λ c. ltb c a) xs

abbrev pub behind : List Cell → ℕ → List Cell
behind xs a = ahead (λ c. ltb c a) xs

abbrev pub linked : Mm → List Cell → ℕ → ℕ → Mm
linked mm xs a n =
    link (last_of 0 (before xs a)) a (put_block a n (first_of_cells (behind xs a)) (marked mm a n))

module _ (mm : Mm) (xs : List Cell) (a n : ℕ) (heap : IsHeap mm xs) (held : IsHeld mm xs a n) where
  marked-Chain : Chain (marked mm a n).headers mm.block_list xs 0
  marked-Chain =
      Chain-update_avoided mm.headers a n (record { len = n; next = (mm.headers a).next })
        mm.block_list heap_start xs mm.heap_next_virt 0 (omega (arith, held.least)) held.avoids
        heap.ordered heap.chain

  pub walk-place :
      walk (marked mm a n).headers (λ c. ltb c a) walk_fuel 0 mm.block_list
      ≡ some (last_of 0 (before xs a), first_of_cells (behind xs a))
  walk-place =
      walk_lem (λ c. ltb c a) (marked mm a n).headers walk_fuel 0 mm.block_list heap_start xs
        mm.heap_next_virt (omega arith)
        (omega (arith, Ordered-le heap_start xs mm.heap_next_virt heap.ordered, heap.bound))
        heap.ordered marked-Chain

  -- The block stands in the list, between those before and behind it.
  pub linked-IsHeap : IsHeap (linked mm xs a n) ((before xs a) ++ (a, n) ∷ (behind xs a))
  unfolding update
  linked-IsHeap =
      let hi : ℕ = mm.heap_next_virt in
      let of : Ordered heap_start (before xs a) a =
        passed-Ordered a n heap_start xs hi held.low held.avoids heap.ordered in
      let ob : Ordered (a + n) (behind xs a) hi =
        ahead-Ordered a n heap_start xs hi held.high held.avoids heap.ordered in
      let (cf, cb) =
        passed-Chain (λ c. ltb c a) (marked mm a n).headers mm.block_list xs marked-Chain in
      let cur : ℕ = first_of_cells (behind xs a) in
      let prev : ℕ = last_of 0 (before xs a) in
      let prev-lt : prev < a = last_of-lt heap_start (before xs a) a (omega arith) of in
      let b : Block = record { len = n; next = cur } in
      let mm1 : Mm = put_block a n cur (marked mm a n) in
      let cf1 : Chain mm1.headers mm1.block_list (before xs a) cur =
        Chain-update_above (marked mm a n).headers a b mm.block_list heap_start (before xs a) a cur
          (omega arith) of cf in
      let cb1 : Chain mm1.headers cur (behind xs a) 0 =
        Chain-update_below (marked mm a n).headers a b cur (a + n) (behind xs a) hi 0
          (omega (arith, held.least)) ob cb in
      let mm2 : Mm = link prev a mm1 in
      let cf2 : Chain mm2.headers mm2.block_list (before xs a) a =
        link-Chain mm1 a heap_start (before xs a) a cur (omega arith) of cf1 in
      let cb2 : Chain mm2.headers cur (behind xs a) 0 =
        link-Chain_above mm1 a prev cur (a + n) (behind xs a) hi 0 (omega (arith, held.least)) ob
          cb1 in
      let a-len : (mm2.headers a).len ≡ n = ground (arith, headers-link mm1 a prev a) in
      let a-next : (mm2.headers a).next ≡ cur = ground (arith, next-link mm1 a prev a) in
      let end_of : mm2.heap_next_virt ≡ hi = (fields-link mm1 a prev).0 in
      record {
        chain =
            Chain-append mm2.headers mm2.block_list (before xs a) ((a, n) ∷ (behind xs a)) a 0 cf2
              (refl, a-len, rw a-next cb2);
        ordered = rw end_of (
            Ordered-append heap_start (before xs a) ((a, n) ∷ (behind xs a)) a hi of
              (omega arith, held.least, held.size_word, held.place_word, ob));
        bound = rw end_of heap.bound;
        aligned = rw end_of heap.aligned;
        mapped = rw (fields-link mm1 a prev).2 heap.mapped;
      }

  pub total-inserted : total ((before xs a) ++ (a, n) ∷ (behind xs a)) ≡ total xs + n
  total-inserted = omega (
    arith,
    total-append (before xs a) ((a, n) ∷ (behind xs a)),
    total-append (before xs a) (behind xs a),
    ap total (passed-append-ahead (λ c. ltb c a) xs),
  )
