-- ===== src/Memory/Heap/Malloc.antt =====
-- `kmalloc` of src/lib/memory.c for a block of at most one page: what it returns, and that it
-- returns.
pub mod Take
use mathlib.Core.Path.{subst}
use tbs_kernel.Memory.State.{Block, Mm, update}
use tbs_kernel.Base.{
  ℕ, zero, suc, ◌+◌, ◌-◌, ◌*◌, ◌/◌, ◌%◌, ◌^◌, ◌≤◌, ◌<◌, ◌≡◌, refl, sym, ap, ◌∙◌, ◌≢◌, ◌↔◌, ◌⊎◌, inl,
  inr, Bool, true, false, not, ◌&&◌, ◌||◌, Option, none, some, List, [], ◌∷◌, ◌++◌, append-nil,
  append_assoc, arith, dec_lt, ℕ_discrete, ltb, leb, ◌==◌, if◌then◌else◌, ltb→lt, lt→ltb, ==_iff,
  Bool-cases, Option-cases, length, get_elem?, get_or, set, take, drop, replicate, length-append,
  length-set, get_or-set_self, get_or-set_ne, ◌>>=◌, All, All-append, ap₂, In, In-append_left,
  In-append_right,
}
use tbs_kernel.Memory.Heap.Chain.{Cell, last_of, first_of_cells, Ordered-le}
use tbs_kernel.Memory.Heap.{
  fits, take_block, kmalloc_retry, find_prev_for_size, header_size, walk_fuel, heap_start, kmalloc,
  align4,
}
use tbs_kernel.Memory.Heap.Walk.{ahead, passed, passed-append-ahead, walk_lem}
use tbs_kernel.Memory.Heap.Invariant.{Taken, IsHeap}
use tbs_kernel.Memory.Heap.Malloc.Take.{Around, around, granted, remainder, take_block-Taken}
use tbs_kernel.Memory.Heap.Grow.{Grown, heap_grow-page, IsGrowthRefused}
use tbs_kernel.Memory.Pmm.{page_size}
use tbs_kernel.Base.Words.{add32}

module _ (go_on : ℕ → Bool) where
  -- The block at which a walk stops fails its test.
  ahead-stops :
      (xs : List Cell) (a l : ℕ) (back : List Cell)
      → ahead go_on xs ≡ (a, l) ∷ back
      → go_on a ≡ false
  ahead-stops [] a l back e = cc
  ahead-stops ((b, m) ∷ xs) a l back e = elim (Bool-cases (go_on b)) [
    | inl yes_b ↦ ahead-stops xs a l back (rw yes_b at e)
    | inr no_b ↦ ground arith
  ]

  ahead-ne-nil :
      (xs : List Cell) (a l : ℕ)
      → go_on a ≡ false
      → (b m : ℕ) × (back : List Cell) × (ahead go_on (xs ++ (a, l) ∷ []) ≡ (b, m) ∷ back)
  ahead-ne-nil [] a l e = (a, l, [], rw e)
  ahead-ne-nil ((b, m) ∷ xs) a l e = elim (Bool-cases (go_on b)) [
    | inl yes_b ↦ rw yes_b (ahead-ne-nil xs a l e)
    | inr no_b ↦ (b, m, xs ++ (a, l) ∷ [], rw no_b)
  ]

List-cases : (xs : List Cell) → (xs ≡ []) ⊎ ((a l : ℕ) × (ys : List Cell) × (xs ≡ (a, l) ∷ ys))
List-cases [] = inl refl
List-cases ((a, l) ∷ ys) = inr (a, l, ys, refl)

-- No block of the list has as many bytes.
abbrev pub AllSmaller : ℕ → List Cell → Type 0
AllSmaller needed = All (λ (c : Cell). c.1 < needed)

-- The first block of the list that is large enough was granted: its user address is `a + 8`, its
-- size `n` is at least `needed` and wastes fewer than 12 bytes.
pub record Granted (needed ptr : ℕ) (mm' : Mm) (xs : List Cell) : Type 0 where
  pub address : ℕ
  pub size : ℕ
  pub left : List Cell
  pub front : List Cell
  pub back : List Cell
  pub block : ℕ
  pub place : front ++ (address, block) ∷ back ≡ xs
  pub first : AllSmaller needed front
  pub returned : ptr ≡ address + 8
  pub taken : Taken mm' xs left address size
  pub enough : needed ≤ size
  pub tight : size < needed + 12

module _ (needed : ℕ) (word : needed % 4 ≡ 0) (least : 12 ≤ needed) where
  skips : Mm → ℕ → Bool
  skips mm c = not (fits mm.headers needed c)

  -- The blocks that a walk passes are too small.
  passed-AllSmaller :
      (mm : Mm) (front xs : List Cell)
      → IsHeap mm (front ++ xs)
      → AllSmaller needed (passed (skips mm) xs)
  unfolding skips fits
  passed-AllSmaller mm front [] heap = _
  passed-AllSmaller mm front ((a, l) ∷ xs) heap =
      let s : Around mm front xs a l heap = around mm front xs a l heap in
      let rest : AllSmaller needed (passed (skips mm) xs) =
        passed-AllSmaller mm (front ++ (a, l) ∷ []) xs
          (rw (append_assoc front ((a, l) ∷ []) xs) heap) in
      elim (Bool-cases (skips mm a)) [
        | inl h ↦ rw h (ground (arith, h, s.size, s.size_word), rest)
        | inr h ↦ rw h _
      ]

  none_ahead-AllSmaller :
      (mm : Mm) (xs : List Cell) → IsHeap mm xs → ahead (skips mm) xs ≡ [] → AllSmaller needed xs
  none_ahead-AllSmaller mm xs heap e =
      let whole : passed (skips mm) xs ++ [] ≡ xs = rw e at (passed-append-ahead (skips mm) xs) in
      subst (AllSmaller needed) (sym (append-nil (passed (skips mm) xs)) ∙ whole)
        (passed-AllSmaller mm [] xs heap)

  -- Where a walk finds a block.
  found-Granted :
      (mm : Mm) (xs : List Cell) (a l : ℕ) (back : List Cell)
      → IsHeap mm xs
      → ahead (skips mm) xs ≡ (a, l) ∷ back
      → Granted needed (a + 8) (take_block needed (last_of 0 (passed (skips mm) xs)) a mm) xs
  unfolding skips fits
  found-Granted mm xs a l back heap e =
      let front : List Cell = passed (skips mm) xs in
      let whole : front ++ (a, l) ∷ back ≡ xs = rw e at (passed-append-ahead (skips mm) xs) in
      let heap' : IsHeap mm (front ++ (a, l) ∷ back) = rw whole heap in
      let s : Around mm front back a l heap' = around mm front back a l heap' in
      let stops : skips mm a ≡ false = ahead-stops (skips mm) xs a l back e in
      let enough : needed ≤ l = ground (arith, s.size, s.size_word) in
      record {
        address = a;
        size = granted needed l;
        left = front ++ remainder needed a l back;
        front = front;
        back = back;
        block = l;
        place = whole;
        first = passed-AllSmaller mm [] xs heap;
        returned = refl;
        taken = rw whole at (take_block-Taken mm front back a l heap' needed word least enough);
        enough = ground arith;
        tight = ground arith;
      }

  find_prev_for_size_lem :
      (mm : Mm) (xs : List Cell)
      → IsHeap mm xs
      → find_prev_for_size needed mm
        ≡ some (last_of 0 (passed (skips mm) xs), first_of_cells (ahead (skips mm) xs))
  unfolding find_prev_for_size skips
  find_prev_for_size_lem mm xs heap =
      walk_lem (λ c. not (fits mm.headers needed c)) mm.headers walk_fuel 0 mm.block_list heap_start
        xs mm.heap_next_virt (omega arith)
        (omega (arith, Ordered-le heap_start xs mm.heap_next_virt heap.ordered, heap.bound))
        heap.ordered heap.chain

  -- One attempt that finds a block.
  attempt_found :
      (n : ℕ) (mm : Mm) (xs : List Cell) (a l : ℕ) (back : List Cell)
      → IsHeap mm xs
      → ahead (skips mm) xs ≡ (a, l) ∷ back
      → (ptr : ℕ) × (mm' : Mm) × (kmalloc_retry (suc n) needed mm ≡ some (ptr, mm'))
        × Granted needed ptr mm' xs
  unfolding kmalloc_retry
  attempt_found n mm xs a l back heap e =
      let front : List Cell = passed (skips mm) xs in
      let g : Granted needed (a + 8) (take_block needed (last_of 0 front) a mm) xs =
        found-Granted mm xs a l back heap e in
      let whole : front ++ (a, l) ∷ back ≡ xs = rw e at (passed-append-ahead (skips mm) xs) in
      let heap' : IsHeap mm (front ++ (a, l) ∷ back) = rw whole heap in
      let s : Around mm front back a l heap' = around mm front back a l heap' in
      let live : (a == 0) ≡ false = ground (arith, s.low) in
      let address_is : add32 a header_size ≡ a + 8 = omega (arith, s.high, heap.bound) in
      (
        a + 8,
        take_block needed (last_of 0 front) a mm,
        rw (find_prev_for_size_lem mm xs heap, e, live, address_is),
        g,
      )

  -- One attempt that finds none, and what the growth of the heap leaves to the next.
  attempt_none :
      (n : ℕ) (mm : Mm) (xs : List Cell)
      → IsHeap mm xs
      → ahead (skips mm) xs ≡ []
      → (mm' : Mm) × ((kmalloc_retry (suc n) needed mm ≡ some (0, mm'))
            × IsHeap mm' xs
            × IsGrowthRefused mm
          ⊎ (kmalloc_retry (suc n) needed mm ≡ kmalloc_retry n needed mm') × Grown mm mm' xs)
  unfolding kmalloc_retry
  attempt_none n mm xs heap e =
      let (mm', r) = heap_grow-page mm xs heap in
      elim r [
        | inl (fails, kept, refused) ↦
            (mm', inl (rw (find_prev_for_size_lem mm xs heap, e, fails), kept, refused))
        | inr (grows, _, grown) ↦
            (mm', inr (rw (find_prev_for_size_lem mm xs heap, e, grows), grown))
      ]

  -- A page at the end of the list fits every request of at most a page.
  page-fits :
      (mm mm' : Mm) (xs : List Cell)
      → needed ≤ page_size
      → Grown mm mm' xs
      → skips mm' mm.heap_next_virt ≡ false
  unfolding skips fits
  page-fits mm mm' xs small grown =
      let s : Around mm' xs [] mm.heap_next_virt 4096 grown.heap =
        around mm' xs [] mm.heap_next_virt 4096 grown.heap in
      ground (arith, s.size)

  two_attempts :
      (mm : Mm) (xs : List Cell)
      → IsHeap mm xs
      → needed ≤ page_size
      → (ptr : ℕ) × (mm' : Mm) × (kmalloc_retry 2 needed mm ≡ some (ptr, mm'))
        × ((ptr ≡ 0) × IsHeap mm' xs × AllSmaller needed xs × IsGrowthRefused mm
            ⊎ Granted needed ptr mm' xs
            ⊎ AllSmaller needed xs
              × Granted needed ptr mm' (xs ++ (mm.heap_next_virt, page_size) ∷ []))
  two_attempts mm xs heap small = elim (List-cases (ahead (skips mm) xs)) [
    | inl nothing ↦
        let (mm1, r) = attempt_none 1 mm xs heap nothing in
        elim r [
          | inl (fails, kept, refused) ↦
              (0, mm1, fails, inl (refl, kept, none_ahead-AllSmaller mm xs heap nothing, refused))
          | inr (goes_on, grown) ↦
              let (b, m, back, found) =
                ahead-ne-nil (skips mm1) xs mm.heap_next_virt page_size
                  (page-fits mm mm1 xs small grown) in
              let (ptr, mm2, run, g) =
                attempt_found 0 mm1 (xs ++ (mm.heap_next_virt, page_size) ∷ []) b m back grown.heap
                  found in
              (ptr, mm2, goes_on ∙ run, inr (inr (none_ahead-AllSmaller mm xs heap nothing, g)))
        ]
    | inr (a, l, back, found) ↦
        let (ptr, mm1, run, g) = attempt_found 1 mm xs a l back heap found in
        (ptr, mm1, run, inr (inl g))
  ]

-- `kmalloc` of 1 to 4088 bytes on a well-formed heap returns. Either no block of the free list is
-- large enough and the heap cannot grow, since its addresses end or no page is free: the result is
-- 0 and the free list is as before. Or the result is the address behind the header of the first
-- block that is large enough, of the free list or, if it has none, of that list and one new page:
-- what is granted holds the request, wastes fewer than 12 bytes, meets no block that is still free,
-- and the rest of the list is well formed.
pub kmalloc-grants :
    (size : ℕ) (mm : Mm) (xs : List Cell)
    → 0 < size
    → size ≤ 4088
    → IsHeap mm xs
    → let needed = 8 + (size + 3) / 4 * 4 in
      (ptr : ℕ) × (mm' : Mm) × (kmalloc size mm ≡ some (ptr, mm'))
      × ((ptr ≡ 0) × IsHeap mm' xs × AllSmaller needed xs × IsGrowthRefused mm
          ⊎ Granted needed ptr mm' xs
          ⊎ AllSmaller needed xs
            × Granted needed ptr mm' (xs ++ (mm.heap_next_virt, page_size) ∷ []))
unfolding kmalloc
kmalloc-grants size mm xs pos_size small heap =
    let needed : ℕ = 8 + (size + 3) / 4 * 4 in
    let needed_is : add32 header_size (align4 size) ≡ needed = omega arith in
    let some_size : (size == 0) ≡ false = ground arith in
    let one_page : ltb page_size needed ≡ false = ground arith in
    rw (needed_is, some_size, one_page)
      (two_attempts needed (omega arith) (omega arith) mm xs heap (omega arith))
