-- ===== src/Memory/Heap/Free.antt =====
-- `kfree` of src/lib/memory.c gives a held block back to the free list.
pub mod Insert
pub mod Merge
use tbs_kernel.Memory.State.{Block, Mm, update}
use tbs_kernel.Base.{
  ℕ, zero, suc, ◌+◌, ◌-◌, ◌*◌, ◌/◌, ◌%◌, ◌^◌, ◌≤◌, ◌<◌, ◌≡◌, refl, sym, ap, ◌∙◌, ◌≢◌, ◌↔◌, ◌⊎◌, inl,
  inr, Bool, true, false, not, ◌&&◌, ◌||◌, Option, none, some, List, [], ◌∷◌, ◌++◌, append-nil,
  append_assoc, arith, dec_lt, ℕ_discrete, ltb, leb, ◌==◌, if◌then◌else◌, ltb→lt, lt→ltb, ==_iff,
  Bool-cases, Option-cases, length, get_elem?, get_or, set, take, drop, replicate, length-append,
  length-set, get_or-set_self, get_or-set_ne, ◌>>=◌, All, All-append, ap₂, In, In-append_left,
  In-append_right,
}
use tbs_kernel.Memory.Heap.Chain.{
  Cell, last_of, total, total-append, is_free, is_free-append, in_block,
}
use tbs_kernel.Memory.Heap.Invariant.{IsHeap}
use tbs_kernel.Memory.Heap.Free.Insert.{
  IsHeld, linked, before, behind, marked, linked-IsHeap, walk-place,
}
use tbs_kernel.Memory.Heap.Free.Merge.{
  IsApart, Merged, merge_next-Merged, merge_prev-merge_next, IsApart-tail, IsApart-replace,
}
use tbs_kernel.Memory.Heap.{
  kfree, merge_prev, merge_next, header_size, without_used, block_used, kmalloc,
}
use tbs_kernel.Memory.Heap.Malloc.Take.{Around, around}
use tbs_kernel.Memory.Heap.Walk.{passed-append-ahead}
use tbs_kernel.Memory.Heap.Malloc.{Granted, kmalloc-grants}
use tbs_kernel.Memory.Pmm.{page_size}
use tbs_kernel.Base.Words.{add32, sub32}

-- The free list after a block of `n` bytes at `a` came back: no byte is lost, and a list without
-- touching neighbours has none afterwards.
pub record Freed (mm' : Mm) (xs : List Cell) (a n : ℕ) : Type 0 where
  pub cells : List Cell
  pub heap : IsHeap mm' cells
  pub accounts : total cells ≡ total xs + n
  pub covers : (x : ℕ) → is_free cells x ≡ (in_block a n x || is_free xs x)
  pub apart : IsApart xs → IsApart cells

snoc-cases :
    (d : ℕ) (xs : List Cell)
    → (xs ≡ []) ⊎ ((f : List Cell) × (p k : ℕ) × (xs ≡ f ++ (p, k) ∷ []) × (last_of d xs ≡ p))
snoc-cases d [] = inl refl
snoc-cases d ((a, l) ∷ xs) = elim (snoc-cases a xs) [
  | inl e ↦ inr ([], a, l, rw e, rw e)
  | inr (f, p, k, e, q) ↦ inr ((a, l) ∷ f, p, k, rw e, q)
]

-- With no block before it.
first-Freed :
    (mm2 : Mm) (a n : ℕ) (back : List Cell)
    → Merged mm2 [] a n back
    → Freed (merge_prev 0 a mm2) back a n
unfolding merge_prev
first-Freed mm2 a n back m = record {
  cells = (a, m.size) ∷ m.rest;
  heap = m.heap;
  accounts = omega (arith, m.accounts);
  covers = m.covers;
  apart = λ far. m.apart far;
}

block_first : (f p a b : Bool) → (f || (p || (a || b))) ≡ (a || (f || (p || b)))
block_first f p a b = ground arith

-- The block before takes in the freed one, if it touches it.
later-Freed :
    (mm2 : Mm) (f : List Cell) (p k a n : ℕ) (back : List Cell)
    → Merged mm2 (f ++ (p, k) ∷ []) a n back
    → Freed (merge_prev p a mm2) (f ++ (p, k) ∷ back) a n
later-Freed mm2 f p k a n back m =
    let next_cells : List Cell = (a, m.size) ∷ m.rest in
    let heap2 : IsHeap mm2 (f ++ (p, k) ∷ next_cells) =
      rw (append_assoc f ((p, k) ∷ []) next_cells) at m.heap in
    let s : Around mm2 f next_cells p k heap2 = around mm2 f next_cells p k heap2 in
    let unused_a : block_used (mm2.headers a) ≡ false = ground (arith, s.from_block, s.behind) in
    let unused_p : block_used (mm2.headers p) ≡ false = ground (arith, s.size, s.size_word) in
    let r : Merged (merge_next p mm2) f p k next_cells =
      merge_next-Merged mm2 f p k next_cells heap2 in
    rw
      (merge_prev-merge_next mm2 p a (omega (arith, s.low)) (omega (arith, s.behind, s.least))
        (s.next_is ∙ s.from_block.0) unused_a unused_p)
      (record {
        cells = f ++ (p, r.size) ∷ r.rest;
        heap = r.heap;
        accounts = omega (
          arith,
          r.accounts,
          m.accounts,
          total-append f ((p, r.size) ∷ r.rest),
          total-append f ((p, k) ∷ back),
        );
        covers = λ x.
            is_free-append f ((p, r.size) ∷ r.rest) x
            ∙ ap (λ b. is_free f x || b) (r.covers x ∙ ap (λ b. in_block p k x || b) (m.covers x))
            ∙ block_first (is_free f x) (in_block p k x) (in_block a n x) (is_free back x)
            ∙ ap (λ b. in_block a n x || b) (sym (is_free-append f ((p, k) ∷ back) x));
        apart = λ far.
            let tail : IsApart ((p, k) ∷ back) = IsApart-tail f ((p, k) ∷ back) far in
            let after_p = r.apart (m.apart tail.1) in
            IsApart-replace f p k r.size back r.rest far after_p.0 after_p.1;
      })

Merged-Freed :
    (mm2 : Mm) (front : List Cell) (a n : ℕ) (back : List Cell)
    → Merged mm2 front a n back
    → Freed (merge_prev (last_of 0 front) a mm2) (front ++ back) a n
Merged-Freed mm2 front a n back m = elim (snoc-cases 0 front) [
  | inl e ↦ rw e (first-Freed mm2 a n back (rw e at m))
  | inr (f, p, k, e, q) ↦
      rw (q, e, append_assoc f ((p, k) ∷ []) back) (later-Freed mm2 f p k a n back (rw e at m))
]

kfree-steps :
    (mm : Mm) (xs : List Cell) (a n : ℕ)
    → IsHeap mm xs
    → IsHeld mm xs a n
    → kfree (a + 8) mm
      ≡ some (merge_prev (last_of 0 (before xs a)) a (merge_next a (linked mm xs a n)))
unfolding kfree update
kfree-steps mm xs a n heap held =
    let block_is : sub32 (a + 8) header_size ≡ a = omega (arith, held.high, heap.bound) in
    let live : (a + 8 == 0) ≡ false = ground arith in
    let mark : without_used (mm.headers a).len ≡ n = omega (arith, held.header, held.size_word) in
    let kept : ((marked mm a n).headers a).len ≡ n = ground arith in
    rw (live, block_is, mark, walk-place mm xs a n heap held) (ground (arith, kept))

kfree-Freed :
    (mm : Mm) (xs : List Cell) (a n : ℕ)
    → IsHeap mm xs
    → IsHeld mm xs a n
    → (mm' : Mm) × (kfree (a + 8) mm ≡ some mm') × Freed mm' xs a n
kfree-Freed mm xs a n heap held =
    let mm1 : Mm = linked mm xs a n in
    let m : Merged (merge_next a mm1) (before xs a) a n (behind xs a) =
      merge_next-Merged mm1 (before xs a) a n (behind xs a) (linked-IsHeap mm xs a n heap held) in
    (
      merge_prev (last_of 0 (before xs a)) a (merge_next a mm1),
      kfree-steps mm xs a n heap held,
      rw (passed-append-ahead (λ c. ltb c a) xs) at
          (Merged-Freed (merge_next a mm1) (before xs a) a n (behind xs a) m),
    )

-- `kfree` of a block that was handed out returns, on every well-formed heap, and the free list is
-- well formed again and has exactly the block's bytes more.
pub kfree-returns :
    (mm : Mm) (xs : List Cell) (a n : ℕ)
    → IsHeap mm xs
    → IsHeld mm xs a n
    → (mm' : Mm) × (ys : List Cell) × (kfree (a + 8) mm ≡ some mm')
      × IsHeap mm' ys
      × (total ys ≡ total xs + n)
kfree-returns mm xs a n heap held =
    let (mm', run, freed) = kfree-Freed mm xs a n heap held in
    (mm', freed.cells, run, freed.heap, freed.accounts)

-- On a well-formed heap in which no two free blocks touch, `kfree` of a block that was handed out
-- returns and leaves a well-formed heap in which again no two blocks touch. The free addresses are
-- those from before and those of the block, and the sizes of the free blocks add up to the block's
-- bytes more.
pub kfree-coalesces :
    (mm : Mm) (xs : List Cell) (a n : ℕ)
    → IsHeap mm xs
    → IsHeld mm xs a n
    → IsApart xs
    → (mm' : Mm) × (ys : List Cell) × (kfree (a + 8) mm ≡ some mm')
      × IsHeap mm' ys
      × IsApart ys
      × ((x : ℕ) → is_free ys x ≡ (in_block a n x || is_free xs x))
      × (total ys ≡ total xs + n)
kfree-coalesces mm xs a n heap held far =
    let (mm', run, freed) = kfree-Freed mm xs a n heap held in
    (mm', freed.cells, run, freed.heap, freed.apart far, freed.covers, freed.accounts)

Granted-IsHeld :
    (needed ptr : ℕ) (mm : Mm) (xs : List Cell)
    → 12 ≤ needed
    → (g : Granted needed ptr mm xs) → IsHeld mm g.left g.address g.size
Granted-IsHeld needed ptr mm xs least g = record {
  header = g.taken.header;
  avoids = g.taken.avoids;
  least = omega (arith, g.enough);
  size_word = g.taken.size_word;
  place_word = g.taken.place;
  low = g.taken.low;
  high = g.taken.high;
}

Granted-freed :
    (needed ptr : ℕ) (mm : Mm) (xs : List Cell)
    → 12 ≤ needed
    → Granted needed ptr mm xs
    → (mm' : Mm) × (ys : List Cell) × (kfree ptr mm ≡ some mm')
      × IsHeap mm' ys
      × (total ys ≡ total xs)
Granted-freed needed ptr mm xs least g =
    let (mm', ys, run, heap, same) =
      kfree-returns mm g.left g.address g.size g.taken.heap
        (Granted-IsHeld needed ptr mm xs least g) in
    (mm', ys, rw (g.returned) run, heap, omega (arith, g.taken.accounts))

-- Whatever `kmalloc` of 1 to 4088 bytes returns on a well-formed heap, `kfree` of it returns and
-- leaves a well-formed heap with the free bytes from before, or those and one new page.
pub kfree-kmalloc :
    (size : ℕ) (mm : Mm) (xs : List Cell)
    → 0 < size
    → size ≤ 4088
    → IsHeap mm xs
    → (ptr : ℕ) × (mm1 mm2 : Mm) × (ys : List Cell) × (kmalloc size mm ≡ some (ptr, mm1))
      × (kfree ptr mm1 ≡ some mm2)
      × IsHeap mm2 ys
      × ((total ys ≡ total xs) ⊎ (total ys ≡ total xs + page_size))
unfolding kfree
kfree-kmalloc size mm xs pos_size small heap =
    let needed : ℕ = 8 + (size + 3) / 4 * 4 in
    let (ptr, mm1, run, r) = kmalloc-grants size mm xs pos_size small heap in
    elim r [
      | inl (nothing, kept, small_blocks, refused) ↦
          (ptr, mm1, mm1, xs, run, rw nothing, kept, inl refl)
      | inr (inl g) ↦
          let (mm2, ys, freed, heap2, same) = Granted-freed needed ptr mm1 xs (omega arith) g in
          (ptr, mm1, mm2, ys, run, freed, heap2, inl same)
      | inr (inr (_, g)) ↦
          let grown : List Cell = xs ++ (mm.heap_next_virt, page_size) ∷ [] in
          let (mm2, ys, freed, heap2, same) = Granted-freed needed ptr mm1 grown (omega arith) g in
          (
            ptr,
            mm1,
            mm2,
            ys,
            run,
            freed,
            heap2,
            inr (omega (arith, total-append xs ((mm.heap_next_virt, page_size) ∷ []))),
          )
    ]
