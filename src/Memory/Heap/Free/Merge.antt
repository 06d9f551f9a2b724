-- ===== src/Memory/Heap/Free/Merge.antt =====
-- The second half of `kfree` of src/lib/memory.c: a free block takes in an adjacent one.
use tbs_kernel.Memory.State.{Block, Mm, update}
use tbs_kernel.Base.{
  ℕ, ◌+◌, ◌≤◌, ◌≡◌, refl, ◌∙◌, ◌≢◌, true, false, List, [], ◌∷◌, ◌++◌, arith, ℕ_discrete, ◌==◌,
}
use tbs_kernel.Memory.Heap.Chain.{
  Cell, first_of_cells, total, Chain, Ordered, Ordered-le, Headers, Chain-update_above,
  Chain-update_below, Chain-append, Ordered-append, Ordered-weaken, Chain-first, is_free,
}
use tbs_kernel.Memory.Heap.Invariant.{IsHeap}
use tbs_kernel.Memory.Heap.{
  merge_next, put_block, block_used, block_size, without_used, heap_start, merge_prev,
}
use tbs_kernel.Memory.Heap.Malloc.Take.{Around, around}
use tbs_kernel.Base.Words.{add32}

-- No two neighbours of the list touch.
abbrev pub IsApart : List Cell → Type 0
IsApart [] = Unit
IsApart ((a, l) ∷ xs) = (a + l ≢ first_of_cells xs) × IsApart xs

-- The block at `a`, after what stood behind it may have been taken in.
pub record Merged (mm' : Mm) (front : List Cell) (a n : ℕ) (back : List Cell) : Type 0 where
  pub size : ℕ
  pub rest : List Cell
  pub heap : IsHeap mm' (front ++ (a, size) ∷ rest)
  pub accounts : size + total rest ≡ n + total back
  pub covers : (x : ℕ) → is_free ((a, size) ∷ rest) x ≡ is_free ((a, n) ∷ back) x
  pub grows : n ≤ size
  pub apart : IsApart back → (a + size ≢ first_of_cells rest) × IsApart rest

touching_blocks :
    (a n b m : ℕ) (rest : List Cell)
    → a + n ≡ b
    → (x : ℕ) → is_free ((a, n + m) ∷ rest) x ≡ is_free ((a, n) ∷ (b, m) ∷ rest) x
touching_blocks a n b m rest touch x = ground (arith, touch)

module _ (mm : Mm) (front : List Cell) (a n : ℕ) where
  merge_next-touching :
      (b m : ℕ) (rest : List Cell)
      → IsHeap mm (front ++ (a, n) ∷ (b, m) ∷ rest)
      → a + n ≡ b
      → (merge_next a mm ≡ put_block a (n + m) (mm.headers b).next mm)
        × IsHeap (put_block a (n + m) (mm.headers b).next mm) (front ++ (a, n + m) ∷ rest)
  unfolding merge_next update
  merge_next-touching b m rest heap touch =
      let hi : ℕ = mm.heap_next_virt in
      let s : Around mm front ((b, m) ∷ rest) a n heap = around mm front ((b, m) ∷ rest) a n heap in
      let c : Chain mm.headers (mm.headers a).next ((b, m) ∷ rest) 0 = rw s.next_is s.from_block in
      let next_is : (mm.headers a).next ≡ b = c.0 in
      let behind : Ordered (a + n) ((b, m) ∷ rest) hi = s.behind in
      let end_of : b + m ≤ hi = omega (arith, Ordered-le (b + m) rest hi behind.4) in
      let live : (b == 0) ≡ false = ground (arith, behind.0, s.least) in
      let unused : block_used (mm.headers b) ≡ false = ground (arith, c.1, behind.2) in
      let meets : (add32 a (block_size (mm.headers a)) == b) ≡ true =
        ground (arith, s.size, s.size_word, end_of, heap.bound) in
      let sum : without_used (add32 (block_size (mm.headers a)) (block_size (mm.headers b)))
          ≡ n + m =
        omega (arith, s.size, s.size_word, c.1, behind.2, end_of, heap.bound) in
      let new : Block = record { len = n + m; next = (mm.headers b).next } in
      let h' : Headers = update mm.headers a new in
      let cf : Chain h' mm.block_list front a =
        Chain-update_above mm.headers a new mm.block_list heap_start front a a (omega arith)
          s.before s.to_block in
      let cb : Chain h' (mm.headers b).next rest 0 =
        Chain-update_below mm.headers a new (mm.headers b).next (b + m) rest hi 0 (omega arith)
          behind.4 c.2 in
      let a-len : (h' a).len ≡ n + m = ground arith in
      let a-next : (h' a).next ≡ (mm.headers b).next = ground arith in
      (
        rw (next_is, live, unused, meets, sum),
        record {
          chain =
              Chain-append h' mm.block_list front ((a, n + m) ∷ rest) a 0 cf
                (refl, a-len, rw a-next cb);
          ordered = Ordered-append heap_start front ((a, n + m) ∷ rest) a hi s.before (
            omega arith,
            omega (arith, s.least),
            omega (arith, s.size_word, behind.2),
            s.place_word,
            Ordered-weaken (b + m) (a + (n + m)) rest hi hi (omega arith) (omega arith) behind.4,
          );
          bound = heap.bound;
          aligned = heap.aligned;
          mapped = heap.mapped;
        },
      )

  merge_next-apart :
      (back : List Cell)
      → IsHeap mm (front ++ (a, n) ∷ back)
      → a + n ≢ first_of_cells back
      → merge_next a mm ≡ mm
  unfolding merge_next
  merge_next-apart back heap ne =
      let s : Around mm front back a n heap = around mm front back a n heap in
      let next_is : (mm.headers a).next ≡ first_of_cells back =
        s.next_is ∙ Chain-first mm.headers s.next back s.from_block in
      let e : (add32 a (block_size (mm.headers a)) == first_of_cells back) ≡ false =
        ground (arith, s.size, s.size_word, s.high, heap.bound) in
      rw (next_is, e) (ground arith)

  -- Whether or not the next block touches, the block ends up apart from what follows.
  pub merge_next-Merged :
      (back : List Cell)
      → IsHeap mm (front ++ (a, n) ∷ back)
      → Merged (merge_next a mm) front a n back
  merge_next-Merged [] heap =
      let s : Around mm front [] a n heap = around mm front [] a n heap in
      let gap : a + n ≢ 0 = omega (arith, s.least) in
      record {
        size = n;
        rest = [];
        heap = rw (merge_next-apart [] heap gap) heap;
        accounts = refl;
        covers = λ x. refl;
        grows = omega arith;
        apart = λ far. (gap, tt);
      }
  merge_next-Merged ((b, m) ∷ rest) heap = elim (ℕ_discrete (a + n) b) [
    | yes touch ↦
        let (eq, heap') = merge_next-touching b m rest heap touch in
        record {
          size = n + m;
          rest = rest;
          heap = rw eq heap';
          accounts = omega arith;
          covers = touching_blocks a n b m rest touch;
          grows = omega arith;
          apart = λ far. (omega (arith, far.0), far.1);
        }
    | no ne ↦ record {
      size = n;
      rest = (b, m) ∷ rest;
      heap = rw (merge_next-apart ((b, m) ∷ rest) heap ne) heap;
      accounts = refl;
      covers = λ x. refl;
      grows = omega arith;
      apart = λ far. (ne, far);
    }
  ]

-- Merging with the block before is merging that block with the one behind it.
pub merge_prev-merge_next :
    (mm : Mm) (prev block : ℕ)
    → prev ≢ 0
    → block ≢ 0
    → (mm.headers prev).next ≡ block
    → block_used (mm.headers block) ≡ false
    → block_used (mm.headers prev) ≡ false
    → merge_prev prev block mm ≡ merge_next prev mm
unfolding merge_prev merge_next
merge_prev-merge_next mm prev block p b e u v = rw (e, u, v) (ground arith)

-- New ends of a list that keep its blocks apart.
pub IsApart-replace :
    (f : List Cell) (p k k' : ℕ) (r s : List Cell)
    → IsApart (f ++ (p, k) ∷ r)
    → p + k' ≢ first_of_cells s
    → IsApart s
    → IsApart (f ++ (p, k') ∷ s)
IsApart-replace [] p k k' r s far gap tail = (gap, tail)
IsApart-replace ((a, l) ∷ []) p k k' r s far gap tail = (far.0, (gap, tail))
IsApart-replace ((a, l) ∷ (b, m) ∷ f) p k k' r s far gap tail =
    (far.0, IsApart-replace ((b, m) ∷ f) p k k' r s far.1 gap tail)

pub IsApart-tail : (xs ys : List Cell) → IsApart (xs ++ ys) → IsApart ys
IsApart-tail [] ys far = far
IsApart-tail ((a, l) ∷ xs) ys far = IsApart-tail xs ys far.1
