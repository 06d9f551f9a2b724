-- ===== src/Memory/Heap/Malloc/Take.antt =====
-- Taking a block out of the free list of src/lib/memory.c, whole or split.
use tbs_kernel.Memory.State.{Block, Mm, update}
use tbs_kernel.Base.{
  ℕ, ◌+◌, ◌-◌, ◌%◌, ◌≤◌, ◌<◌, ◌≡◌, refl, true, false, List, ◌∷◌, ◌++◌, arith, dec_lt, leb,
  if◌then◌else◌, All-append,
}
use tbs_kernel.Memory.Heap.Chain.{
  Cell, last_of, Ordered-split, Chain-split, Ordered, Ordered-weaken, Ordered-le, Chain,
  Chain-update_above, Chain-update_below, Headers, Chain-append, Ordered-append, Avoids-below,
  Avoids-above, total-append,
}
use tbs_kernel.Memory.Heap.Invariant.{IsHeap, Taken}
use tbs_kernel.Memory.Heap.{
  take_block, heap_start, put_block, link, heap_end, min_split, block_size, without_used, with_used,
}
use tbs_kernel.Memory.Heap.Relink.{
  last_of-lt, link-Chain, link-Chain_above, headers-link, next-link, fields-link,
}
use tbs_kernel.Base.Words.{add32, sub32}

-- The bytes that `kmalloc` takes of a block of `l` bytes, and what the list keeps of it.
abbrev pub granted : ℕ → ℕ → ℕ
granted needed l = if leb (needed + 12) l then needed else l

abbrev pub remainder : ℕ → ℕ → ℕ → List Cell → List Cell
remainder needed a l back = if leb (needed + 12) l then (a + needed, l - needed) ∷ back else back

-- The two outcomes of `take_block`, written with no wrap-around.
abbrev split_off : ℕ → ℕ → ℕ → ℕ → Mm → Mm
split_off needed prev a l mm =
    let linked =
      link prev (a + needed) (put_block (a + needed) (l - needed) (mm.headers a).next mm) in
    record linked {
      headers = update linked.headers a (record (linked.headers a) { len = needed + 1 });
    }

abbrev take_whole : ℕ → ℕ → ℕ → Mm → Mm
take_whole prev a l mm =
    let linked = link prev (mm.headers a).next mm in
    record linked { headers = update linked.headers a (record (linked.headers a) { len = l + 1 }) }

module _ (mm : Mm) (prev a l needed : ℕ) (size : (mm.headers a).len ≡ l) (place : a + l ≤ heap_end)
    (word : l % 4 ≡ 0) (needed_word : needed % 4 ≡ 0) where
  take_block-split : needed + 12 ≤ l → take_block needed prev a mm ≡ split_off needed prev a l mm
  unfolding take_block
  take_block-split fits_rest =
      let e1 : leb (add32 needed min_split) (block_size (mm.headers a)) ≡ true = ground arith in
      let e2 : add32 a needed ≡ a + needed = omega arith in
      let e3 : without_used (sub32 (block_size (mm.headers a)) needed) ≡ l - needed = omega arith in
      let e4 : with_used needed ≡ needed + 1 = omega arith in rw (e1, e2, e3, e4) refl

  take_block-whole :
      needed ≤ l → l < needed + 12 → take_block needed prev a mm ≡ take_whole prev a l mm
  unfolding take_block
  take_block-whole enough tight =
      let e1 : leb (add32 needed min_split) (block_size (mm.headers a)) ≡ false = ground arith in
      let e2 : with_used ((link prev (mm.headers a).next mm).headers a).len ≡ l + 1 =
        omega (arith, headers-link mm (mm.headers a).next prev a) in
      rw (e1, e2) refl

-- The list around the block that is taken.
module _ (mm : Mm) (front back : List Cell) (a l : ℕ)
    (heap : IsHeap mm (front ++ (a, l) ∷ back)) where
  pub record Around : Type 0 where
    pub next : ℕ
    pub size : (mm.headers a).len ≡ l
    pub next_is : (mm.headers a).next ≡ next
    pub before : Ordered heap_start front a
    pub behind : Ordered (a + l) back mm.heap_next_virt
    pub to_block : Chain mm.headers mm.block_list front a
    pub from_block : Chain mm.headers next back 0
    pub least : 12 ≤ l
    pub size_word : l % 4 ≡ 0
    pub place_word : a % 4 ≡ 0
    pub low : heap_start ≤ a
    pub high : a + l ≤ mm.heap_next_virt
    pub prev-lt : last_of 0 front < a

  pub around : Around
  around =
      let hi : ℕ = mm.heap_next_virt in
      let (mid, of, ob) = Ordered-split heap_start front ((a, l) ∷ back) hi heap.ordered in
      let (p, cf, cb) = Chain-split mm.headers mm.block_list front ((a, l) ∷ back) 0 heap.chain in
      let of' : Ordered heap_start front a =
        Ordered-weaken heap_start heap_start front mid a (omega arith) ob.0 of in
      record {
        next = (mm.headers a).next;
        size = cb.1;
        next_is = refl;
        before = of';
        behind = ob.4;
        to_block = rw (← cb.0) cf;
        from_block = cb.2;
        least = ob.1;
        size_word = ob.2;
        place_word = ob.3;
        low = omega (arith, Ordered-le heap_start front a of');
        high = omega (arith, Ordered-le (a + l) back hi ob.4);
        prev-lt = last_of-lt heap_start front a (omega arith) of';
      }

  module _ (needed : ℕ) (word : needed % 4 ≡ 0) where
    split_off-Taken :
        12 ≤ needed
        → needed + 12 ≤ l
        → Taken
            (split_off needed (last_of 0 front) a l mm)
            (front ++ (a, l) ∷ back)
            (front ++ (a + needed, l - needed) ∷ back)
            a
            needed
    unfolding update
    split_off-Taken least_needed fits_rest =
        let s : Around = around in
        let hi : ℕ = mm.heap_next_virt in
        let prev : ℕ = last_of 0 front in
        let rest : ℕ = a + needed in
        let nx : ℕ = (mm.headers a).next in
        let b : Block = record { len = l - needed; next = nx } in
        let mm1 : Mm = put_block rest (l - needed) nx mm in
        let cf1 : Chain mm1.headers mm1.block_list front a =
          Chain-update_above mm.headers rest b mm.block_list heap_start front a a (omega arith)
            s.before s.to_block in
        let cb1 : Chain mm1.headers nx back 0 =
          Chain-update_below mm.headers rest b nx (a + l) back hi 0 (omega arith) s.behind
            (rw s.next_is s.from_block) in
        let mm2 : Mm = link prev rest mm1 in
        let c : Block = record (mm2.headers a) { len = needed + 1 } in
        let cf2 : Chain (update mm2.headers a c) mm2.block_list front rest =
          Chain-update_above mm2.headers a c mm2.block_list heap_start front a rest (omega arith)
            s.before (link-Chain mm1 rest heap_start front a a (omega arith) s.before cf1) in
        let cb2 : Chain (update mm2.headers a c) nx back 0 =
          Chain-update_below mm2.headers a c nx (a + l) back hi 0 (omega (arith, s.least)) s.behind
            (link-Chain_above mm1 rest prev nx (a + l) back hi 0 (omega (arith, s.prev-lt)) s.behind
              cb1) in
        let ys : Ordered rest ((rest, l - needed) ∷ back) hi = (
          omega arith,
          omega arith,
          omega (arith, s.size_word),
          omega (arith, s.place_word),
          Ordered-weaken (a + l) (rest + (l - needed)) back hi hi (omega arith) (omega arith)
              s.behind,
        ) in
        let h3 : Headers = update mm2.headers a c in
        let rest-len : (h3 rest).len ≡ l - needed =
          ground (arith, headers-link mm1 rest prev rest) in
        let rest-next : (h3 rest).next ≡ nx =
          ground (arith, next-link mm1 rest prev rest, s.prev-lt) in
        let middle : Chain h3 rest ((rest, l - needed) ∷ back) 0 =
          (refl, rest-len, rw rest-next cb2) in
        let end_of : mm2.heap_next_virt ≡ hi = (fields-link mm1 rest prev).0 in
        record {
          heap = record {
            chain =
                Chain-append h3 mm2.block_list front ((rest, l - needed) ∷ back) rest 0 cf2 middle;
            ordered = rw end_of (
                Ordered-append heap_start front ((rest, l - needed) ∷ back) a hi s.before (
                  Ordered-weaken rest a ((rest, l - needed) ∷ back) hi hi (omega arith)
                    (omega arith) ys));
            bound = rw end_of heap.bound;
            aligned = rw end_of heap.aligned;
            mapped = rw (fields-link mm1 rest prev).2 heap.mapped;
          };
          avoids =
              All-append _ front ((rest, l - needed) ∷ back)
                (Avoids-below a needed heap_start front a (omega arith) s.before)
                (Avoids-above a needed rest ((rest, l - needed) ∷ back) hi (omega arith) ys);
          accounts = omega (
            arith,
            total-append front ((a, l) ∷ back),
            total-append front ((rest, l - needed) ∷ back),
          );
          header = ground arith;
          low = s.low;
          high = rw end_of (omega (arith, s.high));
          place = s.place_word;
          size_word = word;
        }

  take_whole-Taken :
      Taken (take_whole (last_of 0 front) a l mm) (front ++ (a, l) ∷ back) (front ++ back) a l
  unfolding update
  take_whole-Taken =
      let s : Around = around in
      let hi : ℕ = mm.heap_next_virt in
      let prev : ℕ = last_of 0 front in
      let nx : ℕ = (mm.headers a).next in
      let mm2 : Mm = link prev nx mm in
      let c : Block = record (mm2.headers a) { len = l + 1 } in
      let h3 : Headers = update mm2.headers a c in
      let cf2 : Chain h3 mm2.block_list front nx =
        Chain-update_above mm2.headers a c mm2.block_list heap_start front a nx (omega arith)
          s.before (link-Chain mm nx heap_start front a a (omega arith) s.before s.to_block) in
      let cb2 : Chain h3 nx back 0 =
        Chain-update_below mm2.headers a c nx (a + l) back hi 0 (omega (arith, s.least)) s.behind (
          link-Chain_above mm nx prev nx (a + l) back hi 0 (omega (arith, s.prev-lt)) s.behind
            (rw s.next_is s.from_block)) in
      let end_of : mm2.heap_next_virt ≡ hi = (fields-link mm nx prev).0 in
      record {
        heap = record {
          chain = Chain-append h3 mm2.block_list front back nx 0 cf2 cb2;
          ordered = rw end_of (
              Ordered-append heap_start front back a hi s.before
                (Ordered-weaken (a + l) a back hi hi (omega arith) (omega arith) s.behind));
          bound = rw end_of heap.bound;
          aligned = rw end_of heap.aligned;
          mapped = rw (fields-link mm nx prev).2 heap.mapped;
        };
        avoids =
            All-append _ front back (Avoids-below a l heap_start front a (omega arith) s.before)
              (Avoids-above a l (a + l) back hi (omega arith) s.behind);
        accounts = omega (arith, total-append front ((a, l) ∷ back), total-append front back);
        header = ground arith;
        low = s.low;
        high = rw end_of (omega (arith, s.high));
        place = s.place_word;
        size_word = s.size_word;
      }

  -- Whichever way the block is taken.
  pub take_block-Taken :
      (needed : ℕ)
      → needed % 4 ≡ 0
      → 12 ≤ needed
      → needed ≤ l
      → Taken
          (take_block needed (last_of 0 front) a mm)
          (front ++ (a, l) ∷ back)
          (front ++ remainder needed a l back)
          a
          (granted needed l)
  take_block-Taken needed word least_needed enough =
      let s : Around = around in
      let place : a + l ≤ heap_end = omega (arith, s.high, heap.bound) in
      elim (dec_lt l (needed + 12)) [
        | yes tight ↦
            let e : leb (needed + 12) l ≡ false = ground arith in
            rw
              (
                e,
                take_block-whole mm (last_of 0 front) a l needed s.size place s.size_word word
                    enough tight,
              )
              take_whole-Taken
        | no loose ↦
            let e : leb (needed + 12) l ≡ true = ground arith in
            rw
              (
                e,
                take_block-split mm (last_of 0 front) a l needed s.size place s.size_word word
                    (omega arith),
              )
              (split_off-Taken needed word least_needed (omega arith))
      ]
