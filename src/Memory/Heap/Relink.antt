-- ===== src/Memory/Heap/Relink.antt =====
-- What a change of one `next` pointer does to the list of src/lib/memory.c.
use tbs_kernel.Base.{ℕ, ◌+◌, ◌≤◌, ◌<◌, ◌≡◌, refl, ◌≢◌, List, [], ◌∷◌, arith}
use tbs_kernel.Memory.Heap.Chain.{Cell, Headers, Ordered, last_of, Chain, Chain-update_below}
use tbs_kernel.Memory.Heap.{link}
use tbs_kernel.Memory.State.{Mm, update}

-- The last block of a list in order lies inside it.
pub last_of_bounds :
    (prev lo : ℕ) (a l : ℕ) (xs : List Cell) (hi : ℕ)
    → Ordered lo ((a, l) ∷ xs) hi
    → (a ≤ last_of a xs) × (last_of a xs + 12 ≤ hi)
last_of_bounds prev lo a l [] hi o = omega arith
last_of_bounds prev lo a l ((b, m) ∷ xs) hi o =
    omega (arith, last_of_bounds a (a + l) b m xs hi o.4)

pub last_of-lt : (lo : ℕ) (xs : List Cell) (hi : ℕ) → 0 < lo → Ordered lo xs hi → last_of 0 xs < hi
last_of-lt lo [] hi p o = omega arith
last_of-lt lo ((a, l) ∷ xs) hi p o = omega (arith, last_of_bounds 0 lo a l xs hi o)

abbrev pub set_next : Headers → ℕ → ℕ → Headers
set_next h a q = update h a (record (h a) { next = q })

set_next-Chain :
    (h : Headers) (q p lo a l : ℕ) (xs : List Cell) (hi r : ℕ)
    → Ordered lo ((a, l) ∷ xs) hi
    → Chain h p ((a, l) ∷ xs) r
    → Chain (set_next h (last_of a xs) q) p ((a, l) ∷ xs) q
unfolding update
set_next-Chain h q p lo a l [] hi r o c = ground arith
set_next-Chain h q p lo a l ((b, m) ∷ xs) hi r o c = ground (
  arith,
  last_of_bounds a (a + l) b m xs hi o.4,
  set_next-Chain h q (h a).next (a + l) b m xs hi r o.4 c.2,
)

-- Linking behind the last block of the first part makes that part lead to `q`.
pub link-Chain :
    (mm : Mm) (q lo : ℕ) (xs : List Cell) (hi r : ℕ)
    → 0 < lo
    → Ordered lo xs hi
    → Chain mm.headers mm.block_list xs r
    → Chain (link (last_of 0 xs) q mm).headers (link (last_of 0 xs) q mm).block_list xs q
unfolding link
link-Chain mm q lo [] hi r p o c = refl
link-Chain mm q lo ((a, l) ∷ xs) hi r p o c = ground (
  arith,
  last_of_bounds 0 lo a l xs hi o,
  set_next-Chain mm.headers q mm.block_list lo a l xs hi r o c,
)

-- It leaves a part that lies behind as it was, and the header of every other block.
pub link-Chain_above :
    (mm : Mm) (q prev p lo : ℕ) (ys : List Cell) (hi stop : ℕ)
    → prev < lo
    → Ordered lo ys hi
    → Chain mm.headers p ys stop
    → Chain (link prev q mm).headers p ys stop
unfolding link
link-Chain_above mm q prev p lo ys hi stop lt o c = ground (
  arith,
  Chain-update_below mm.headers prev (record (mm.headers prev) { next = q }) p lo ys hi stop lt o c,
)

pub headers-link : (mm : Mm) (q prev x : ℕ) → ((link prev q mm).headers x).len ≡ (mm.headers x).len
unfolding link update
headers-link mm q prev x = ground arith

pub next-link :
    (mm : Mm) (q prev x : ℕ) → prev ≢ x → ((link prev q mm).headers x).next ≡ (mm.headers x).next
unfolding link update
next-link mm q prev x ne = ground arith

-- The fields that `link` does not touch.
pub fields-link :
    (mm : Mm) (q prev : ℕ)
    → ((link prev q mm).heap_next_virt ≡ mm.heap_next_virt)
      × ((link prev q mm).pmm ≡ mm.pmm)
      × ((link prev q mm).page_directory ≡ mm.page_directory)
unfolding link
fields-link mm q prev = ground arith
