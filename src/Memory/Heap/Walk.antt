-- ===== src/Memory/Heap/Walk.antt =====
-- Where the list walks of src/lib/memory.c stop.
use tbs_kernel.Base.{
  ℕ, zero, suc, ◌+◌, ◌<◌, ◌≡◌, refl, Bool, some, List, [], ◌∷◌, ◌++◌, arith, if◌then◌else◌, length,
}
use tbs_kernel.Memory.Heap.Chain.{Cell, Headers, Ordered, Chain, last_of, first_of_cells}
use tbs_kernel.Memory.Heap.{walk}

-- The blocks before the one at which a walk stops, and the rest.
module _ (go_on : ℕ → Bool) where
  abbrev pub passed : List Cell → List Cell
  passed [] = []
  passed ((a, l) ∷ xs) = if go_on a then (a, l) ∷ passed xs else []

  abbrev pub ahead : List Cell → List Cell
  ahead [] = []
  ahead ((a, l) ∷ xs) = if go_on a then ahead xs else (a, l) ∷ xs

  pub passed-append-ahead : (xs : List Cell) → passed xs ++ ahead xs ≡ xs
  passed-append-ahead [] = refl
  passed-append-ahead ((a, l) ∷ xs) = ground (arith, passed-append-ahead xs)

  pub walk_lem :
      (h : Headers) (fuel prev cur lo : ℕ) (xs : List Cell) (hi : ℕ)
      → 0 < lo
      → length xs < fuel
      → Ordered lo xs hi
      → Chain h cur xs 0
      → walk h go_on fuel prev cur ≡ some (last_of prev (passed xs), first_of_cells (ahead xs))
  unfolding walk
  walk_lem h zero prev cur lo xs hi pos_lo len o c = absurd (omega arith)
  walk_lem h (suc fuel) prev cur lo [] hi pos_lo len o c = rw c
  walk_lem h (suc fuel) prev cur lo ((a, l) ∷ xs) hi pos_lo len o c = rw (c.0) (
      ground
        (arith, walk_lem h fuel a (h a).next (a + l) xs hi (omega arith) (omega arith) o.4 c.2))

  -- The passed blocks end where the walk stops.
  pub passed-Chain :
      (h : Headers) (p : ℕ) (xs : List Cell)
      → Chain h p xs 0
      → Chain h p (passed xs) (first_of_cells (ahead xs))
        × Chain h (first_of_cells (ahead xs)) (ahead xs) 0
  passed-Chain h p [] c = (c, refl)
  passed-Chain h p ((a, l) ∷ xs) c = ground (arith, passed-Chain h (h a).next xs c.2)
