-- ===== src/Memory/Heap/Chain.antt =====
-- What the free list of src/lib/memory.c stands for: the addresses and sizes of its blocks.
use tbs_kernel.Memory.State.{Block, update}
use tbs_kernel.Base.{
  ℕ, ◌+◌, ◌*◌, ◌%◌, ◌≤◌, ◌<◌, ◌≡◌, refl, ◌⊎◌, inl, inr, Bool, false, ◌&&◌, ◌||◌, List, [], ◌∷◌,
  ◌++◌, arith, ltb, leb, length, All,
}

abbrev pub Cell : Type 0
Cell = ℕ × ℕ

abbrev pub Headers : Type 0
Headers = ℕ → Block

-- From `p` the `next` pointers lead through the free blocks `xs` to `stop`.
abbrev pub Chain : Headers → ℕ → List Cell → ℕ → Type 0
Chain h p [] stop = p ≡ stop
Chain h p ((a, l) ∷ xs) stop = (p ≡ a) × ((h a).len ≡ l) × Chain h (h a).next xs stop

-- The blocks lie between `lo` and `hi` in order of address and do not overlap; their sizes are
-- multiples of 4 and hold a header and a word.
abbrev pub Ordered : ℕ → List Cell → ℕ → Type 0
Ordered lo [] hi = lo ≤ hi
Ordered lo ((a, l) ∷ xs) hi =
    (lo ≤ a) × (12 ≤ l) × (l % 4 ≡ 0) × (a % 4 ≡ 0) × Ordered (a + l) xs hi

-- The address range from `a` for `n` bytes meets none of the blocks.
abbrev pub Avoids : ℕ → ℕ → List Cell → Type 0
Avoids a n = All (λ (b, l). (b + l ≤ a) ⊎ (a + n ≤ b))

abbrev pub total : List Cell → ℕ
total [] = 0
total ((a, l) ∷ xs) = l + total xs

-- The address `x` lies in a block of `n` bytes at `a`, and in one of the list.
abbrev pub in_block : ℕ → ℕ → ℕ → Bool
in_block a n x = leb a x && ltb x (a + n)

abbrev pub is_free : List Cell → ℕ → Bool
is_free [] x = false
is_free ((a, l) ∷ xs) x = in_block a l x || is_free xs x

pub is_free-append :
    (xs ys : List Cell) (x : ℕ) → is_free (xs ++ ys) x ≡ (is_free xs x || is_free ys x)
is_free-append [] ys x = refl
is_free-append ((a, l) ∷ xs) ys x = ground (arith, is_free-append xs ys x)

-- The address of the last block, `prev` if there is none, and of the first, 0 if there is none.
abbrev pub last_of : ℕ → List Cell → ℕ
last_of prev [] = prev
last_of prev ((a, l) ∷ xs) = last_of a xs

abbrev pub first_of_cells : List Cell → ℕ
first_of_cells [] = 0
first_of_cells ((a, l) ∷ xs) = a

pub total-append : (xs ys : List Cell) → total (xs ++ ys) ≡ total xs + total ys
total-append [] ys = omega arith
total-append ((a, l) ∷ xs) ys = omega (arith, total-append xs ys)

pub Ordered-le : (lo : ℕ) (xs : List Cell) (hi : ℕ) → Ordered lo xs hi → lo + 12 * length xs ≤ hi
Ordered-le lo [] hi o = omega arith
Ordered-le lo ((a, l) ∷ xs) hi o = omega (arith, Ordered-le (a + l) xs hi o.4)

pub Ordered-weaken :
    (lo lo' : ℕ) (xs : List Cell) (hi hi' : ℕ)
    → lo' ≤ lo
    → hi ≤ hi'
    → Ordered lo xs hi
    → Ordered lo' xs hi'
Ordered-weaken lo lo' [] hi hi' p q o = omega arith
Ordered-weaken lo lo' ((a, l) ∷ xs) hi hi' p q o =
    (omega arith, o.1, o.2, o.3, Ordered-weaken (a + l) (a + l) xs hi hi' (omega arith) q o.4)

pub Ordered-append :
    (lo : ℕ) (xs ys : List Cell) (mid hi : ℕ)
    → Ordered lo xs mid
    → Ordered mid ys hi
    → Ordered lo (xs ++ ys) hi
Ordered-append lo [] ys mid hi o p = Ordered-weaken mid lo ys hi hi o (omega arith) p
Ordered-append lo ((a, l) ∷ xs) ys mid hi o p =
    (o.0, o.1, o.2, o.3, Ordered-append (a + l) xs ys mid hi o.4 p)

-- A list in order splits at the end of its first part.
pub Ordered-split :
    (lo : ℕ) (xs ys : List Cell) (hi : ℕ)
    → Ordered lo (xs ++ ys) hi
    → (mid : ℕ) × Ordered lo xs mid × Ordered mid ys hi
Ordered-split lo [] ys hi o = (lo, omega arith, o)
Ordered-split lo ((a, l) ∷ xs) ys hi o =
    let (mid, p, q) = Ordered-split (a + l) xs ys hi o.4 in (mid, (o.0, o.1, o.2, o.3, p), q)

pub Avoids-above :
    (a n lo : ℕ) (xs : List Cell) (hi : ℕ) → a + n ≤ lo → Ordered lo xs hi → Avoids a n xs
Avoids-above a n lo [] hi h o = tt
Avoids-above a n lo ((b, l) ∷ xs) hi h o =
    (inr (omega arith), Avoids-above a n (b + l) xs hi (omega arith) o.4)

pub Avoids-below :
    (a n lo : ℕ) (xs : List Cell) (hi : ℕ) → hi ≤ a → Ordered lo xs hi → Avoids a n xs
Avoids-below a n lo [] hi h o = tt
Avoids-below a n lo ((b, l) ∷ xs) hi h o =
    (inl (omega (arith, Ordered-le (b + l) xs hi o.4)), Avoids-below a n (b + l) xs hi h o.4)

pub Chain-append :
    (h : Headers) (p : ℕ) (xs ys : List Cell) (mid stop : ℕ)
    → Chain h p xs mid
    → Chain h mid ys stop
    → Chain h p (xs ++ ys) stop
Chain-append h p [] ys mid stop c d = rw c d
Chain-append h p ((a, l) ∷ xs) ys mid stop c d =
    (c.0, c.1, Chain-append h (h a).next xs ys mid stop c.2 d)

pub Chain-split :
    (h : Headers) (p : ℕ) (xs ys : List Cell) (stop : ℕ)
    → Chain h p (xs ++ ys) stop
    → (mid : ℕ) × Chain h p xs mid × Chain h mid ys stop
Chain-split h p [] ys stop c = (p, refl, c)
Chain-split h p ((a, l) ∷ xs) ys stop c =
    let (mid, d, e) = Chain-split h (h a).next xs ys stop c.2 in (mid, (c.0, c.1, d), e)

-- A header outside the range of the blocks may change.
pub Chain-update_below :
    (h : Headers) (x : ℕ) (b : Block) (p lo : ℕ) (xs : List Cell) (hi stop : ℕ)
    → x < lo
    → Ordered lo xs hi
    → Chain h p xs stop
    → Chain (update h x b) p xs stop
unfolding update
Chain-update_below h x b p lo [] hi stop lt o c = c
Chain-update_below h x b p lo ((a, l) ∷ xs) hi stop lt o c =
    ground (arith, Chain-update_below h x b (h a).next (a + l) xs hi stop (omega arith) o.4 c.2)

pub Chain-update_above :
    (h : Headers) (x : ℕ) (b : Block) (p lo : ℕ) (xs : List Cell) (hi stop : ℕ)
    → hi ≤ x
    → Ordered lo xs hi
    → Chain h p xs stop
    → Chain (update h x b) p xs stop
unfolding update
Chain-update_above h x b p lo [] hi stop le o c = c
Chain-update_above h x b p lo ((a, l) ∷ xs) hi stop le o c = ground (
  arith,
  Ordered-le (a + l) xs hi o.4,
  Chain-update_above h x b (h a).next (a + l) xs hi stop le o.4 c.2,
)

pub Chain-first : (h : Headers) (p : ℕ) (xs : List Cell) → Chain h p xs 0 → p ≡ first_of_cells xs
Chain-first h p [] c = c
Chain-first h p ((a, l) ∷ xs) c = c.0
