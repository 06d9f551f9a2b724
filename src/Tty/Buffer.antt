-- ===== src/Tty/Buffer.antt =====
-- The ring buffers of src/include/lib/tty.h: a byte array of 1024 cells, the index of the next
-- write and the index of the next read. One cell stays empty.
use tbs_kernel.Base.{
  ℕ, zero, suc, ◌+◌, ◌-◌, ◌%◌, ◌≤◌, ◌<◌, ◌≡◌, refl, ap, ap₂, ◌≢◌, Bool, true, false, List, [], ◌∷◌,
  ◌++◌, arith, ℕ_discrete, ltb, ◌==◌, if◌then◌else◌, length, get_or, set, length-set,
  get_or-set_self, get_or-set_ne,
}

abbrev pub buff_size : ℕ
buff_size = 1024

pub record Ring : Type 0 where
  pub buff : List ℕ
  pub head : ℕ
  pub tail : ℕ

-- `next_head`
abbrev pub next : ℕ → ℕ
next i = (i + 1) % buff_size

-- The write that `tty_write`, `tty_worker` and `kb_ring_handle_input` make: nothing in a full ring.
unfoldable pub put : ℕ → Ring → Ring
put c r =
    if next r.head == r.tail then r else record r { buff = set r.buff r.head c; head = next r.head }

-- The read that `tty_read`, `tty_read_line`, `tty_worker` and `read_tty_output` make, once the
-- ring is not empty.
unfoldable pub get : Ring → ℕ × Ring
get r = (get_or r.buff r.tail 0, record r { tail = next r.tail })

abbrev pub is_empty : Ring → Bool
is_empty r = r.head == r.tail

-- The invariant: the array has its size and the indices lie in it.
pub record IsRing (r : Ring) : Type 0 where
  pub size : length r.buff ≡ buff_size
  pub head_in : r.head < buff_size
  pub tail_in : r.tail < buff_size

-- The bytes that wait in a ring, oldest first.
abbrev span : List ℕ → ℕ → ℕ → List ℕ
span buff i zero = []
span buff i (suc n) = get_or buff i 0 ∷ span buff (next i) n

abbrev pub count : Ring → ℕ
count r = (r.head + buff_size - r.tail) % buff_size

unfoldable pub contents : Ring → List ℕ
contents r = span r.buff r.tail (count r)

length-span : (buff : List ℕ) (i n : ℕ) → length (span buff i n) ≡ n
length-span buff i zero = refl
length-span buff i (suc n) = ap suc (length-span buff (next i) n)

pub length-contents : (r : Ring) → length (contents r) ≡ count r
unfolding contents
length-contents r = length-span r.buff r.tail (count r)

-- The last byte of a span.
span-snoc :
    (buff : List ℕ) (i n : ℕ)
    → i < buff_size
    → span buff i (suc n) ≡ span buff i n ++ get_or buff ((i + n) % buff_size) 0 ∷ []
span-snoc buff i zero h = let e : (i + 0) % buff_size ≡ i = omega arith in rw e
span-snoc buff i (suc n) h =
    let e : (next i + n) % buff_size ≡ (i + suc n) % buff_size = omega arith in
    ap (λ s. get_or buff i 0 ∷ s) (rw e at (span-snoc buff (next i) n (omega arith)))

-- A write behind a span does not change it.
span-set :
    (buff : List ℕ) (c i n k : ℕ)
    → i < buff_size
    → n ≤ k
    → k < buff_size
    → span (set buff ((i + k) % buff_size) c) i n ≡ span buff i n
span-set buff c i zero k h l m = refl
span-set buff c i (suc n) zero h l m = absurd (omega arith)
span-set buff c i (suc n) (suc k) h l m =
    let ne : (i + suc k) % buff_size ≢ i = omega arith in
    let e : (next i + k) % buff_size ≡ (i + suc k) % buff_size = omega arith in
    ap₂ ◌∷◌ (get_or-set_ne buff c 0 ne)
      (rw e at (span-set buff c (next i) n k (omega arith) (omega arith) (omega arith)))

module _ (c : ℕ) {r : Ring} (v : IsRing r) where
  pub put-IsRing : IsRing (put c r)
  unfolding put
  put-IsRing = ground (arith, length-set r.buff r.head c)

  -- A well-formed ring with fewer than 1023 bytes takes one more at its end; a full one drops it.
  pub contents-put :
      contents (put c r) ≡ (if ltb (count r) 1023 then contents r ++ c ∷ [] else contents r)
  unfolding put contents
  contents-put = elim (ℕ_discrete (next r.head) r.tail) [
    | yes full ↦ ground arith
    | no room ↦
        let n : ℕ = count r in
        let place : (r.tail + n) % buff_size ≡ r.head = omega arith in
        let more : (next r.head + buff_size - r.tail) % buff_size ≡ suc n = omega arith in
        let some_room : ltb n 1023 ≡ true = ground arith in
        let not_full : (next r.head == r.tail) ≡ false = ground arith in
        rw
          (
            not_full,
            some_room,
            more,
            span-snoc (set r.buff r.head c) r.tail n v.tail_in,
            place,
            get_or-set_self r.buff r.head c 0 (omega arith),
          )
          (ap (λ s. s ++ c ∷ [])
            (rw place at (span-set r.buff c r.tail n n v.tail_in (omega arith) (omega arith))))
  ]

module _ {r : Ring} (v : IsRing r) where
  pub get-IsRing : IsRing (get r).1
  unfolding get
  get-IsRing = ground arith

  -- A well-formed ring that is not empty gives its oldest byte and keeps the others.
  pub contents-get : r.head ≢ r.tail → contents r ≡ (get r).0 ∷ contents (get r).1
  unfolding get contents
  contents-get ne =
      let n : ℕ = (r.head + buff_size - next r.tail) % buff_size in
      let e : count r ≡ suc n = omega arith in rw e

pub put-full : (c : ℕ) (r : Ring) → next r.head ≡ r.tail → put c r ≡ r
unfolding put
put-full c r e = ground arith

pub contents-empty : (r : Ring) → r.head ≡ r.tail → contents r ≡ []
unfolding contents
contents-empty r e = let z : count r ≡ 0 = omega arith in rw z refl
