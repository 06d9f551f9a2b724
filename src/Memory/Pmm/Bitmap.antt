-- ===== src/Memory/Pmm/Bitmap.antt =====
-- The bits of the page bitmap of src/lib/memory.c are independent of one another.
use tbs_kernel.Base.Bits.{
  set_bit_of, clear_bit_of, bit-set_bit_of, bit-clear_bit_of, set_bit_of-lt, clear_bit_of-lt,
}
use tbs_kernel.Memory.Pmm.{pmm_set_bit, pmm_clear_bit, pmm_test_bit, all_used}
use tbs_kernel.Base.{
  ℕ, zero, suc, ◌/◌, ◌%◌, ◌<◌, ◌≡◌, refl, ap, List, [], ◌∷◌, arith, ℕ_discrete, ◌==◌, if◌then◌else◌,
  length, get_or, set, length-set, get_or-set_self, get_or-set_ne, All,
}

abbrev pub IsBytes : List ℕ → Type 0
IsBytes = All (λ b. b < 256)

pub get_or-lt : (bm : List ℕ) (i : ℕ) → IsBytes bm → get_or bm i 0 < 256
get_or-lt [] i h = omega arith
get_or-lt (b ∷ bm) zero h = h.0
get_or-lt (b ∷ bm) (suc i) h = get_or-lt bm i h.1

set-IsBytes : (bm : List ℕ) (i v : ℕ) → IsBytes bm → v < 256 → IsBytes (set bm i v)
set-IsBytes [] i v h k = tt
set-IsBytes (b ∷ bm) zero v h k = (k, h.1)
set-IsBytes (b ∷ bm) (suc i) v h k = (h.0, set-IsBytes bm i v h.1 k)

pub all_used-IsBytes : (n : ℕ) → IsBytes (all_used n)
all_used-IsBytes zero = tt
all_used-IsBytes (suc n) = (omega arith, all_used-IsBytes n)

pub get_or-all_used : (n i : ℕ) → i < n → get_or (all_used n) i 0 ≡ 255
get_or-all_used zero i h = absurd (omega arith)
get_or-all_used (suc n) zero h = refl
get_or-all_used (suc n) (suc i) h = get_or-all_used n i (omega arith)

pub length-all_used : (n : ℕ) → length (all_used n) ≡ n
length-all_used zero = refl
length-all_used (suc n) = ap suc (length-all_used n)

module _ (bm : List ℕ) (p : ℕ) where
  pub length-pmm_set_bit : length (pmm_set_bit bm p) ≡ length bm
  unfolding pmm_set_bit
  length-pmm_set_bit = length-set bm (p / 8) (set_bit_of (get_or bm (p / 8) 0) (p % 8))

  pub length-pmm_clear_bit : length (pmm_clear_bit bm p) ≡ length bm
  unfolding pmm_clear_bit
  length-pmm_clear_bit = length-set bm (p / 8) (clear_bit_of (get_or bm (p / 8) 0) (p % 8))

  pub pmm_set_bit-IsBytes : IsBytes bm → IsBytes (pmm_set_bit bm p)
  unfolding pmm_set_bit
  pmm_set_bit-IsBytes h =
      set-IsBytes bm (p / 8) (set_bit_of (get_or bm (p / 8) 0) (p % 8)) h (set_bit_of-lt _ _)

  pub pmm_clear_bit-IsBytes : IsBytes bm → IsBytes (pmm_clear_bit bm p)
  unfolding pmm_clear_bit
  pmm_clear_bit-IsBytes h =
      set-IsBytes bm (p / 8) (clear_bit_of (get_or bm (p / 8) 0) (p % 8)) h (clear_bit_of-lt _ _)

-- A write of byte `p / 8` seen at bit `q`.
same_byte : (p q : ℕ) → p / 8 ≡ q / 8 → p % 8 ≡ q % 8 → p ≡ q
same_byte p q e f = omega arith

-- Setting bit `p` makes it 1 and leaves every other bit of the bitmap as it was.
pub pmm_test_bit-set :
    (bm : List ℕ) (p q : ℕ)
    → IsBytes bm
    → q / 8 < length bm
    → pmm_test_bit (pmm_set_bit bm p) q ≡ (if p == q then 1 else pmm_test_bit bm q)
unfolding pmm_test_bit pmm_set_bit
pmm_test_bit-set bm p q h inside = elim (ℕ_discrete (p / 8) (q / 8)) [
  | yes e ↦
      rw (e, get_or-set_self bm (q / 8) (set_bit_of (get_or bm (q / 8) 0) (p % 8)) 0 inside)
        (ground (
          arith,
          bit-set_bit_of (get_or bm (q / 8) 0) (p % 8) (q % 8) (get_or-lt bm (q / 8) h)
              (omega arith) (omega arith),
          same_byte p q,
        ))
  | no ne ↦ rw (get_or-set_ne bm (set_bit_of (get_or bm (p / 8) 0) (p % 8)) 0 ne) (ground arith)
]

pub pmm_test_bit-clear :
    (bm : List ℕ) (p q : ℕ)
    → IsBytes bm
    → q / 8 < length bm
    → pmm_test_bit (pmm_clear_bit bm p) q ≡ (if p == q then 0 else pmm_test_bit bm q)
unfolding pmm_test_bit pmm_clear_bit
pmm_test_bit-clear bm p q h inside = elim (ℕ_discrete (p / 8) (q / 8)) [
  | yes e ↦
      rw (e, get_or-set_self bm (q / 8) (clear_bit_of (get_or bm (q / 8) 0) (p % 8)) 0 inside)
        (ground (
          arith,
          bit-clear_bit_of (get_or bm (q / 8) 0) (p % 8) (q % 8) (get_or-lt bm (q / 8) h)
              (omega arith) (omega arith),
          same_byte p q,
        ))
  | no ne ↦ rw (get_or-set_ne bm (clear_bit_of (get_or bm (p / 8) 0) (p % 8)) 0 ne) (ground arith)
]
