-- ===== src/CString/Atoi/RoundTrip.antt =====
-- `atoi` of src/lib/string.c reads back what the printers of that file write, and saturates.
use tbs_kernel.Base.Int.{ℤ, pos_part, neg_part, pos, negsuc}
use tbs_kernel.CString.Atoi.{atoi, atoi_digits, int_max, is_digit, apply_sign, int_min}
use tbs_kernel.Base.{
  ℕ, List, ◌≤◌, Bool, All, arith, ◌<◌, ◌≡◌, ◌++◌, length, false, some, ◌∷◌, ◌*◌, if◌then◌else◌, ◌+◌,
  refl, [], zero, suc, ◌^◌, true,
}
use tbs_kernel.CString.Numerals.{digits_loop, int_to_str, uint_to_str}
use tbs_kernel.CString.Numerals.Room.{decimal_room}
use tbs_kernel.CString.Numerals.Value.{
  digits_loop-IsDecimal, value_of-decimal, digit_value, IsDecimal, value_of,
}

value_of-ge : (r : ℕ) (s : List ℕ) → r ≤ value_of 10 r s
unfolding value_of
value_of-ge r [] = omega arith
value_of-ge r (c ∷ s) = omega (arith, value_of-ge (r * 10 + digit_value c) s)

atoi_digits-exact :
    (s rest : List ℕ) (c r : ℕ) (neg : Bool)
    → All IsDecimal s
    → is_digit c ≡ false
    → value_of 10 r s ≤ int_max
    → atoi_digits (s ++ c ∷ rest) neg r ≡ some (apply_sign neg (value_of 10 r s))
unfolding atoi_digits value_of
atoi_digits-exact [] rest c r neg d e h = rw e
atoi_digits-exact (x ∷ s) rest c r neg d e h = ground (
  arith,
  value_of-ge (r * 10 + digit_value x) s,
  atoi_digits-exact s rest c (r * 10 + digit_value x) neg d.1 e,
)

atoi_digits-saturates :
    (s rest : List ℕ) (r : ℕ) (neg : Bool)
    → All IsDecimal s
    → r ≤ int_max
    → int_max < value_of 10 r s
    → atoi_digits (s ++ rest) neg r ≡ some (if neg then int_min else pos int_max)
unfolding atoi_digits value_of
atoi_digits-saturates [] rest r neg d h k = absurd (omega arith)
atoi_digits-saturates (x ∷ s) rest r neg d h k =
    ground (arith, atoi_digits-saturates s rest (r * 10 + digit_value x) neg d.1)

-- The `int` values whose negation is an `int` too.
pub record IsSymmetric (z : ℤ) : Type 0 where
  pub upper : pos_part z ≤ int_max
  pub lower : neg_part z ≤ int_max

atoi-decimal :
    (s rest : List ℕ) (n : ℕ)
    → All IsDecimal s
    → 0 < length s
    → value_of 10 0 s ≤ int_max
    → atoi (s ++ 0 ∷ rest) ≡ some (pos (value_of 10 0 s))
unfolding atoi
atoi-decimal [] rest n d l h = absurd (omega arith)
atoi-decimal (x ∷ s) rest n d l h =
    ground (arith, atoi_digits-exact (x ∷ s) rest 0 0 false d refl h)

-- The digits of a positive `int`, as the printers write them.
IsDecimal-digits :
    (n : ℕ)
    → n ≤ int_max
    → (s : List ℕ) × (digits_loop 10 16 n [] ≡ some s)
      × (length s ≤ 10)
      × (value_of 10 0 s ≡ n)
      × All IsDecimal s
unfolding value_of
IsDecimal-digits n h =
    let (s, eq, len) = decimal_room 10 16 n [] (omega arith) (omega arith) in
    (s, eq, omega arith, value_of-decimal 16 n [] s eq, digits_loop-IsDecimal 16 n [] s tt eq)

signed_digits :
    (s rest : List ℕ) (n : ℕ)
    → All IsDecimal s
    → value_of 10 0 s ≡ suc n
    → suc n ≤ int_max
    → (atoi (s ++ 0 ∷ rest) ≡ some (pos (suc n)))
      × (atoi (b'-' ∷ (s ++ 0 ∷ rest)) ≡ some (negsuc n))
unfolding atoi value_of
signed_digits [] rest n d e h = absurd (omega arith)
signed_digits (x ∷ s) rest n d e h = ground (
  arith,
  atoi_digits-exact (x ∷ s) rest 0 0 false d refl,
  atoi_digits-exact (x ∷ s) rest 0 0 true d refl,
)

-- For every `int` but `INT_MIN`, `int_to_str` writes at most 11 bytes without leaving its buffer,
-- and `atoi` of those bytes and a terminator is the number again.
pub atoi-int_to_str :
    (z : ℤ) (rest : List ℕ)
    → IsSymmetric z
    → (s : List ℕ) × (int_to_str z ≡ some s) × (length s ≤ 11) × (atoi (s ++ 0 ∷ rest) ≡ some z)
unfolding int_to_str
atoi-int_to_str (pos zero) rest h = (b'0' ∷ [], refl, omega arith, unfold atoi in refl)
atoi-int_to_str (pos (suc n)) rest h =
    let (s, eq, len, val, dec) = IsDecimal-digits (suc n) h.upper in
    (s, eq, omega arith, (signed_digits s rest n dec val h.upper).0)
atoi-int_to_str (negsuc n) rest h =
    let (s, eq, len, val, dec) = IsDecimal-digits (suc n) h.lower in
    (b'-' ∷ s, ground arith, omega arith, (signed_digits s rest n dec val h.lower).1)

-- `INT_MIN` has no digits: its negation is itself, so the digit loop does not run.
pub int_to_str-int_min : int_to_str int_min ≡ some (b'-' ∷ [])
unfolding int_to_str digits_loop
int_to_str-int_min = refl

-- A numeral above `INT_MAX`, with any sign before it and anything behind it, gives `INT_MAX` or,
-- behind a minus sign, `INT_MIN`.
pub atoi_saturates :
    (s rest : List ℕ)
    → All IsDecimal s
    → int_max < value_of 10 0 s
    → (atoi (s ++ rest) ≡ some (pos int_max))
      × (atoi (b'+' ∷ (s ++ rest)) ≡ some (pos int_max))
      × (atoi (b'-' ∷ (s ++ rest)) ≡ some int_min)
unfolding atoi value_of
atoi_saturates [] rest d h = absurd (omega arith)
atoi_saturates (x ∷ s) rest d h = ground (
  arith,
  atoi_digits-saturates (x ∷ s) rest 0 false d,
  atoi_digits-saturates (x ∷ s) rest 0 true d,
)

-- `uint_to_str` stays in its buffer for every 32-bit value, and its decimal digits read back.
pub uint_to_str-value :
    (v : ℕ)
    → v < 2 ^ 32
    → (s : List ℕ) × (uint_to_str v ≡ some s)
      × (value_of 10 0 s ≡ v)
      × All IsDecimal s
      × (length s ≤ 10)
unfolding uint_to_str value_of
uint_to_str-value zero h = (b'0' ∷ [], refl, refl, omega arith, omega arith)
uint_to_str-value (suc v) h =
    let (s, eq, len) = decimal_room 10 16 (suc v) [] (omega arith) (omega arith) in
    (
      s,
      ground arith,
      value_of-decimal 16 (suc v) [] s eq,
      digits_loop-IsDecimal 16 (suc v) [] s tt eq,
      omega arith,
    )
