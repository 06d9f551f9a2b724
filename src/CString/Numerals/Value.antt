-- ===== src/CString/Numerals/Value.antt =====
-- What number the digits of a printer of src/lib/string.c stand for.
use tbs_kernel.Base.{
  ℕ, zero, suc, ◌+◌, ◌-◌, ◌*◌, ◌/◌, ◌%◌, ◌≤◌, ◌<◌, ◌≡◌, some, List, [], ◌∷◌, arith, All, ltb,
  if◌then◌else◌, length,
}
use tbs_kernel.CString.Numerals.{digit_char, digits_loop}

-- The digit that a character stands for.
abbrev pub digit_value : ℕ → ℕ
digit_value c = if ltb c b'a' then c - b'0' else c + 10 - b'a'

-- The number that a numeral stands for, read from the left behind `acc`.
unfoldable pub value_of : ℕ → ℕ → List ℕ → ℕ
value_of base acc [] = acc
value_of base acc (c ∷ s) = value_of base (acc * base + digit_value c) s

abbrev pub IsDecimal : ℕ → Type 0
IsDecimal c = (b'0' ≤ c) × (c ≤ b'9')

pub digit_value-digit_char : (d : ℕ) → d < 16 → digit_value (digit_char d) ≡ d
digit_value-digit_char d h = ground arith

-- Decimal digits.
pub value_of-decimal :
    (room v : ℕ) (buf out : List ℕ)
    → digits_loop 10 room v buf ≡ some out
    → value_of 10 0 out ≡ value_of 10 v buf
unfolding digits_loop value_of
value_of-decimal zero v buf out e = ground arith
value_of-decimal (suc room) v buf out e =
    ground (arith, value_of-decimal room (v / 10) (digit_char (v % 10) ∷ buf) out)

pub value_of-hex :
    (room v : ℕ) (buf out : List ℕ)
    → digits_loop 16 room v buf ≡ some out
    → value_of 16 0 out ≡ value_of 16 v buf
unfolding digits_loop value_of
value_of-hex zero v buf out e = ground arith
value_of-hex (suc room) v buf out e =
    ground (arith, value_of-hex room (v / 16) (digit_char (v % 16) ∷ buf) out)

pub digits_loop-IsDecimal :
    (room v : ℕ) (buf out : List ℕ)
    → All IsDecimal buf
    → digits_loop 10 room v buf ≡ some out
    → All IsDecimal out
unfolding digits_loop
digits_loop-IsDecimal zero v buf out h e = ground arith
digits_loop-IsDecimal (suc room) v buf out h e =
    ground (arith, digits_loop-IsDecimal room (v / 10) (digit_char (v % 10) ∷ buf) out)

-- Only a numeral with a digit stands for a positive number.
pub value_of-length : (base n : ℕ) (s : List ℕ) → value_of base 0 s ≡ suc n → 0 < length s
unfolding value_of
value_of-length base n [] e = absurd (omega (arith, e))
value_of-length base n (c ∷ s) e = omega arith
