-- ===== src/CString/Numerals.antt =====
-- The number printers of src/lib/string.c. The digits go to a local buffer, last digit first, and
-- come out in reverse: the buffer is the list of its bytes, the one written last in front, so the
-- output is that list. A write past the buffer is `none`; the returned count is the list's length.
pub mod Value
pub mod Room
pub mod Hex
use tbs_kernel.Base.{
  ℕ, zero, suc, ◌+◌, ◌-◌, ◌/◌, ◌%◌, ◌^◌, Option, none, some, List, [], ◌∷◌, ◌++◌, ◌>>=◌, ltb, ◌==◌,
  Bool, true, false, ◌&&◌, if◌then◌else◌, length,
}
use tbs_kernel.Base.Int.{ℤ, pos, negsuc, pos_part}

-- `buf[i++] = c` in a buffer of `cap` bytes.
abbrev pub put_char : ℕ → List ℕ → ℕ → Option (List ℕ)
put_char cap buf c = if ltb (length buf) cap then some (c ∷ buf) else none

-- The characters `'0' + d` and, from ten on, `'a' + d - 10`.
abbrev pub digit_char : ℕ → ℕ
digit_char d = if ltb d 10 then b'0' + d else b'a' + d - 10

-- `while (value > 0) { buf[i++] = digit(value % base); value /= base; }`. The number is the room
-- left in the buffer. `value & 0xF` and `value >>= 4` are the rest and the quotient by 16.
unfoldable pub digits_loop : ℕ → ℕ → ℕ → List ℕ → Option (List ℕ)
digits_loop base zero value buf = if value == 0 then some buf else none
digits_loop base (suc room) value buf =
    let rest = digits_loop base room (value / base) (digit_char (value % base) ∷ buf) in
    if value == 0 then some buf else rest

-- `-value` in two's complement at a width of `bits`: the least number is its own negation.
abbrev pub negate : ℕ → ℤ → ℤ
negate bits (pos zero) = pos zero
negate bits (pos (suc n)) = negsuc n
negate bits (negsuc n) = if n == 2 ^ (bits - 1) - 1 then negsuc n else pos (suc n)

abbrev pub is_negative : ℤ → Bool
is_negative (pos n) = false
is_negative (negsuc n) = true

-- The two signed printers, by the width of the number and the size of `buf`.
unfoldable pub signed_to_str : ℕ → ℕ → ℤ → Option (List ℕ)
signed_to_str bits cap (pos zero) = some (b'0' ∷ [])
signed_to_str bits cap (pos (suc n)) = digits_loop 10 cap (suc n) []
signed_to_str bits cap (negsuc n) = do
  buf ← digits_loop 10 cap (pos_part (negate bits (negsuc n))) []
  put_char cap buf b'-'

unfoldable pub int_to_str : ℤ → Option (List ℕ)
unfolding signed_to_str
int_to_str value = signed_to_str 32 16 value

unfoldable pub i64_to_str : ℤ → Option (List ℕ)
unfolding signed_to_str
i64_to_str value = signed_to_str 64 32 value

unfoldable pub uint_to_str : ℕ → Option (List ℕ)
uint_to_str value = if value == 0 then some (b'0' ∷ []) else digits_loop 10 16 value []

unfoldable pub u64_to_str : ℕ → Option (List ℕ)
u64_to_str value = if value == 0 then some (b'0' ∷ []) else digits_loop 10 32 value []

-- `while (i < width) buf[i++] = '0'`; the first number is `width - i`.
unfoldable pub pad_loop : ℕ → ℕ → List ℕ → Option (List ℕ)
pad_loop cap zero buf = some buf
pad_loop cap (suc n) buf = if ltb (length buf) cap then pad_loop cap n (b'0' ∷ buf) else none

unfoldable pub hex_to_str : ℕ → ℕ → ℕ → Option (List ℕ)
hex_to_str cap value width = do
  buf ← if value == 0 then put_char cap [] b'0' else digits_loop 16 cap value []
  pad_loop cap (width - length buf) buf

unfoldable pub hex32_to_str : ℕ → ℕ → Option (List ℕ)
unfolding hex_to_str
hex32_to_str value width = hex_to_str 16 value width

unfoldable pub hex64_to_str : ℕ → ℕ → Option (List ℕ)
unfolding hex_to_str
hex64_to_str value width = hex_to_str 32 value width

-- `write_hex` of `strconcat`: the padding goes straight to the output. `while (pos < width)
-- { *out++ = '0'; width--; }` writes `width - pos` zeros.
zeros_loop : ℕ → List ℕ → List ℕ
zeros_loop zero out = out
zeros_loop (suc n) out = zeros_loop n (out ++ b'0' ∷ [])

unfoldable pub write_hex : List ℕ → ℕ → ℕ → Option (List ℕ)
unfolding zeros_loop
write_hex out value width =
    if value == 0 && width == 0
    then some (out ++ b'0' ∷ [])
    else do buf ← digits_loop 16 32 value []; some (zeros_loop (width - length buf) out ++ buf)

unfoldable pub write_int : List ℕ → ℤ → Option (List ℕ)
write_int out (pos zero) = some (out ++ b'0' ∷ [])
write_int out (pos (suc n)) = do buf ← digits_loop 10 32 (suc n) []; some (out ++ buf)
write_int out (negsuc n) = do
  buf ← digits_loop 10 32 (pos_part (negate 64 (negsuc n))) []
  some ((out ++ b'-' ∷ []) ++ buf)
