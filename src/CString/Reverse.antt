-- ===== src/CString/Reverse.antt =====
-- `reverse` and `itoa` of src/lib/string.c. An access past the object changes nothing in `reverse`;
-- `itoa` checks the room in its object, and `none` is an overrun or a division by zero.
use tbs_kernel.Base.{
  ℕ, zero, suc, ◌+◌, ◌-◌, ◌/◌, ◌%◌, ◌^◌, Bool, false, not, ◌||◌, Option, none, some, List, [], ◌∷◌,
  ◌++◌, ltb, ◌==◌, if◌then◌else◌, length, get_or, set, drop, ◌>>=◌,
}
use tbs_kernel.Base.Int.{ℤ, pos, negsuc}

-- The three assignments with `temp`.
abbrev pub swap : ℕ → ℕ → List ℕ → List ℕ
swap i j str = set (set str i (get_or str j 0)) j (get_or str i 0)

-- `while (start < end)`; the first number bounds the rounds.
unfoldable pub reverse_loop : ℕ → ℕ → ℕ → List ℕ → List ℕ
reverse_loop zero start end_of str = str
reverse_loop (suc rounds) start end_of str =
    let rest = reverse_loop rounds (start + 1) (end_of - 1) (swap start end_of str) in
    if ltb start end_of then rest else str

-- `length - 1` is -1 for an empty text; the loop does not run then, nor with 0.
unfoldable pub reverse : List ℕ → ℕ → List ℕ
reverse str length = reverse_loop length 0 (length - 1) str

-- The character of a remainder: negative numbers have negative remainders, and a negative one is
-- not above 9.
abbrev pub rem_char : Bool → ℕ → ℕ
rem_char negative rem =
    if negative then b'0' - rem else if ltb 9 rem then rem - 10 + b'a' else rem + b'0'

-- `while (num != 0)` on the absolute value; quotients are rounded towards zero.
unfoldable pub itoa_loop : ℕ → Bool → ℕ → ℕ → List ℕ → Option (List ℕ)
itoa_loop zero negative base num written = if num == 0 then some written else none
itoa_loop (suc room) negative base num written =
    let c = rem_char negative (num % base) in
    let rest = itoa_loop room negative base (num / base) (written ++ c ∷ []) in
    if num == 0 then some written else rest

-- The terminator and the reversal, in an object of `room` bytes more than those written.
unfoldable pub finish_itoa : List ℕ → List ℕ → Option (List ℕ)
finish_itoa str written =
    if ltb (length written) (length str)
    then some (reverse (written ++ 0 ∷ drop (length written + 1) str) (length written))
    else none

-- `-num` is `INT_MIN` for `INT_MIN`.
abbrev pub int_min_size : ℕ
int_min_size = 2 ^ 31

unfoldable pub itoa : ℤ → List ℕ → ℕ → Option (List ℕ)
itoa (pos zero) str base = finish_itoa str (b'0' ∷ [])
itoa (pos (suc n)) str base =
    if base == 0
    then none
    else itoa_loop (length str) false base (suc n) [] >>= λ written. finish_itoa str written
itoa (negsuc n) str base =
    let still_negative = not (base == 10) || suc n == int_min_size in
    let sign = if base == 10 then b'-' ∷ [] else [] in
    if base == 0
    then none
    else itoa_loop (length str) still_negative base (suc n) [] >>= λ written.
        finish_itoa str (written ++ sign)
