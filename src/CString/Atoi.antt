-- ===== src/CString/Atoi.antt =====
-- `atoi` of src/lib/string.c, on the object behind `str`; a read past its end is `none`.
use tbs_kernel.Base.{
  ℕ, Bool, List, leb, Option, ◌&&◌, none, zero, suc, ◌+◌, ◌-◌, ◌*◌, ◌/◌, ◌%◌, ◌^◌, ◌≤◌, ◌<◌, ◌≡◌,
  refl, sym, ap, ◌∙◌, ◌≢◌, ◌↔◌, ◌⊎◌, inl, inr, true, false, not, ◌||◌, some, [], ◌∷◌, ◌++◌,
  append-nil, append_assoc, arith, dec_lt, ℕ_discrete, ltb, ◌==◌, if◌then◌else◌, ltb→lt, lt→ltb,
  ==_iff, Bool-cases, Option-cases, length, get_elem?, get_or, set, take, drop, replicate,
  length-append, length-set, get_or-set_self, get_or-set_ne, ◌>>=◌, All, All-append,
}
use tbs_kernel.Base.Int.{ℤ, negsuc, pos}
pub mod RoundTrip

-- `c >= '0' && c <= '9'`. A byte above 127 is negative as a `char`, and fails as it does here.
abbrev pub is_digit : ℕ → Bool
is_digit c = leb b'0' c && leb c b'9'

abbrev pub int_max : ℕ
int_max = 0x7FFF_FFFF

abbrev pub int_min : ℤ
int_min = negsuc 0x7FFF_FFFF

-- `sign * result`; `neg` says that `sign` is -1.
abbrev pub apply_sign : Bool → ℕ → ℤ
apply_sign false r = pos r
apply_sign true zero = pos zero
apply_sign true (suc r) = negsuc r

-- The digit loop; its guard keeps `result * 10 + digit` from overflowing.
atoi_digits : List ℕ → Bool → ℕ → Option ℤ
atoi_digits [] neg result = none
atoi_digits (c ∷ str) neg result =
    let more = atoi_digits str neg (result * 10 + (c - b'0')) in
    if is_digit c
    then (if ltb ((int_max - (c - b'0')) / 10) result
        then some (if neg then int_min else pos int_max)
        else more)
    else some (apply_sign neg result)

atoi_sign : List ℕ → Option ℤ
unfolding atoi_digits
atoi_sign [] = none
atoi_sign (c ∷ str) =
    if c == b'-'
    then atoi_digits str true 0
    else if c == b'+'
    then atoi_digits str false 0
    else atoi_digits (c ∷ str) false 0

unfoldable pub atoi : List ℕ → Option ℤ
unfolding atoi_sign
atoi [] = none
atoi (c ∷ str) = let more = atoi str in if c == b' ' then more else atoi_sign (c ∷ str)
