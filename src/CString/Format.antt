-- ===== src/CString/Format.antt =====
-- `strconcat` of src/lib/string.c: a format with its arguments to a text. The output has room for
-- everything; a read past the end of the format, or an argument of another kind, is `none`.
pub mod Directives
use tbs_kernel.CString.Numerals.{write_int, write_hex}
use tbs_kernel.CString.Atoi.{is_digit}
use tbs_kernel.Base.{
  ℕ, zero, suc, ◌+◌, ◌-◌, ◌*◌, ◌/◌, ◌%◌, ◌^◌, ◌≤◌, ◌<◌, ◌≡◌, refl, sym, ap, ap₂, ◌∙◌, ◌≢◌, ◌↔◌, ◌⊎◌,
  inl, inr, Bool, true, false, not, ◌&&◌, ◌||◌, Option, none, some, List, [], ◌∷◌, ◌++◌, append-nil,
  append_assoc, arith, dec_lt, ℕ_discrete, ltb, leb, ◌==◌, if◌then◌else◌, ltb→lt, lt→ltb, ==_iff,
  Bool-cases, Option-cases, length, get_elem?, get_or, set, take, drop, replicate, length-append,
  length-set, get_or-set_self, get_or-set_ne, ◌>>=◌, All, All-append,
}
use tbs_kernel.Base.Int.{ℤ, pos, negsuc}

-- What `va_arg` can give: an `int` or `long long`, an unsigned word, a text.
pub data Arg : Type 0 where
  signed : ℤ → Arg
  word : ℕ → Arg
  text : List ℕ → Arg

-- The loop of `write_str`.
unfoldable pub write_str : List ℕ → List ℕ → Option (List ℕ)
write_str out [] = none
write_str out (c ∷ s) = let more = write_str (out ++ c ∷ []) s in if c == 0 then some out else more

-- `while (fmt[i] >= '0' && fmt[i] <= '9')`: the width and what is left of the format.
unfoldable pub read_width : ℕ → List ℕ → ℕ × List ℕ
read_width width [] = (width, [])
read_width width (c ∷ fmt) =
    if is_digit c then read_width (width * 10 + c - b'0') fmt else (width, c ∷ fmt)

-- `if (fmt[i] == '0')`
unfoldable pub take_width : List ℕ → ℕ × List ℕ
take_width [] = (0, [])
take_width (c ∷ fmt) = if c == b'0' then read_width 0 fmt else (0, c ∷ fmt)

-- `%ll`; the flag decides only which `va_arg` is read, and an argument here is one value of any width.
unfoldable pub skip_ll : List ℕ → List ℕ
skip_ll [] = []
skip_ll (c ∷ []) = c ∷ []
skip_ll (c ∷ d ∷ fmt) = if c == b'l' && d == b'l' then fmt else c ∷ d ∷ fmt

-- `(char)` of an `int`.
abbrev pub low_byte : ℤ → ℕ
low_byte (pos n) = n % 256
low_byte (negsuc n) = 255 - n % 256

-- `case 'd'`, `case 'x'`, `case 's'` and `case 'c'`.
unfoldable pub write_signed : List Arg → List ℕ → Option (List Arg × List ℕ)
write_signed (signed z ∷ args) out = do out' ← write_int out z; some (args, out')
write_signed _ out = none

unfoldable pub write_word : ℕ → List Arg → List ℕ → Option (List Arg × List ℕ)
write_word width (word v ∷ args) out = do out' ← write_hex out v width; some (args, out')
write_word width _ out = none

unfoldable pub write_text : List Arg → List ℕ → Option (List Arg × List ℕ)
write_text (text s ∷ args) out = do out' ← write_str out s; some (args, out')
write_text _ out = none

unfoldable pub write_char : List Arg → List ℕ → Option (List Arg × List ℕ)
write_char (signed z ∷ args) out = some (args, out ++ low_byte z ∷ [])
write_char _ out = none

-- The `switch`; `%u` takes no argument and writes nothing.
unfoldable pub write_directive : ℕ → ℕ → List Arg → List ℕ → Option (List Arg × List ℕ)
write_directive width c args out =
    if c == b'd'
    then write_signed args out
    else if c == b'u'
    then some (args, out)
    else if c == b'x'
    then write_word width args out
    else if c == b's'
    then write_text args out
    else if c == b'c'
    then write_char args out
    else if c == b'%'
    then some (args, out ++ b'%' ∷ [])
    else some (args, out ++ b'%' ∷ c ∷ [])

-- The `for` loop; every round takes a byte of the format, whose length is fuel enough.
unfoldable pub format_loop : ℕ → List ℕ → List Arg → List ℕ → Option (List ℕ)
format_loop zero fmt args out = none
format_loop (suc fuel) [] args out = none
format_loop (suc fuel) (c ∷ fmt) args out =
    if c == 0
    then some (out ++ 0 ∷ [])
    else if not (c == b'%')
    then format_loop fuel fmt args (out ++ c ∷ [])
    else (let (width, behind) = take_width fmt in
        elim (skip_ll behind) [
          | [] ↦ none
          | d ∷ rest ↦
              write_directive width d args out >>= λ (args', out'). format_loop fuel rest args' out'
        ])

unfoldable pub strconcat : List ℕ → List Arg → Option (List ℕ)
strconcat fmt args = format_loop (length fmt) fmt args []
