-- ===== src/CString/Format/Directives.antt =====
-- What `strconcat` of src/lib/string.c makes of literal text and of a directive.
use tbs_kernel.Base.Int.{negsuc, ℤ, pos_part, pos, neg_part}
use tbs_kernel.CString.Numerals.Value.{value_of, IsDecimal}
use tbs_kernel.Base.{ℕ, suc, ◌≡◌, ◌≢◌, List, [], ◌∷◌, ◌++◌, length, All, ◌^◌, ◌<◌}
use tbs_kernel.CString.Format.{word, text, signed, Arg}

-- Text without a directive or a terminator.
abbrev pub IsLiteral : List ℕ → Type 0
IsLiteral = All (λ c. (c ≢ 0) × (c ≢ b'%'))

-- A directive with its argument; `%u` takes none.
pub data Directive : Type 0 where
  percent : Directive
  unsigned : Directive
  character : ℕ → Directive
  string : List ℕ → List ℕ → Directive
  decimal : ℤ → Directive
  hexadecimal : ℕ → Directive

abbrev pub letter_of : Directive → ℕ
letter_of percent = b'%'
letter_of unsigned = b'u'
letter_of (character n) = b'c'
letter_of (string u behind) = b's'
letter_of (decimal z) = b'd'
letter_of (hexadecimal v) = b'x'

-- The argument of `%s` is a text with its terminator and what stands behind it.
abbrev pub args_of : Directive → List Arg
args_of percent = []
args_of unsigned = []
args_of (character n) = signed (pos n) ∷ []
args_of (string u behind) = text (u ++ 0 ∷ behind) ∷ []
args_of (decimal z) = signed z ∷ []
args_of (hexadecimal v) = word v ∷ []

-- The argument is a byte, a text, or a 64-bit number, the least one excluded.
abbrev pub IsArgument : Directive → Type 0
IsArgument percent = Unit
IsArgument unsigned = Unit
IsArgument (character n) = n < 256
IsArgument (string u behind) = All (λ c. c ≢ 0) u
IsArgument (decimal z) = (pos_part z < 2 ^ 63) × (neg_part z < 2 ^ 63)
IsArgument (hexadecimal v) = v < 2 ^ 64

-- A decimal numeral.
abbrev pub IsNumeral : ℕ → List ℕ → Type 0
IsNumeral n s = All IsDecimal s × (value_of 10 0 s ≡ n) × (0 < length s)

-- What the directive writes.
abbrev pub IsWritten : Directive → List ℕ → Type 0
IsWritten percent out = out ≡ b'%' ∷ []
IsWritten unsigned out = out ≡ []
IsWritten (character n) out = out ≡ n ∷ []
IsWritten (string u behind) out = out ≡ u
IsWritten (decimal (pos n)) out = IsNumeral n out
IsWritten (decimal (negsuc n)) out = (s : List ℕ) × (out ≡ b'-' ∷ s) × IsNumeral (suc n) s
IsWritten (hexadecimal v) out = (value_of 16 0 out ≡ v) × (0 < length out)
