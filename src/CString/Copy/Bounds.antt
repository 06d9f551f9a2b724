-- ===== src/CString/Copy/Bounds.antt =====
-- How many bytes `strlen`, `strcpy` and `strncpy` of src/lib/string.c read and write.
use tbs_kernel.Base.{
  ℕ, zero, suc, ◌+◌, ◌-◌, ◌≤◌, ◌<◌, ◌≡◌, ◌≢◌, refl, none, some, List, [], ◌∷◌, ◌++◌, arith, All,
  length, take, drop, replicate,
}
use tbs_kernel.CString.Copy.{strlen_from, strlen, strcpy, pad_zeros, strncpy}

-- A text: no byte of it is the terminator.
abbrev pub IsText : List ℕ → Type 0
IsText = All (λ c. c ≢ 0)

strlen_from-length :
    (s rest : List ℕ) (n : ℕ) → IsText s → strlen_from (s ++ 0 ∷ rest) n ≡ some (n + length s)
unfolding strlen_from
strlen_from-length [] rest n t = ground arith
strlen_from-length (c ∷ s) rest n t = ground (arith, strlen_from-length s rest (n + 1) t.1)

pub strlen-length : (s rest : List ℕ) → IsText s → strlen (s ++ 0 ∷ rest) ≡ some (length s)
unfolding strlen
strlen-length s rest t = ground (arith, strlen_from-length s rest 0 t)

-- A text and its terminator that fit into the object `dest` are written to its start, and the rest
-- of the object stays as it is.
pub strcpy-fits :
    (dest s rest : List ℕ)
    → IsText s
    → length s < length dest
    → strcpy dest (s ++ 0 ∷ rest) ≡ some (s ++ 0 ∷ drop (suc (length s)) dest)
unfolding strcpy
strcpy-fits [] s rest t h = absurd (omega arith)
strcpy-fits (d ∷ dest) [] rest t h = refl
strcpy-fits (d ∷ dest) (c ∷ s) rest t h = ground (arith, strcpy-fits dest s rest t.1)

-- Into an object with no room for the terminator `strcpy` writes past the end.
pub strcpy-overflow :
    (dest s rest : List ℕ) → IsText s → length dest ≤ length s → strcpy dest (s ++ 0 ∷ rest) ≡ none
unfolding strcpy
strcpy-overflow [] s rest t h = refl
strcpy-overflow (d ∷ dest) [] rest t h = absurd (omega arith)
strcpy-overflow (d ∷ dest) (c ∷ s) rest t h = ground (arith, strcpy-overflow dest s rest t.1)

pad_zeros-fits :
    (n : ℕ) (dest : List ℕ)
    → n ≤ length dest
    → pad_zeros n dest ≡ some (replicate n 0 ++ drop n dest)
unfolding pad_zeros
pad_zeros-fits zero dest h = refl
pad_zeros-fits (suc n) [] h = absurd (omega arith)
pad_zeros-fits (suc n) (d ∷ dest) h = ground (arith, pad_zeros-fits n dest)

pad_zeros-overflow : (n : ℕ) (dest : List ℕ) → length dest < n → pad_zeros n dest ≡ none
unfolding pad_zeros
pad_zeros-overflow zero dest h = absurd (omega arith)
pad_zeros-overflow (suc n) [] h = refl
pad_zeros-overflow (suc n) (d ∷ dest) h = ground (arith, pad_zeros-overflow n dest)

-- A text of at least `n` bytes is cut to its first `n`, with no terminator.
pub strncpy-cut :
    (dest s rest : List ℕ) (n : ℕ)
    → IsText s
    → n ≤ length s
    → n ≤ length dest
    → strncpy dest (s ++ 0 ∷ rest) n ≡ some (take n s ++ drop n dest)
unfolding strncpy
strncpy-cut dest s rest zero t h k = refl
strncpy-cut [] s rest (suc n) t h k = absurd (omega arith)
strncpy-cut (d ∷ dest) [] rest (suc n) t h k = absurd (omega arith)
strncpy-cut (d ∷ dest) (c ∷ s) rest (suc n) t h k = ground (arith, strncpy-cut dest s rest n t.1)

-- A text shorter than `n` is copied and padded with zeros to `n + 1` bytes, one more than asked.
pub strncpy-pads :
    (dest s rest : List ℕ) (n : ℕ)
    → IsText s
    → length s < n
    → n < length dest
    → strncpy dest (s ++ 0 ∷ rest) n
      ≡ some (s ++ (replicate (suc n - length s) 0 ++ drop (suc n) dest))
unfolding strncpy
strncpy-pads dest s rest zero t h k = absurd (omega arith)
strncpy-pads [] s rest (suc n) t h k = absurd (omega arith)
strncpy-pads (d ∷ dest) [] rest (suc n) t h k = ground (arith, pad_zeros-fits (suc n) dest)
strncpy-pads (d ∷ dest) (c ∷ s) rest (suc n) t h k = ground (arith, strncpy-pads dest s rest n t.1)

-- So an object of exactly the `n` bytes that the caller names is overrun by every shorter text.
pub strncpy-overrun :
    (dest s rest : List ℕ)
    → IsText s
    → length s < length dest
    → strncpy dest (s ++ 0 ∷ rest) (length dest) ≡ none
unfolding strncpy
strncpy-overrun [] s rest t h = absurd (omega arith)
strncpy-overrun (d ∷ dest) [] rest t h = ground (arith, pad_zeros-overflow (suc (length dest)) dest)
strncpy-overrun (d ∷ dest) (c ∷ s) rest t h = ground (arith, strncpy-overrun dest s rest t.1)
