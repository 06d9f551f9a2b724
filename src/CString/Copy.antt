-- ===== src/CString/Copy.antt =====
-- `strlen`, `strcpy` and `strncpy` of src/lib/string.c.
pub mod Bounds
use tbs_kernel.Base.{
  ℕ, zero, suc, ◌+◌, Option, none, some, List, [], ◌∷◌, ◌>>=◌, ◌==◌, if◌then◌else◌,
}

-- The loop `while (str[length] != '\0') length++`.
strlen_from : List ℕ → ℕ → Option ℕ
strlen_from [] len = none
strlen_from (c ∷ str) len = if c == 0 then some len else strlen_from str (len + 1)

unfoldable pub strlen : List ℕ → Option ℕ
unfolding strlen_from
strlen str = strlen_from str 0

-- The result is the object behind `dest` after the copy.
unfoldable pub strcpy : List ℕ → List ℕ → Option (List ℕ)
strcpy [] src = none
strcpy (d ∷ dest) [] = none
strcpy (d ∷ dest) (c ∷ src) =
    if c == 0 then some (0 ∷ dest) else do rest ← strcpy dest src; some (c ∷ rest)

-- The second loop of `strncpy`, `while (n--) *d++ = '\0'`.
pad_zeros : ℕ → List ℕ → Option (List ℕ)
pad_zeros zero dest = some dest
pad_zeros (suc n) [] = none
pad_zeros (suc n) (d ∷ dest) = do rest ← pad_zeros n dest; some (0 ∷ rest)

-- The first loop, `while (n && (*d++ = *src++)) n--`: at the terminator it stops behind the byte
-- that it wrote, and leaves `n` as it was.
unfoldable pub strncpy : List ℕ → List ℕ → ℕ → Option (List ℕ)
unfolding pad_zeros
strncpy dest src zero = some dest
strncpy [] src (suc n) = none
strncpy (d ∷ dest) [] (suc n) = none
strncpy (d ∷ dest) (c ∷ src) (suc n) =
    let stop = pad_zeros (suc n) dest >>= λ rest. some (0 ∷ rest) in
    let copy = strncpy dest src n >>= λ rest. some (c ∷ rest) in if c == 0 then stop else copy
