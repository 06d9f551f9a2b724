-- ===== src/CString/Search.antt =====
-- `strcmp`, `strstr` and `strrchr` of src/lib/string.c. The result pointer of a search is the
-- index into the text searched, and `NULL` is `none`; the outer `none` is a read past the object.
pub mod Compare
pub mod Occurrence
use tbs_kernel.Base.{
  ℕ, ◌+◌, Bool, true, false, not, ◌&&◌, Option, none, some, List, [], ◌∷◌, ◌>>=◌, ◌==◌,
  if◌then◌else◌,
}
use tbs_kernel.Base.Int.{ℤ, pos, ◌-ℤ◌}

unfoldable pub strcmp : List ℕ → List ℕ → Option ℤ
strcmp [] t = none
strcmp (a ∷ s) [] = none
strcmp (a ∷ s) (b ∷ t) =
    let more = strcmp s t in if not (a == 0) && (a == b) then more else some (pos a -ℤ pos b)

-- The inner loop of `strstr` and the test `!*n` after it.
matches : List ℕ → List ℕ → Option Bool
matches [] n = none
matches (a ∷ h) [] = none
matches (a ∷ h) (b ∷ n) =
    let more = matches h n in
    if not (a == 0) && not (b == 0) && (a == b) then more else some (b == 0)

-- The outer loop; `i` is `haystack` less its first value.
strstr_from : List ℕ → List ℕ → ℕ → Option (Option ℕ)
unfolding matches
strstr_from [] needle i = none
strstr_from (c ∷ hay) needle i =
    let later = strstr_from hay needle (i + 1) in
    if c == 0
    then some none
    else matches (c ∷ hay) needle >>= λ found. if found then some (some i) else later

unfoldable pub strstr : List ℕ → List ℕ → Option (Option ℕ)
unfolding strstr_from
strstr hay [] = none
strstr hay (c ∷ needle) = if c == 0 then some (some 0) else strstr_from hay (c ∷ needle) 0

-- The loop of `strrchr`; `last` is the match found so far.
strrchr_from : List ℕ → ℕ → ℕ → Option ℕ → Option (Option ℕ)
strrchr_from [] c i last = none
strrchr_from (x ∷ s) c i last =
    let last' = if x == c then some i else last in
    let more = strrchr_from s c (i + 1) last' in if x == 0 then some last' else more

unfoldable pub strrchr : List ℕ → ℕ → Option (Option ℕ)
unfolding strrchr_from
strrchr s c = strrchr_from s c 0 none
