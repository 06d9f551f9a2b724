-- ===== src/Examples/Text.antt =====
-- src/lib/string.c on concrete texts.
use tbs_kernel.CString.Copy.Bounds.{IsText}
use tbs_kernel.CString.Search.Occurrence.{strstr-first, first_occurrence}
use tbs_kernel.Base.{ℕ, ◌≤◌, ◌≡◌, some, List, [], ◌∷◌, ◌++◌, arith, length}
use tbs_kernel.CString.Search.{strstr}
use tbs_kernel.CString.Numerals.{int_to_str}
use tbs_kernel.CString.Atoi.{atoi, int_max, int_min}
use tbs_kernel.Base.Int.{pos, negsuc}
use tbs_kernel.CString.Numerals.Value.{value_of}
use tbs_kernel.CString.Atoi.RoundTrip.{atoi-int_to_str, atoi_saturates}

abbrev tty_path : List ℕ
tty_path = b't' ∷ b't' ∷ b'y' ∷ []

abbrev board : List ℕ
board = 9 ∷ 9 ∷ 9 ∷ 9 ∷ 9 ∷ []

tty_path-IsText : IsText tty_path
tty_path-IsText = ground arith

strstr-first_example :
    strstr (tty_path ++ 0 ∷ []) (b't' ∷ b'y' ∷ 0 ∷ [])
    ≡ some (first_occurrence tty_path (b't' ∷ b'y' ∷ []) 0)
strstr-first_example = strstr-first tty_path (b't' ∷ b'y' ∷ []) [] [] tty_path-IsText (ground arith)

atoi-int_to_str_example :
    (s : List ℕ) × (int_to_str (negsuc 41) ≡ some s)
    × (length s ≤ 11)
    × (atoi (s ++ 0 ∷ []) ≡ some (negsuc 41))
atoi-int_to_str_example =
    atoi-int_to_str (negsuc 41) [] (record { upper = omega arith; lower = omega arith })

abbrev large : List ℕ
large = b'9' ∷ b'9' ∷ b'9' ∷ b'9' ∷ b'9' ∷ b'9' ∷ b'9' ∷ b'9' ∷ b'9' ∷ b'9' ∷ []

atoi_saturates_example :
    (atoi (large ++ 0 ∷ []) ≡ some (pos int_max))
    × (atoi (b'+' ∷ (large ++ 0 ∷ [])) ≡ some (pos int_max))
    × (atoi (b'-' ∷ (large ++ 0 ∷ [])) ≡ some int_min)
unfolding value_of
atoi_saturates_example = atoi_saturates large (0 ∷ []) (ground arith) (omega arith)
