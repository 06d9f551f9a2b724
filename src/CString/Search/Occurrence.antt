-- ===== src/CString/Search/Occurrence.antt =====
-- What `strrchr` and `strstr` of src/lib/string.c find.
use tbs_kernel.Base.{
  ℕ, ◌+◌, ◌≡◌, ◌≢◌, refl, Option, none, some, List, [], ◌∷◌, ◌++◌, arith, All, length, Bool, true,
  false, ◌==◌, if◌then◌else◌, ◌&&◌,
}
use tbs_kernel.CString.Copy.Bounds.{IsText}
use tbs_kernel.CString.Search.{matches, strstr_from, strstr, strrchr_from, strrchr}

-- The index of the last `c`, counted from `i`.
unfoldable pub last_index : List ℕ → ℕ → ℕ → Option ℕ → Option ℕ
last_index [] c i last = last
last_index (x ∷ s) c i last = last_index s c (i + 1) (if x == c then some i else last)

strrchr_from-last :
    (s rest : List ℕ) (c i : ℕ) (last : Option ℕ)
    → IsText s
    → c ≢ 0
    → strrchr_from (s ++ 0 ∷ rest) c i last ≡ some (last_index s c i last)
unfolding strrchr_from last_index
strrchr_from-last [] rest c i last t h = ground arith
strrchr_from-last (x ∷ s) rest c i last t h =
    ground (arith, strrchr_from-last s rest c (i + 1) (if x == c then some i else last) t.1 h)

last_index-absent :
    (s : List ℕ) (c i : ℕ) (last : Option ℕ) → All (λ x. x ≢ c) s → last_index s c i last ≡ last
unfolding last_index
last_index-absent [] c i last h = refl
last_index-absent (x ∷ s) c i last h = ground (arith, last_index-absent s c (i + 1) last h.1)

last_index-split :
    (a b : List ℕ) (c i : ℕ) (last : Option ℕ)
    → All (λ x. x ≢ c) b
    → last_index (a ++ c ∷ b) c i last ≡ some (i + length a)
unfolding last_index
last_index-split [] b c i last h = ground (arith, last_index-absent b c (i + 1) (some i) h)
last_index-split (x ∷ a) b c i last h =
    ground (arith, last_index-split a b c (i + 1) (if x == c then some i else last) h)

-- `strrchr` for a character other than the terminator returns the index of its last occurrence.
pub strrchr-last :
    (a b rest : List ℕ) (c : ℕ)
    → IsText (a ++ c ∷ b)
    → All (λ x. x ≢ c) b
    → c ≢ 0
    → strrchr ((a ++ c ∷ b) ++ 0 ∷ rest) c ≡ some (some (length a))
unfolding strrchr
strrchr-last a b rest c t h n =
    ground
      (arith, strrchr_from-last (a ++ c ∷ b) rest c 0 none t n, last_index-split a b c 0 none h)

pub strrchr-absent :
    (s rest : List ℕ) (c : ℕ)
    → IsText s
    → All (λ x. x ≢ c) s
    → c ≢ 0
    → strrchr (s ++ 0 ∷ rest) c ≡ some none
unfolding strrchr
strrchr-absent s rest c t h n =
    ground (arith, strrchr_from-last s rest c 0 none t n, last_index-absent s c 0 none h)

-- Whether `needle` is a prefix of the text.
unfoldable pub is_prefix : List ℕ → List ℕ → Bool
is_prefix [] s = true
is_prefix (b ∷ n) [] = false
is_prefix (b ∷ n) (a ∷ s) = (a == b) && is_prefix n s

-- The first place from `i` on at which `needle` stands in the text.
unfoldable pub first_occurrence : List ℕ → List ℕ → ℕ → Option ℕ
first_occurrence [] needle i = none
first_occurrence (a ∷ s) needle i =
    if is_prefix needle (a ∷ s) then some i else first_occurrence s needle (i + 1)

matches-is_prefix :
    (s needle p q : List ℕ)
    → IsText s
    → IsText needle
    → matches (s ++ 0 ∷ p) (needle ++ 0 ∷ q) ≡ some (is_prefix needle s)
unfolding matches is_prefix
matches-is_prefix [] [] p q hs hn = refl
matches-is_prefix [] (b ∷ needle) p q hs hn = ground arith
matches-is_prefix (a ∷ s) [] p q hs hn = ground arith
matches-is_prefix (a ∷ s) (b ∷ needle) p q hs hn =
    ground (arith, matches-is_prefix s needle p q hs.1 hn.1)

strstr_from-first :
    (s needle p q : List ℕ) (i : ℕ)
    → IsText s
    → IsText needle
    → strstr_from (s ++ 0 ∷ p) (needle ++ 0 ∷ q) i ≡ some (first_occurrence s needle i)
unfolding strstr_from first_occurrence
strstr_from-first [] needle p q i hs hn = refl
strstr_from-first (a ∷ s) needle p q i hs hn = ground (
  arith,
  matches-is_prefix (a ∷ s) needle p q hs hn,
  strstr_from-first s needle p q (i + 1) hs.1 hn,
)

-- `strstr` returns the first place in the haystack at which the needle stands, the haystack itself
-- for an empty needle, and `NULL` where there is none.
pub strstr-first :
    (s needle p q : List ℕ)
    → IsText s
    → IsText needle
    → strstr (s ++ 0 ∷ p) (needle ++ 0 ∷ q)
      ≡ some (if length needle == 0 then some 0 else first_occurrence s needle 0)
unfolding strstr
strstr-first s [] p q hs hn = refl
strstr-first s (b ∷ needle) p q hs hn = ground (arith, strstr_from-first s (b ∷ needle) p q 0 hs hn)
