-- ===== src/CString/Search/Compare.antt =====
-- What `strcmp` of src/lib/string.c decides about two terminated texts.
use tbs_kernel.Base.{ℕ, ◌≡◌, refl, ◌↔◌, some, List, [], ◌∷◌, ◌++◌, arith, ◌==◌, if◌then◌else◌}
use tbs_kernel.Base.Int.{ℤ, pos, ◌-ℤ◌}
use tbs_kernel.CString.Copy.Bounds.{IsText}
use tbs_kernel.CString.Search.{strcmp}

-- The order of dictionaries on bytes: negative, zero or positive. The first difference counts, and
-- a text that ends is below one that goes on.
unfoldable pub lexicographic : List ℕ → List ℕ → ℤ
lexicographic [] [] = pos 0
lexicographic [] (b ∷ t) = pos 0 -ℤ pos b
lexicographic (a ∷ s) [] = pos a
lexicographic (a ∷ s) (b ∷ t) = if a == b then lexicographic s t else pos a -ℤ pos b

strcmp-lexicographic :
    (s t p q : List ℕ)
    → IsText s
    → IsText t
    → strcmp (s ++ 0 ∷ p) (t ++ 0 ∷ q) ≡ some (lexicographic s t)
unfolding strcmp lexicographic
strcmp-lexicographic [] [] p q hs ht = refl
strcmp-lexicographic [] (b ∷ t) p q hs ht = ground arith
strcmp-lexicographic (a ∷ s) [] p q hs ht = ground arith
strcmp-lexicographic (a ∷ s) (b ∷ t) p q hs ht =
    ground (arith, strcmp-lexicographic s t p q hs.1 ht.1)

lexicographic-zero : (s t : List ℕ) → IsText s → IsText t → lexicographic s t ≡ pos 0 → s ≡ t
unfolding lexicographic
lexicographic-zero [] [] hs ht e = refl
lexicographic-zero [] (b ∷ t) hs ht e = absurd (ht.0 (ground arith))
lexicographic-zero (a ∷ s) [] hs ht e = absurd (hs.0 (ground arith))
lexicographic-zero (a ∷ s) (b ∷ t) hs ht e = ground (arith, lexicographic-zero s t hs.1 ht.1)

lexicographic_self : (s : List ℕ) → lexicographic s s ≡ pos 0
unfolding lexicographic
lexicographic_self [] = refl
lexicographic_self (a ∷ s) = ground (arith, lexicographic_self s)

lexicographic_swap : (s t : List ℕ) → lexicographic t s ≡ pos 0 -ℤ lexicographic s t
unfolding lexicographic
lexicographic_swap [] [] = refl
lexicographic_swap [] (b ∷ t) = ground arith
lexicographic_swap (a ∷ s) [] = ground arith
lexicographic_swap (a ∷ s) (b ∷ t) = ground (arith, lexicographic_swap s t)

-- `strcmp` of two terminated texts returns 0 exactly if they are the same text; it returns the
-- dictionary order of their bytes, and the negated value with its arguments swapped.
pub strcmp-decides :
    (s t p q : List ℕ)
    → IsText s
    → IsText t
    → ((strcmp (s ++ 0 ∷ p) (t ++ 0 ∷ q) ≡ some (pos 0)) ↔ (s ≡ t))
      × (strcmp (s ++ 0 ∷ p) (t ++ 0 ∷ q) ≡ some (lexicographic s t))
      × (strcmp (t ++ 0 ∷ q) (s ++ 0 ∷ p) ≡ some (pos 0 -ℤ lexicographic s t))
strcmp-decides s t p q hs ht = (
  (
    λ e. lexicographic-zero s t hs ht (ground (arith, strcmp-lexicographic s t p q hs ht)),
    λ e. ground (arith, strcmp-lexicographic s t p q hs ht, lexicographic_self s),
  ),
  strcmp-lexicographic s t p q hs ht,
  ground (arith, strcmp-lexicographic t s q p ht hs, lexicographic_swap s t),
)
