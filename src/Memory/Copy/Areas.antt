-- ===== src/Memory/Copy/Areas.antt =====
-- What the copies of src/lib/memory.c leave in the array.
use tbs_kernel.Base.{
  ℕ, zero, suc, ◌+◌, ◌-◌, ◌≤◌, ◌<◌, ◌≡◌, sym, ◌∙◌, ◌≢◌, ◌⊎◌, inl, inr, Bool, true, false, ◌&&◌,
  ◌||◌, List, arith, ℕ_discrete, ltb, leb, ◌==◌, if◌then◌else◌, Bool-cases, length, get_or, set,
  length-set, get_or-set_self, get_or-set_ne,
}
use tbs_kernel.Memory.Copy.{copy_up, copy_down, memcpy, memmove}

-- Byte `j` lies in the area of `n` bytes at `d`.
abbrev pub in_area : ℕ → ℕ → ℕ → Bool
in_area d n j = leb d j && ltb j (d + n)

copy_up-get :
    (n d s : ℕ) (bytes : List ℕ) (j : ℕ)
    → d < s ⊎ s + n ≤ d
    → d + n ≤ length bytes
    → get_or (copy_up n d s bytes) j 0
      ≡ (if in_area d n j then get_or bytes (s + j - d) 0 else get_or bytes j 0)
unfolding copy_up
copy_up-get zero d s bytes j apart fits = ground arith
copy_up-get (suc n) d s bytes j apart fits =
    let v : ℕ = get_or bytes s 0 in
    let later = copy_up-get n (d + 1) (s + 1) (set bytes d v) j in
    let rest = later (ground arith) (omega (arith, length-set bytes d v)) in
    elim (Bool-cases (in_area (d + 1) n j)) [
      | inl inside ↦
          let low : d + 1 ≤ j = ground arith in
          let high : j < d + 1 + n = ground arith in
          let index : s + 1 + j - (d + 1) ≡ s + j - d = omega arith in
          let all : in_area d (suc n) j ≡ true = ground arith in
          let ne : d ≢ s + j - d = ground arith in
          rw (all, ← index) ((rw inside at rest) ∙ get_or-set_ne bytes v 0 (rw index ne))
      | inr outside ↦ elim (ℕ_discrete d j) [
        | yes same ↦
            let index : s + j - d ≡ s = omega arith in
            let all : in_area d (suc n) j ≡ true = ground arith in
            let at_j : get_or (set bytes d v) j 0 ≡ v =
              rw (← same) (get_or-set_self bytes d v 0 (omega arith)) in
            rw (all, index) ((rw outside at rest) ∙ at_j)
        | no other ↦
            let all : in_area d (suc n) j ≡ false = ground arith in
            rw all ((rw outside at rest) ∙ get_or-set_ne bytes v 0 other)
      ]
    ]

copy_down-get :
    (n d s : ℕ) (bytes : List ℕ) (j : ℕ)
    → s < d
    → d + n ≤ length bytes
    → get_or (copy_down n d s bytes) j 0
      ≡ (if in_area d n j then get_or bytes (s + j - d) 0 else get_or bytes j 0)
unfolding copy_down
copy_down-get zero d s bytes j before fits = ground arith
copy_down-get (suc n) d s bytes j before fits =
    let v : ℕ = get_or bytes (s + n) 0 in
    let later = copy_down-get n d s (set bytes (d + n) v) j before in
    let rest = later (omega (arith, length-set bytes (d + n) v)) in
    elim (Bool-cases (in_area d n j)) [
      | inl inside ↦
          let low : d ≤ j = ground arith in
          let high : j < d + n = ground arith in
          let all : in_area d (suc n) j ≡ true = ground arith in
          let ne : d + n ≢ s + j - d = omega arith in
          rw all ((rw inside at rest) ∙ get_or-set_ne bytes v 0 ne)
      | inr outside ↦ elim (ℕ_discrete (d + n) j) [
        | yes same ↦
            let index : s + j - d ≡ s + n = omega arith in
            let all : in_area d (suc n) j ≡ true = ground arith in
            let at_j : get_or (set bytes (d + n) v) j 0 ≡ v =
              rw (← same) (get_or-set_self bytes (d + n) v 0 (omega arith)) in
            rw (all, index) ((rw outside at rest) ∙ at_j)
        | no other ↦
            let all : in_area d (suc n) j ≡ false = ground arith in
            rw all ((rw outside at rest) ∙ get_or-set_ne bytes v 0 other)
      ]
    ]

-- `memmove` of `n` bytes inside an array leaves in the destination what the source held before,
-- however the two areas overlap, and changes no other byte.
pub memmove-get :
    (dest src n : ℕ) (bytes : List ℕ) (j : ℕ)
    → dest + n ≤ length bytes
    → get_or (memmove dest src n bytes) j 0
      ≡ (if in_area dest n j then get_or bytes (src + j - dest) 0 else get_or bytes j 0)
unfolding memmove
memmove-get dest src n bytes j fits = elim (Bool-cases (dest == src || n == 0)) [
  | inl nothing ↦ rw nothing (ground arith)
  | inr moves ↦ rw moves (elim (Bool-cases (ltb dest src)) [
    | inl up ↦ rw up (copy_up-get n dest src bytes j (inl (ground arith)) fits)
    | inr down ↦ rw down (copy_down-get n dest src bytes j (ground arith) fits)
  ])
]

-- If the areas do not overlap, or the destination begins before the source, `memcpy` inside an
-- array leaves what `memmove` leaves.
pub memcpy-memmove :
    (dest src n : ℕ) (bytes : List ℕ) (j : ℕ)
    → dest < src ⊎ src + n ≤ dest
    → dest + n ≤ length bytes
    → get_or (memcpy dest src n bytes) j 0 ≡ get_or (memmove dest src n bytes) j 0
unfolding memcpy
memcpy-memmove dest src n bytes j apart fits =
    copy_up-get n dest src bytes j apart fits ∙ sym (memmove-get dest src n bytes j fits)
