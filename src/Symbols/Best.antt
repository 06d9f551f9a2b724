-- ===== src/Symbols/Best.antt =====
-- Which symbol `lookup_symbol` of src/lib/kerror.c names.
use tbs_kernel.Symbols.{Symbol, lookup_loop_symbol, lookup_symbol, unknown}
use tbs_kernel.Base.{
  ℕ, ◌≤◌, ◌<◌, ◌≡◌, refl, ◌⊎◌, inl, inr, ◌&&◌, List, [], ◌∷◌, arith, leb, Bool-cases, All, In,
}

-- Every symbol at or below the address is at or below the bound.
abbrev pub AtMost : List Symbol → ℕ → ℕ → Type 0
AtMost symbols addr bound = All (λ t. t.addr ≤ addr → t.addr ≤ bound) symbols

abbrev Below : List Symbol → ℕ → ℕ → Type 0
Below symbols addr bound = All (λ t. t.addr ≤ addr → t.addr < bound) symbols

-- The result is the one that the loop began with, or the name of a symbol of the list.
abbrev Found : List Symbol → ℕ → ℕ → List ℕ → List ℕ → Type 0
Found symbols addr best result r =
    ((r ≡ result) × Below symbols addr best)
    ⊎ ((s : Symbol) × In s symbols
        × (s.addr ≤ addr)
        × (best ≤ s.addr)
        × (r ≡ s.name)
        × AtMost symbols addr s.addr)

Below-AtMost :
    (symbols : List Symbol) (addr bound : ℕ) → Below symbols addr bound → AtMost symbols addr bound
Below-AtMost [] addr bound h = _
Below-AtMost (s ∷ symbols) addr bound h =
    (λ low. omega (arith, h.0 low), Below-AtMost symbols addr bound h.1)

lookup_loop-Found :
    (symbols : List Symbol) (addr best : ℕ) (result : List ℕ)
    → Found symbols addr best result (lookup_loop_symbol symbols addr best result)
unfolding lookup_loop_symbol
lookup_loop-Found [] addr best result = inl (refl, _)
lookup_loop-Found (s ∷ symbols) addr best result =
    elim (Bool-cases (leb s.addr addr && leb best s.addr)) [
      | inl better ↦
          let low : s.addr ≤ addr = ground arith in
          let high : best ≤ s.addr = ground arith in
          rw better (elim (lookup_loop-Found symbols addr s.addr s.name) [
            | inl (same, below) ↦ inr (
              s,
              inl refl,
              low,
              high,
              same,
              (λ _. omega arith, Below-AtMost symbols addr s.addr below),
            )
            | inr (t, there, t_low, t_high, named, most) ↦
                inr (t, inr there, t_low, omega (arith, high, t_high), named, (λ _. t_high, most))
          ])
      | inr worse ↦
          let passed : s.addr ≤ addr → s.addr < best = λ low. ground (arith, low, worse) in
          rw worse (elim (lookup_loop-Found symbols addr best result) [
            | inl (same, below) ↦ inl (same, (passed, below))
            | inr (t, there, t_low, t_high, named, most) ↦ inr (
              t,
              inr there,
              t_low,
              t_high,
              named,
              (λ low. omega (arith, passed low, t_high), most),
            )
          ])
    ]

Below-zero :
    (symbols : List Symbol) (addr : ℕ) → Below symbols addr 0 → All (λ t. addr < t.addr) symbols
Below-zero [] addr h = _
Below-zero (s ∷ symbols) addr h = (ground (arith, h.0), Below-zero symbols addr h.1)

-- `lookup_symbol` names a symbol of the table with the greatest address that is not above the one
-- looked up; it returns "unknown" only if every symbol is above it.
pub lookup_symbol-nearest :
    (symbols : List Symbol) (addr : ℕ)
    → ((lookup_symbol symbols addr ≡ unknown) × All (λ t. addr < t.addr) symbols)
      ⊎ ((s : Symbol) × In s symbols
          × (s.addr ≤ addr)
          × (lookup_symbol symbols addr ≡ s.name)
          × AtMost symbols addr s.addr)
unfolding lookup_symbol
lookup_symbol-nearest symbols addr = elim (lookup_loop-Found symbols addr 0 unknown) [
  | inl (same, below) ↦ inl (same, Below-zero symbols addr below)
  | inr (s, there, low, _, named, most) ↦ inr (s, there, low, named, most)
]
