-- ===== src/Symbols.antt =====
-- `lookup_symbol` and `print_stack_trace` of src/lib/kerror.c. The table of symbols is generated by
-- the build (src/lib/symbols_stub.c has an empty one) and the memory is a function: arguments here.
use tbs_kernel.Base.{
  ℕ, zero, suc, ◌+◌, ◌-◌, ◌*◌, ◌/◌, ◌%◌, ◌^◌, ◌≤◌, ◌<◌, ◌≡◌, refl, sym, ap, ap₂, ◌∙◌, ◌≢◌, ◌↔◌, ◌⊎◌,
  inl, inr, Bool, true, false, not, ◌&&◌, ◌||◌, Option, none, some, List, [], ◌∷◌, ◌++◌, append-nil,
  append_assoc, arith, dec_lt, ℕ_discrete, ltb, leb, ◌==◌, if◌then◌else◌, ltb→lt, lt→ltb, ==_iff,
  Bool-cases, Option-cases, length, get_elem?, get_or, set, take, drop, replicate, length-append,
  length-set, get_or-set_self, get_or-set_ne, ◌>>=◌, All, All-append,
}
pub mod Best

pub record Symbol : Type 0 where
  pub addr : ℕ
  pub name : List ℕ

-- `"unknown"`
abbrev pub unknown : List ℕ
unknown = b'u' ∷ b'n' ∷ b'k' ∷ b'n' ∷ b'o' ∷ b'w' ∷ b'n' ∷ []

-- The loop over the table.
unfoldable pub lookup_loop_symbol : List Symbol → ℕ → ℕ → List ℕ → List ℕ
lookup_loop_symbol [] addr best result = result
lookup_loop_symbol (s ∷ symbols) addr best result =
    let better = leb s.addr addr && leb best s.addr in
    lookup_loop_symbol symbols addr (if better then s.addr else best)
      (if better then s.name else result)

unfoldable pub lookup_symbol : List Symbol → ℕ → List ℕ
unfolding lookup_loop_symbol
lookup_symbol symbols addr = lookup_loop_symbol symbols addr 0 unknown

-- The addresses that the loop prints; a return address is read where the next frame is.
unfoldable pub trace_frames : ℕ → (ℕ → ℕ) → ℕ → List ℕ
trace_frames zero memory ebp = []
trace_frames (suc left) memory ebp =
    let more = trace_frames left memory (memory ebp) in
    if ebp == 0 then [] else memory ebp ∷ (if leb (memory ebp) ebp then [] else more)

-- The lines of the trace: an address and the name of its symbol.
unfoldable pub print_stack_trace : List Symbol → (ℕ → ℕ) → ℕ → ℕ → List (ℕ × List ℕ)
unfolding trace_frames lookup_symbol
print_stack_trace symbols memory eip ebp = lines (eip ∷ trace_frames 32 memory ebp)
  where
    lines : List ℕ → List (ℕ × List ℕ)
    lines [] = []
    lines (a ∷ rest) = (a, lookup_symbol symbols a) ∷ lines rest
