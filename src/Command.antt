-- ===== src/Command.antt =====
-- The command line of `console_task` in src/kernel/core/main.c: the end of the line and the split
-- into arguments. The commands themselves call the other parts and print.
use tbs_kernel.Base.{
  ℕ, zero, suc, ◌+◌, ◌-◌, ◌*◌, ◌/◌, ◌%◌, ◌^◌, ◌≤◌, ◌<◌, ◌≡◌, refl, sym, ap, ap₂, ◌∙◌, ◌≢◌, ◌↔◌, ◌⊎◌,
  inl, inr, Bool, true, false, not, ◌&&◌, ◌||◌, Option, none, some, List, [], ◌∷◌, ◌++◌, append-nil,
  append_assoc, arith, dec_lt, ℕ_discrete, ltb, leb, ◌==◌, if◌then◌else◌, ltb→lt, lt→ltb, ==_iff,
  Bool-cases, Option-cases, length, get_elem?, get_or, set, take, drop, replicate, length-append,
  length-set, get_or-set_self, get_or-set_ne, ◌>>=◌, All, All-append, In, In-append_left,
  In-append_right,
}
pub mod Words

-- `if (input[i] == '\n' || input[i] == '\r') { input[i] = '\0'; break; }`
unfoldable pub cut_line : List ℕ → Option (List ℕ)
cut_line [] = none
cut_line (c ∷ input) =
    let more = cut_line input >>= λ rest. some (c ∷ rest) in
    if c == 0 then some (c ∷ input) else if c == b'\n' || c == b'\r' then some (0 ∷ input) else more

-- `while (*p == ' ') p++;`
unfoldable pub skip_spaces : List ℕ → List ℕ
skip_spaces [] = []
skip_spaces (c ∷ p) = if c == b' ' then skip_spaces p else c ∷ p

-- `while (*p && *p != ' ') p++;`: the bytes passed, which are the argument, and what is left.
unfoldable pub split_word : List ℕ → Option (List ℕ × List ℕ)
split_word [] = none
split_word (c ∷ p) =
    let more = split_word p >>= λ r. some (c ∷ r.0, r.1) in
    if c == 0 || c == b' ' then some ([], c ∷ p) else more

-- `if (*p) { *p = '\0'; p++; }`
unfoldable pub pass_end : List ℕ → List ℕ
pass_end [] = []
pass_end (c ∷ p) = if c == 0 then c ∷ p else p

-- The length of `argv`; the limit of the code, 64, lies past it.
abbrev pub argv_size : ℕ
argv_size = 8

-- The loop, with fuel; the texts that `argv` points to. `none` is a write past `argv` or a read past
-- the line.
unfoldable pub parse_args : ℕ → ℕ → List ℕ → Option (List (List ℕ))
parse_args zero argc p = none
parse_args (suc fuel) argc p = elim (skip_spaces p) [
  | [] ↦ none
  | c ∷ q ↦
      let more = (do
        (word, behind) ← split_word (c ∷ q)
        rest ← parse_args fuel (argc + 1) (pass_end behind)
        some (word ∷ rest)) in
      if c == 0 then some [] else if leb argv_size argc then none else more
]

-- Every round passes a byte of the line, whose length is fuel enough.
unfoldable pub command_args : List ℕ → Option (List (List ℕ))
unfolding cut_line parse_args
command_args input = cut_line input >>= λ line. parse_args (length line) 0 line
