-- ===== src/Command/Words.antt =====
-- The split of a command line in src/kernel/core/main.c gives its words.
use tbs_kernel.Command.{
  skip_spaces, split_word, parse_args, pass_end, argv_size, cut_line, command_args,
}
use tbs_kernel.Base.{
  ℕ, zero, suc, ◌+◌, ◌<◌, ◌≡◌, refl, sym, ap, ◌∙◌, ◌≢◌, inl, inr, Bool, true, false, ◌||◌, none,
  some, List, [], ◌∷◌, ◌++◌, arith, leb, ◌==◌, if◌then◌else◌, Bool-cases, length, replicate,
  length-append, ◌>>=◌, All,
}

-- A byte of a word.
abbrev pub IsInner : ℕ → Type 0
IsInner b = (b ≢ 0) × (b ≢ b' ') × (b ≢ b'\n') × (b ≢ b'\r')

abbrev pub IsWord : List ℕ → Type 0
IsWord w = (0 < length w) × All IsInner w

abbrev pub spaces : ℕ → List ℕ
spaces n = replicate n b' '

-- Words, each behind a number of spaces, then some spaces and the end.
unfoldable pub line_of : List (ℕ × List ℕ) → ℕ → List ℕ → List ℕ
line_of [] k end = spaces k ++ end
line_of ((gap, w) ∷ ws) k end = spaces gap ++ (w ++ line_of ws k end)

abbrev pub words_of : List (ℕ × List ℕ) → List (List ℕ)
words_of [] = []
words_of ((gap, w) ∷ ws) = w ∷ words_of ws

-- Words with a space before each.
abbrev pub IsSeparated : List (ℕ × List ℕ) → Type 0
IsSeparated = All (λ (gap, w). (0 < gap) × IsWord w)

-- The first word needs no space before it.
abbrev pub IsLine : List (ℕ × List ℕ) → Type 0
IsLine [] = Unit {0}
IsLine ((gap, w) ∷ ws) = IsWord w × IsSeparated ws

-- The list begins with the terminator or with a space.
abbrev stops : List ℕ → Bool
stops [] = false
stops (c ∷ p) = c == 0 || c == b' '

skip_spaces-spaces : (n : ℕ) (p : List ℕ) → skip_spaces (spaces n ++ p) ≡ skip_spaces p
unfolding skip_spaces
skip_spaces-spaces zero p = refl
skip_spaces-spaces (suc n) p = skip_spaces-spaces n p

skip_spaces-inner : (c : ℕ) (p : List ℕ) → IsInner c → skip_spaces (c ∷ p) ≡ c ∷ p
unfolding skip_spaces
skip_spaces-inner c p h = let e : (c == b' ') ≡ false = ground (arith, h) in rw e refl

split_word-stops :
    (w p : List ℕ) → All IsInner w → stops p ≡ true → split_word (w ++ p) ≡ some (w, p)
unfolding split_word
split_word-stops [] [] h e = absurd (ground (arith, e))
split_word-stops [] (c ∷ p) h e = rw e refl
split_word-stops (c ∷ w) p (hc, h) e =
    let inner : (c == 0 || c == b' ') ≡ false = ground (arith, hc) in
    rw (inner, split_word-stops w p h e) refl

-- The byte that `pass_end` passes is one that the next round would skip.
skip_spaces-pass_end : (p : List ℕ) → stops p ≡ true → skip_spaces (pass_end p) ≡ skip_spaces p
unfolding pass_end skip_spaces
skip_spaces-pass_end [] e = refl
skip_spaces-pass_end (c ∷ p) e = elim (Bool-cases (c == 0)) [
  | inl z ↦ rw z refl
  | inr n ↦ let space : (c == b' ') ≡ true = ground (arith, e, n) in rw (n, space) refl
]

parse_args-pass_end :
    (fuel argc : ℕ) (p : List ℕ)
    → stops p ≡ true
    → parse_args fuel argc (pass_end p) ≡ parse_args fuel argc p
unfolding parse_args
parse_args-pass_end zero argc p e = refl
parse_args-pass_end (suc fuel) argc p e = rw (parse_args, skip_spaces-pass_end p e) refl

IsSeparated-IsLine : (ws : List (ℕ × List ℕ)) → IsSeparated ws → IsLine ws
IsSeparated-IsLine [] h = _
IsSeparated-IsLine ((gap, w) ∷ ws) h = (h.0.1, h.1)

line_of-stops :
    (ws : List (ℕ × List ℕ)) (k : ℕ) (rest : List ℕ)
    → IsSeparated ws
    → stops (line_of ws k (0 ∷ rest)) ≡ true
unfolding line_of
line_of-stops [] zero rest h = refl
line_of-stops [] (suc k) rest h = refl
line_of-stops ((zero, w) ∷ ws) k rest h = absurd (omega (arith, h.0.0))
line_of-stops ((suc gap, w) ∷ ws) k rest h = refl

-- One round on a line that begins with a word.
parse_args-word :
    (fuel argc gap : ℕ) (w p : List ℕ)
    → IsWord w
    → stops p ≡ true
    → parse_args (suc fuel) argc (spaces gap ++ (w ++ p)) ≡ (
        if leb argv_size argc
        then none
        else parse_args fuel (argc + 1) p >>= λ rest. some (w ∷ rest))
unfolding parse_args
parse_args-word fuel argc gap [] p (some_byte, h) e = absurd (omega (arith, some_byte))
parse_args-word fuel argc gap (c ∷ w) p (some_byte, (hc, h)) e =
    let at_word : skip_spaces (spaces gap ++ ((c ∷ w) ++ p)) ≡ c ∷ (w ++ p) =
      skip_spaces-spaces gap ((c ∷ w) ++ p) ∙ skip_spaces-inner c (w ++ p) hc in
    let inner : (c == 0) ≡ false = ground (arith, hc) in
    let word = split_word-stops (c ∷ w) p (hc, h) e in
    elim (Bool-cases (leb argv_size argc)) [
      | inl full ↦ rw (parse_args, at_word, inner, full) refl
      | inr room ↦
          rw (parse_args, at_word, inner, room, word, parse_args-pass_end fuel (argc + 1) p e) refl
    ]

parse_args-end :
    (fuel argc k : ℕ) (rest : List ℕ) → parse_args (suc fuel) argc (spaces k ++ 0 ∷ rest) ≡ some []
unfolding parse_args skip_spaces
parse_args-end fuel argc k rest = rw (parse_args, skip_spaces-spaces k (0 ∷ rest)) refl

any_or_true : (b : Bool) (ws : List (List ℕ)) → some ws ≡ (if b || true then some ws else none)
any_or_true true ws = refl
any_or_true false ws = refl

over_full : (argc n : ℕ) → leb 8 argc ≡ true → (leb (argc + suc n) 8 || suc n == 0) ≡ false
over_full argc n h = ground arith

same_room :
    (argc n : ℕ)
    → leb 8 argc ≡ false
    → (leb (argc + suc n) 8 || suc n == 0) ≡ (leb (argc + 1 + n) 8 || n == 0)
same_room argc n h = ground arith

with_word :
    (b : Bool) (w : List ℕ) (ws : List (List ℕ))
    → ((if b then some ws else none) >>= λ rest. some (w ∷ rest))
      ≡ (if b then some (w ∷ ws) else none)
with_word true w ws = refl
with_word false w ws = refl

parse_args-words_of :
    (ws : List (ℕ × List ℕ)) (fuel argc k : ℕ) (rest : List ℕ)
    → IsLine ws
    → length ws < fuel
    → parse_args fuel argc (line_of ws k (0 ∷ rest))
      ≡ (if leb (argc + length ws) argv_size || length ws == 0 then some (words_of ws) else none)
unfolding line_of
parse_args-words_of [] zero argc k rest h enough = absurd (omega (arith, enough))
parse_args-words_of [] (suc fuel) argc k rest h enough =
    parse_args-end fuel argc k rest ∙ any_or_true (leb (argc + 0) argv_size) []
parse_args-words_of ((gap, w) ∷ ws) zero argc k rest h enough = absurd (omega (arith, enough))
parse_args-words_of ((gap, w) ∷ ws) (suc fuel) argc k rest (word, later) enough =
    let first =
      parse_args-word fuel argc gap w (line_of ws k (0 ∷ rest)) word
        (line_of-stops ws k rest later) in
    let others =
      parse_args-words_of ws fuel (argc + 1) k rest (IsSeparated-IsLine ws later)
        (omega (arith, enough)) in
    let n = length ws in
    let all = words_of ws in
    elim (Bool-cases (leb 8 argc)) [
      | inl full ↦
          first
          ∙ ap
              (λ b.
                if b
                then none
                else parse_args fuel (argc + 1) (line_of ws k (0 ∷ rest)) >>= λ r. some (w ∷ r))
              full
          ∙ ap (λ b. if b then some (w ∷ all) else none) (sym (over_full argc n full))
      | inr room ↦
          first
          ∙ ap
              (λ b.
                if b
                then none
                else parse_args fuel (argc + 1) (line_of ws k (0 ∷ rest)) >>= λ r. some (w ∷ r))
              room
          ∙ ap (λ o. o >>= λ r. some (w ∷ r)) others
          ∙ with_word (leb (argc + 1 + n) 8 || n == 0) w all
          ∙ ap (λ b. if b then some (w ∷ all) else none) (sym (same_room argc n room))
    ]

cut_line-prefix :
    (s t t' : List ℕ)
    → All (λ b. (b ≢ 0) × (b ≢ b'\n') × (b ≢ b'\r')) s
    → cut_line t ≡ some t'
    → cut_line (s ++ t) ≡ some (s ++ t')
unfolding cut_line
cut_line-prefix [] t t' h e = e
cut_line-prefix (c ∷ s) t t' (hc, h) e =
    let inside : (c == 0) ≡ false = ground (arith, hc) in
    let same_line : (c == b'\n' || c == b'\r') ≡ false = ground (arith, hc) in
    rw (inside, same_line, cut_line-prefix s t t' h e) refl

spaces-All : (n : ℕ) → All (λ b. (b ≢ 0) × (b ≢ b'\n') × (b ≢ b'\r')) (spaces n)
spaces-All zero = _
spaces-All (suc n) = ((ground arith, ground arith, ground arith), spaces-All n)

inner-All : (w : List ℕ) → All IsInner w → All (λ b. (b ≢ 0) × (b ≢ b'\n') × (b ≢ b'\r')) w
inner-All [] h = _
inner-All (c ∷ w) h = ((h.0.0, h.0.2, h.0.3), inner-All w h.1)

cut_line-line_of :
    (ws : List (ℕ × List ℕ)) (k : ℕ) (rest : List ℕ)
    → IsLine ws
    → cut_line (line_of ws k (b'\n' ∷ rest)) ≡ some (line_of ws k (0 ∷ rest))
unfolding line_of cut_line
cut_line-line_of [] k rest h =
    cut_line-prefix (spaces k) (b'\n' ∷ rest) (0 ∷ rest) (spaces-All k) refl
cut_line-line_of ((gap, w) ∷ ws) k rest (word, later) =
    cut_line-prefix (spaces gap) _ _ (spaces-All gap) (
      cut_line-prefix w _ _ (inner-All w word.1)
        (cut_line-line_of ws k rest (IsSeparated-IsLine ws later)))

length-line_of :
    (ws : List (ℕ × List ℕ)) (k : ℕ) (rest : List ℕ)
    → IsLine ws
    → length ws < length (line_of ws k (0 ∷ rest))
unfolding line_of
length-line_of [] k rest h = omega (arith, length-append (spaces k) (0 ∷ rest))
length-line_of ((gap, w) ∷ ws) k rest (word, later) =
    let tail = line_of ws k (0 ∷ rest) in
    omega (
      arith,
      length-append (spaces gap) (w ++ tail),
      length-append w tail,
      word.0,
      length-line_of ws k rest (IsSeparated-IsLine ws later),
    )

count_alone : (n : ℕ) → (leb (0 + n) 8 || n == 0) ≡ leb n 8
count_alone n = ground arith

-- A line of words with any number of spaces before the first, between two and behind the last, up
-- to the end of the line: `argv` gets exactly the words, in order, if there are at most 8; with
-- more of them the loop writes past `argv`.
pub command_args-words_of :
    (ws : List (ℕ × List ℕ)) (k : ℕ) (rest : List ℕ)
    → IsLine ws
    → command_args (line_of ws k (b'\n' ∷ rest))
      ≡ (if leb (length ws) argv_size then some (words_of ws) else none)
unfolding command_args
command_args-words_of ws k rest h =
    let line = line_of ws k (0 ∷ rest) in
    let parsed = parse_args-words_of ws (length line) 0 k rest h (length-line_of ws k rest h) in
    rw (cut_line-line_of ws k rest h)
      (parsed ∙ ap (λ b. if b then some (words_of ws) else none) (count_alone (length ws)))
