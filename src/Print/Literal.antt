-- ===== src/Print/Literal.antt =====
-- What `printf` of src/lib/stdio.c does with literal text and with a text argument, and where its
-- array of 1024 bytes ends.
use tbs_kernel.Print.{print_loop, format, print_directive, print_text, take_ll, printf}
use tbs_kernel.CString.Format.{Arg, write_str, take_width, text}
use tbs_kernel.CString.Format.Directives.{IsLiteral}
use tbs_kernel.CString.Copy.Bounds.{IsText}
use tbs_kernel.Tty.{World}
use tbs_kernel.Tty.Write.{IsIdle, push_all, tty_write_line-push_all}
use tbs_kernel.Tty.Buffer.{contents}
use tbs_kernel.Base.{
  ℕ, zero, suc, ◌+◌, ◌-◌, ◌≤◌, ◌<◌, ◌≡◌, refl, sym, ap, ◌∙◌, inl, inr, true, false, none, some,
  List, [], ◌∷◌, ◌++◌, append-nil, append_assoc, arith, ltb, leb, ◌==◌, if◌then◌else◌, lt→ltb,
  Bool-cases, length, take, length-append,
}

print_loop-literal :
    (s rest : List ℕ) (args : List Arg) (out : List ℕ) (fuel : ℕ)
    → IsLiteral s
    → length out + length s ≤ 1022
    → print_loop (length s + fuel) (s ++ rest) args out ≡ print_loop fuel rest args (out ++ s)
unfolding print_loop
print_loop-literal [] rest args out fuel lit room =
    let e : 0 + fuel ≡ fuel = omega arith in rw (e, append-nil out) refl
print_loop-literal (c ∷ s) rest args out fuel lit room =
    let e : suc (length s) + fuel ≡ suc (length s + fuel) = omega arith in
    let inside : (c == 0) ≡ false = ground (arith, lit.0) in
    let plain : (c == b'%') ≡ false = ground (arith, lit.0) in
    let grown : length (out ++ c ∷ []) ≡ suc (length out) =
      omega (arith, length-append out (c ∷ [])) in
    let fits : ltb 1024 (length (out ++ c ∷ [])) ≡ false = ground (arith, grown) in
    let goes_on : leb 1023 (length (out ++ c ∷ [])) ≡ false = ground (arith, grown) in
    let later =
      print_loop-literal s rest args (out ++ c ∷ []) fuel lit.1 (omega (arith, grown, room)) in
    rw (e, inside, plain, fits, goes_on, ← append_assoc out (c ∷ []) s) later

print_loop-cut :
    (s rest : List ℕ) (args : List Arg) (out : List ℕ) (fuel : ℕ)
    → IsLiteral s
    → length out ≤ 1022
    → 1023 ≤ length out + length s
    → print_loop (length s + fuel) (s ++ rest) args out ≡ some (out ++ take (1023 - length out) s)
unfolding print_loop
print_loop-cut [] rest args out fuel lit room long = absurd (omega (arith, room, long))
print_loop-cut (c ∷ s) rest args out fuel lit room long =
    let e : suc (length s) + fuel ≡ suc (length s + fuel) = omega arith in
    let inside : (c == 0) ≡ false = ground (arith, lit.0) in
    let plain : (c == b'%') ≡ false = ground (arith, lit.0) in
    let out' = out ++ c ∷ [] in
    let grown : length out' ≡ suc (length out) = omega (arith, length-append out (c ∷ [])) in
    let fits : ltb 1024 (length out') ≡ false = ground (arith, grown, room) in
    let left : 1023 - length out ≡ suc (1023 - length out') = omega (arith, grown, room) in
    elim (Bool-cases (leb 1023 (length out'))) [
      | inl full ↦
          let none_left : 1023 - length out' ≡ 0 = ground (arith, full) in
          rw (e, inside, plain, fits, full, left, none_left) refl
      | inr more ↦
          let room' : length out' ≤ 1022 = ground (arith, more) in
          let later =
            print_loop-cut s rest args out' fuel lit.1 room' (omega (arith, grown, long)) in
          rw
            (
              e,
              inside,
              plain,
              fits,
              more,
              left,
              ← append_assoc out (c ∷ []) (take (1023 - length out') s),
            )
            later
    ]

take_all : (n : ℕ) (s : List ℕ) → length s ≤ n → take n s ≡ s
take_all zero [] h = refl
take_all zero (c ∷ s) h = absurd (omega (arith, h))
take_all (suc n) [] h = refl
take_all (suc n) (c ∷ s) h = ap (◌∷◌ c) (take_all n s (omega (arith, h)))

length-take_most : (n : ℕ) (s : List ℕ) → length (take n s) ≤ n
length-take_most zero s = omega arith
length-take_most (suc n) [] = omega arith
length-take_most (suc n) (c ∷ s) = omega (arith, length-take_most n s)

leb→le : (a b : ℕ) → leb a b ≡ true → a ≤ b
leb→le a b h = ground arith

leb→lt : (a b : ℕ) → leb a b ≡ false → b < a
leb→lt a b h = ground arith

below_ltb : (n : ℕ) → n ≤ 1023 → ltb 1024 n ≡ false
below_ltb n h = ground arith

above_leb : (n : ℕ) → 1023 < n → leb 1023 n ≡ true
above_leb n h = ground arith

above_ltb : (n : ℕ) → 1023 < n → ltb n 1024 ≡ false
above_ltb n h = ground arith

-- Literal text, without `%`: at most its first 1023 bytes are printed, with a terminator, and no
-- byte is written past the array.
pub format-literal :
    (s rest : List ℕ) (args : List Arg)
    → IsLiteral s
    → format (s ++ 0 ∷ rest) args ≡ some (take 1023 s ++ 0 ∷ [])
unfolding format print_loop
format-literal s rest args lit =
    let few : ltb (length (take 1023 s)) 1024 ≡ true =
      lt→ltb (length (take 1023 s)) 1024 (omega (arith, length-take_most 1023 s)) in
    let fuel : length (s ++ 0 ∷ rest) ≡ length s + suc (length rest) = length-append s (0 ∷ rest) in
    let looped : print_loop (length (s ++ 0 ∷ rest)) (s ++ 0 ∷ rest) args [] ≡ some (take 1023 s) =
      rw fuel (elim (Bool-cases (leb (length s) 1022)) [
        | inl short ↦
            print_loop-literal s (0 ∷ rest) args [] (suc (length rest)) lit
              (omega (arith, leb→le (length s) 1022 short))
            ∙ ap some (sym (take_all 1023 s (omega (arith, leb→le (length s) 1022 short))))
        | inr long ↦
            print_loop-cut s (0 ∷ rest) args [] (suc (length rest)) lit (omega arith)
              (omega (arith, leb→lt (length s) 1022 long))
      ]) in
    rw (looped, few) refl

write_str-text : (t q out : List ℕ) → IsText t → write_str out (t ++ 0 ∷ q) ≡ some (out ++ t)
unfolding write_str
write_str-text [] q out h = rw (append-nil out) refl
write_str-text (c ∷ t) q out h =
    let inside : (c == 0) ≡ false = ground (arith, h.0) in
    rw (inside, ← append_assoc out (c ∷ []) t) (write_str-text t q (out ++ c ∷ []) h.1)

-- Literal text of at most 1022 bytes, and behind it `%s` at the end of the format: the text of the
-- argument is printed in full if both have at most 1023 bytes together; if they have more, its
-- bytes are written past the array.
pub format-text :
    (s t q : List ℕ) (args : List Arg)
    → IsLiteral s
    → length s ≤ 1022
    → IsText t
    → format (s ++ (b'%' ∷ b's' ∷ 0 ∷ [])) (text (t ++ 0 ∷ q) ∷ args)
      ≡ (if leb (length s + length t) 1023 then some (s ++ (t ++ 0 ∷ [])) else none)
unfolding format print_loop print_directive print_text take_width take_ll
format-text s t q args lit short h =
    let all = text (t ++ 0 ∷ q) ∷ args in
    let fuel : length (s ++ (b'%' ∷ b's' ∷ 0 ∷ [])) ≡ length s + 3 =
      length-append s (b'%' ∷ b's' ∷ 0 ∷ []) in
    let before = print_loop-literal s (b'%' ∷ b's' ∷ 0 ∷ []) all [] 3 lit (omega (arith, short)) in
    let wrote = write_str-text t q s h in
    let size : length (s ++ t) ≡ length s + length t = length-append s t in
    elim (Bool-cases (leb (length s + length t) 1023)) [
      | inl fits ↦
          rw (fuel, before, wrote, size, fits)
            (let n = length s + length t in
              let low : ltb 1024 n ≡ false = below_ltb n (leb→le n 1023 fits) in
              let room : ltb n 1024 ≡ true = lt→ltb n 1024 (omega (arith, leb→le n 1023 fits)) in
              let end : some ((s ++ t) ++ 0 ∷ []) ≡ some (s ++ (t ++ 0 ∷ [])) =
                ap some (append_assoc s t (0 ∷ [])) in
              elim (Bool-cases (leb 1023 n)) [
                | inl last ↦ rw (low, last, size, room) end
                | inr more ↦ rw (low, more, size, room) end
              ])
      | inr over ↦
          rw (fuel, before, wrote, size, over)
            (let n = length s + length t in
              let long : 1023 < n = leb→lt n 1023 over in
              let last : leb 1023 n ≡ true = above_leb n long in
              let no_room : ltb n 1024 ≡ false = above_ltb n long in
              elim (Bool-cases (ltb 1024 n)) [
                | inl past ↦ rw past refl
                | inr at ↦ rw (at, last, size, no_room) refl
              ])
    ]

IsLiteral-take : (n : ℕ) (s : List ℕ) → IsLiteral s → IsText (take n s)
IsLiteral-take zero s lit = _
IsLiteral-take (suc n) [] lit = _
IsLiteral-take (suc n) (c ∷ s) lit = (lit.0.0, IsLiteral-take n s lit.1)

-- With no lock held and well-formed rings, a current task with a terminal, and literal text as the
-- format: `printf` returns, and appends the first 1023 bytes of the text to the terminal's output
-- in order, each unless the output is full.
pub printf-push_all :
    (s rest : List ℕ) (args : List Arg) {w : World}
    → IsLiteral s
    → IsIdle w
    → (w' : World) × (printf true (s ++ 0 ∷ rest) args w ≡ some w')
      × IsIdle w'
      × (contents w'.tty.output ≡ push_all (take 1023 s) (contents w.tty.output))
unfolding printf
printf-push_all s rest args {w} lit idle =
    let (w', wrote, idle', out) =
      tty_write_line-push_all (take 1023 s) [] (IsLiteral-take 1023 s lit) idle in
    (w', rw (format-literal s rest args lit) wrote, idle', out)
