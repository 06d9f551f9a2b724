-- ===== src/Print.antt =====
-- `printf` of src/lib/stdio.c, `serial_print` of src/kernel/drivers/serial.c and `printp` of
-- src/lib/kerror.c: three copies of one loop that formats into an array of 1024 bytes. A write past
-- the array and an argument of another kind are `none`.
pub mod Literal
use tbs_kernel.CString.Numerals.{
  int_to_str, i64_to_str, uint_to_str, u64_to_str, hex32_to_str, hex64_to_str,
}
use tbs_kernel.CString.Format.{Arg, signed, word, text, write_str, write_char, take_width}
use tbs_kernel.Compositor.{Screen, vga_putc}
use tbs_kernel.Base.{
  ℕ, zero, suc, ◌+◌, ◌-◌, ◌*◌, ◌/◌, ◌%◌, ◌^◌, ◌≤◌, ◌<◌, ◌≡◌, refl, sym, ap, ap₂, ◌∙◌, ◌≢◌, ◌↔◌, ◌⊎◌,
  inl, inr, Bool, true, false, not, ◌&&◌, ◌||◌, Option, none, some, List, [], ◌∷◌, ◌++◌, append-nil,
  append_assoc, arith, dec_lt, ℕ_discrete, ltb, leb, ◌==◌, if◌then◌else◌, ltb→lt, lt→ltb, ==_iff,
  Bool-cases, Option-cases, length, get_elem?, get_or, set, take, drop, replicate, length-append,
  length-set, get_or-set_self, get_or-set_ne, ◌>>=◌, All, All-append,
}
use tbs_kernel.Tty.{World, tty_write_line}

abbrev pub out_size : ℕ
out_size = 1024

-- `if (fmt[i] == 'l' && fmt[i+1] == 'l')`: the flag and what is left of the format.
unfoldable pub take_ll : List ℕ → Bool × List ℕ
take_ll [] = (false, [])
take_ll (c ∷ []) = (false, c ∷ [])
take_ll (c ∷ d ∷ fmt) = if c == b'l' && d == b'l' then (true, fmt) else (false, c ∷ d ∷ fmt)

abbrev append_text : List Arg → List ℕ → Option (List ℕ) → Option (List Arg × List ℕ)
append_text args out digits = digits >>= λ s. some (args, out ++ s)

-- `case 'd'`, `case 'u'` and `case 'x'`.
unfoldable pub print_signed : Bool → List Arg → List ℕ → Option (List Arg × List ℕ)
print_signed is_ll (signed z ∷ args) out =
    append_text args out (if is_ll then i64_to_str z else int_to_str z)
print_signed is_ll _ out = none

unfoldable pub print_unsigned : Bool → List Arg → List ℕ → Option (List Arg × List ℕ)
print_unsigned is_ll (word v ∷ args) out =
    append_text args out (if is_ll then u64_to_str v else uint_to_str v)
print_unsigned is_ll _ out = none

unfoldable pub print_hex : Bool → ℕ → List Arg → List ℕ → Option (List Arg × List ℕ)
print_hex is_ll width (word v ∷ args) out =
    append_text args out (if is_ll then hex64_to_str v width else hex32_to_str v width)
print_hex is_ll width _ out = none

-- `while (*s) out[out_i++] = *s++;`
unfoldable pub print_text : List Arg → List ℕ → Option (List Arg × List ℕ)
print_text (text s ∷ args) out = write_str out s >>= λ out'. some (args, out')
print_text _ out = none

-- The `switch`.
unfoldable pub print_directive : Bool → ℕ → ℕ → List Arg → List ℕ → Option (List Arg × List ℕ)
print_directive is_ll width c args out =
    if c == b'd'
    then print_signed is_ll args out
    else if c == b'u'
    then print_unsigned is_ll args out
    else if c == b'x'
    then print_hex is_ll width args out
    else if c == b's'
    then print_text args out
    else if c == b'c'
    then write_char args out
    else if c == b'%'
    then some (args, out ++ b'%' ∷ [])
    else some (args, out ++ b'%' ∷ c ∷ [])

-- The `for` loop; every round takes a byte of the format, whose length is fuel enough. Where a round
-- has left the array, none of what follows counts.
unfoldable pub print_loop : ℕ → List ℕ → List Arg → List ℕ → Option (List ℕ)
print_loop zero fmt args out = none
print_loop (suc fuel) [] args out = none
print_loop (suc fuel) (c ∷ fmt) args out =
    let round : List ℕ → List Arg → List ℕ → Option (List ℕ) = λ rest args' out'.
      let more = print_loop fuel rest args' out' in
      if ltb out_size (length out')
      then none
      else if leb (out_size - 1) (length out')
      then some out'
      else more in
    let directive : Option (List ℕ) =
      (let (width, behind) = take_width fmt in
        let (is_ll, last) = take_ll behind in
        elim last [
          | [] ↦ none
          | d ∷ rest ↦
              print_directive is_ll width d args out >>= λ (args', out'). round rest args' out'
        ]) in
    if c == 0 then some out else if c == b'%' then directive else round fmt args (out ++ c ∷ [])

-- The text in the array when the loop has ended, with its terminator.
unfoldable pub format : List ℕ → List Arg → Option (List ℕ)
unfolding print_loop
format fmt args = print_loop (length fmt) fmt args [] >>= λ out.
    if ltb (length out) out_size then some (out ++ 0 ∷ []) else none

-- The flag says whether there is a current task with a terminal.
unfoldable pub printf : Bool → List ℕ → List Arg → World → Option World
unfolding format
printf has_tty fmt args w =
    format fmt args >>= λ out. if has_tty then tty_write_line out w else some w

-- The bytes that go to the port: the terminator is one of them.
unfoldable pub serial_print : List ℕ → List Arg → Option (List ℕ)
unfolding format
serial_print fmt args = format fmt args

-- The loop of `printp` that draws, with the cursor of the panic screen.
unfoldable pub draw_panic : List ℕ → ℕ → ℕ → Screen → Option ((ℕ × ℕ) × Screen)
draw_panic [] x y s = none
draw_panic (c ∷ out) x y s =
    let more =
      if c == b'\n'
      then draw_panic out 0 (y + 1) s
      else draw_panic out (x + 1) y (vga_putc c x y s) in
    if c == 0 then some ((x, y), s) else more

-- The text is the format of a second `serial_print`, without arguments.
unfoldable pub printp : List ℕ → List Arg → ℕ → ℕ → Screen → Option (List ℕ × ((ℕ × ℕ) × Screen))
unfolding format serial_print draw_panic
printp fmt args x y s = do
  out ← format fmt args
  bytes ← serial_print out []
  drawn ← draw_panic out x y s
  some (bytes, drawn)
