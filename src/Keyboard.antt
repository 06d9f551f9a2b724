-- ===== src/Keyboard.antt =====
-- src/kernel/drivers/ps2_key.c: scan codes to characters, and the byte that goes to the terminal.
use tbs_kernel.Base.{
  ℕ, zero, suc, ◌+◌, ◌-◌, ◌*◌, ◌/◌, ◌%◌, ◌^◌, ◌≤◌, ◌<◌, ◌≡◌, refl, sym, ap, ap₂, ◌∙◌, ◌≢◌, ◌↔◌, ◌⊎◌,
  inl, inr, Bool, true, false, not, ◌&&◌, ◌||◌, Option, none, some, List, [], ◌∷◌, ◌++◌, append-nil,
  append_assoc, arith, dec_lt, ℕ_discrete, ltb, leb, ◌==◌, if◌then◌else◌, ltb→lt, lt→ltb, ==_iff,
  Bool-cases, Option-cases, length, get_elem?, get_or, set, take, drop, replicate, length-append,
  length-set, get_or-set_self, get_or-set_ne, ◌>>=◌, All, All-append,
}
use tbs_kernel.Task.State.{wake_task}
pub mod Layout
pub mod Shift
use tbs_kernel.Tty.{World}
use tbs_kernel.Tty.Buffer.{next, put}

-- The first 58 entries of the two tables; the others are 0.
abbrev pub scancode_to_ascii : List ℕ
scancode_to_ascii =
    0 ∷ 27 ∷ b'1' ∷ b'2' ∷ b'3' ∷ b'4' ∷ b'5' ∷ b'6' ∷ b'7' ∷ b'8' ∷ b'9' ∷ b'0' ∷ b'-' ∷ b'=' ∷ 8
    ∷ 9 ∷ b'q' ∷ b'w' ∷ b'e' ∷ b'r' ∷ b't' ∷ b'y' ∷ b'u' ∷ b'i' ∷ b'o' ∷ b'p' ∷ b'[' ∷ b']' ∷ 10 ∷ 0
    ∷ b'a' ∷ b's' ∷ b'd' ∷ b'f' ∷ b'g' ∷ b'h' ∷ b'j' ∷ b'k' ∷ b'l' ∷ b';' ∷ 39 ∷ 96 ∷ 0 ∷ 92 ∷ b'z'
    ∷ b'x' ∷ b'c' ∷ b'v' ∷ b'b' ∷ b'n' ∷ b'm' ∷ b',' ∷ b'.' ∷ b'/' ∷ 0 ∷ b'*' ∷ 0 ∷ b' ' ∷ 0 ∷ []

abbrev pub scancode_to_ascii_shift : List ℕ
scancode_to_ascii_shift =
    0 ∷ 27 ∷ b'!' ∷ b'@' ∷ b'#' ∷ b'$' ∷ b'%' ∷ b'^' ∷ b'&' ∷ b'*' ∷ b'(' ∷ b')' ∷ b'_' ∷ b'+' ∷ 8
    ∷ 9 ∷ b'Q' ∷ b'W' ∷ b'E' ∷ b'R' ∷ b'T' ∷ b'Y' ∷ b'U' ∷ b'I' ∷ b'O' ∷ b'P' ∷ b'{' ∷ b'}' ∷ 10 ∷ 0
    ∷ b'A' ∷ b'S' ∷ b'D' ∷ b'F' ∷ b'G' ∷ b'H' ∷ b'J' ∷ b'K' ∷ b'L' ∷ b':' ∷ 34 ∷ b'~' ∷ 0 ∷ b'|'
    ∷ b'Z' ∷ b'X' ∷ b'C' ∷ b'V' ∷ b'B' ∷ b'N' ∷ b'M' ∷ b'<' ∷ b'>' ∷ b'?' ∷ 0 ∷ b'*' ∷ 0 ∷ b' ' ∷ 0
    ∷ []

abbrev pub is_shift : ℕ → Bool
is_shift code = code == 0x2A || code == 0x36

-- The character, 0 for none, and the new state of the shift key.
unfoldable pub translate_scancode : ℕ → Bool → ℕ × Bool
translate_scancode sc shift =
    if leb 128 sc
    then (0, if is_shift (sc % 128) then false else shift)
    else if is_shift sc
    then (0, true)
    else (get_or (if shift then scancode_to_ascii_shift else scancode_to_ascii) sc 0, shift)

-- The byte goes into the raw input ring of the active terminal, and the worker wakes. `none`:
-- `wake_task` writes through the null pointer, since the worker never waited.
unfoldable pub kb_ring_handle_input : ℕ → Bool → World → Option (Bool × World)
kb_ring_handle_input sc shift w =
    let (c, shift') = translate_scancode sc shift in
    let r = w.tty.raw_input in
    if c == 0
    then some (shift', w)
    else if next r.head == r.tail
    then some (shift', w)
    else (elim w.tty.task_worker_wait [
      | none ↦ none
      | some t ↦ some (
        shift',
        record w { tty = record w.tty { raw_input = put c r }; states = wake_task t w.states },
      )
    ])
