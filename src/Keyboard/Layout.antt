-- ===== src/Keyboard/Layout.antt =====
-- The US layout of a keyboard, row by row, as what `translate_scancode` of
-- src/kernel/drivers/ps2_key.c should give.
use tbs_kernel.Keyboard.{translate_scancode}
use tbs_kernel.Base.Bits.{holds_up_to, holds_up_to_lem}
use tbs_kernel.Base.{
  ℕ, ◌+◌, ◌-◌, ◌<◌, ◌≡◌, refl, ap₂, Bool, true, false, not, ◌&&◌, ◌||◌, List, [], ◌∷◌, arith, ltb,
  leb, ◌==◌, if◌then◌else◌, length, get_or,
}

-- The scan code of the first key of a row, and what its keys type without shift and with it.
abbrev Row : Type 0
Row = ℕ × List ℕ × List ℕ

abbrev layout : List Row
layout =
    (0x01, 27 ∷ [], 27 ∷ [])
    ∷ (
      0x02,
      b'1' ∷ b'2' ∷ b'3' ∷ b'4' ∷ b'5' ∷ b'6' ∷ b'7' ∷ b'8' ∷ b'9' ∷ b'0' ∷ b'-' ∷ b'=' ∷ [],
      b'!' ∷ b'@' ∷ b'#' ∷ b'$' ∷ b'%' ∷ b'^' ∷ b'&' ∷ b'*' ∷ b'(' ∷ b')' ∷ b'_' ∷ b'+' ∷ [],
    )
    ∷ (0x0E, 8 ∷ 9 ∷ [], 8 ∷ 9 ∷ [])
    ∷ (
      0x10,
      b'q' ∷ b'w' ∷ b'e' ∷ b'r' ∷ b't' ∷ b'y' ∷ b'u' ∷ b'i' ∷ b'o' ∷ b'p' ∷ b'[' ∷ b']' ∷ 10 ∷ [],
      b'Q' ∷ b'W' ∷ b'E' ∷ b'R' ∷ b'T' ∷ b'Y' ∷ b'U' ∷ b'I' ∷ b'O' ∷ b'P' ∷ b'{' ∷ b'}' ∷ 10 ∷ [],
    )
    ∷ (
      0x1E,
      b'a' ∷ b's' ∷ b'd' ∷ b'f' ∷ b'g' ∷ b'h' ∷ b'j' ∷ b'k' ∷ b'l' ∷ b';' ∷ 39 ∷ 96 ∷ [],
      b'A' ∷ b'S' ∷ b'D' ∷ b'F' ∷ b'G' ∷ b'H' ∷ b'J' ∷ b'K' ∷ b'L' ∷ b':' ∷ 34 ∷ b'~' ∷ [],
    )
    ∷ (
      0x2B,
      92 ∷ b'z' ∷ b'x' ∷ b'c' ∷ b'v' ∷ b'b' ∷ b'n' ∷ b'm' ∷ b',' ∷ b'.' ∷ b'/' ∷ [],
      b'|' ∷ b'Z' ∷ b'X' ∷ b'C' ∷ b'V' ∷ b'B' ∷ b'N' ∷ b'M' ∷ b'<' ∷ b'>' ∷ b'?' ∷ [],
    )
    ∷ (0x37, b'*' ∷ [], b'*' ∷ [])
    ∷ (0x39, b' ' ∷ [], b' ' ∷ [])
    ∷ []

abbrev in_rows : List Row → ℕ → Bool → ℕ
in_rows [] code shift = 0
in_rows ((first, plain, shifted) ∷ rows) code shift =
    if leb first code && ltb code (first + length plain)
    then get_or (if shift then shifted else plain) (code - first) 0
    else in_rows rows code shift

-- What a key types, 0 for nothing; a code from 128 on is a key that is let go.
unfoldable pub key_char : ℕ → Bool → ℕ
key_char code shift = in_rows layout code shift

-- The left and the right shift key are pressed or let go.
unfoldable pub shift_after : ℕ → Bool → Bool
shift_after code shift =
    if code == 0x2A || code == 0x36
    then true
    else if code == 0xAA || code == 0xB6
    then false
    else shift

-- The test of the two at one code.
abbrev agrees : Bool → ℕ → Bool
agrees shift code =
    let (c, shift') = translate_scancode code shift in
    (c == key_char code shift) && (if shift_after code shift then shift' else not shift')

agrees_table : holds_up_to (λ code. agrees true code && agrees false code) 256 ≡ true
unfolding holds_up_to translate_scancode key_char shift_after
agrees_table = refl

chosen_half : (b : Bool) (test : Bool → Bool) → (test true && test false) ≡ true → test b ≡ true
chosen_half true test h = ground (arith, h)
chosen_half false test h = ground (arith, h)

same_pair :
    (c d : ℕ) (a b : Bool)
    → ((c == d) && (if b then a else not a)) ≡ true
    → ◌≡◌ {A = ℕ × Bool} (c, a) (d, b)
same_pair c d a b h = ap₂ (λ x y. (x, y)) (ground (arith, h)) (ground (arith, h))

-- On every byte `translate_scancode` gives the character of the layout, and the state of the shift
-- keys.
pub translate_scancode_lem :
    (shift : Bool) (code : ℕ)
    → code < 256
    → translate_scancode code shift ≡ (key_char code shift, shift_after code shift)
translate_scancode_lem shift code byte =
    let both : (agrees true code && agrees false code) ≡ true =
      holds_up_to_lem (λ k. agrees true k && agrees false k) byte agrees_table in
    let agreed : agrees shift code ≡ true = chosen_half shift (λ b. agrees b code) both in
    same_pair (translate_scancode code shift).0 (key_char code shift)
      (translate_scancode code shift).1 (shift_after code shift) agreed
