-- ===== src/CString/Numerals/Room.antt =====
-- The buffers of the printers of src/lib/string.c are large enough.
use native.Mathlib.Nat.{pow-suc}
use tbs_kernel.Base.{
  ℕ, zero, suc, ◌+◌, ◌/◌, ◌%◌, ◌^◌, ◌≤◌, ◌<◌, ◌≡◌, some, List, ◌∷◌, arith, ◌==◌, length, Bool-cases,
  inl, inr,
}
use tbs_kernel.CString.Numerals.{digit_char, digits_loop}

-- A number below `base ^ k` takes at most `k` places of the buffer.
pub decimal_room :
    (k room v : ℕ) (buf : List ℕ)
    → v < 10 ^ k
    → k ≤ room
    → (out : List ℕ) × (digits_loop 10 room v buf ≡ some out) × (length out ≤ length buf + k)
unfolding digits_loop
decimal_room zero zero v buf h r = (buf, ground arith, omega arith)
decimal_room zero (suc room) v buf h r = (buf, ground arith, omega arith)
decimal_room (suc k) zero v buf h r = absurd (omega arith)
decimal_room (suc k) (suc room) v buf h r = elim (Bool-cases (v == 0)) [
  | inl e ↦ (buf, ground arith, omega arith)
  | inr e ↦
      let (out, eq, len) =
        decimal_room k room (v / 10) (digit_char (v % 10) ∷ buf) (omega (arith, pow-suc 10 k))
          (omega arith) in
      (out, ground arith, omega arith)
]

pub hex_room :
    (k room v : ℕ) (buf : List ℕ)
    → v < 16 ^ k
    → k ≤ room
    → (out : List ℕ) × (digits_loop 16 room v buf ≡ some out) × (length out ≤ length buf + k)
unfolding digits_loop
hex_room zero zero v buf h r = (buf, ground arith, omega arith)
hex_room zero (suc room) v buf h r = (buf, ground arith, omega arith)
hex_room (suc k) zero v buf h r = absurd (omega arith)
hex_room (suc k) (suc room) v buf h r = elim (Bool-cases (v == 0)) [
  | inl e ↦ (buf, ground arith, omega arith)
  | inr e ↦
      let (out, eq, len) =
        hex_room k room (v / 16) (digit_char (v % 16) ∷ buf) (omega (arith, pow-suc 16 k))
          (omega arith) in
      (out, ground arith, omega arith)
]
