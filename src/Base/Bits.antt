-- ===== src/Base/Bits.antt =====
-- Facts about the bits of a byte, checked at every byte and bit number.
use Prim.Native.Nat.{ℕ, zero, suc, ◌-◌, ◌/◌, ◌%◌, ◌^◌, ◌<◌, bit_and, bit_or}
use mathlib.Core.Path.{◌≡◌, refl}
use mathlib.Core.Bool.{Bool, true, ◌&&◌}
use native.Mathlib.Omega.{arith}
use tbs_kernel.Base.Tests.{◌==◌, if◌then◌else◌, ==_iff}

-- A Boolean test holds of every number less than a bound.
unfoldable pub holds_up_to : (ℕ → Bool) → ℕ → Bool
holds_up_to test zero = true
holds_up_to test (suc bound) = holds_up_to test bound && test bound

pub holds_up_to_lem :
    (test : ℕ → Bool) {i bound : ℕ} → i < bound → holds_up_to test bound ≡ true → test i ≡ true
unfolding holds_up_to
holds_up_to_lem test {bound = zero} small all = absurd (omega arith)
holds_up_to_lem test {i = i} {bound = suc bound} small all =
    ground (arith, holds_up_to_lem test {i = i} {bound = bound})

-- Bit `k` of a byte, `(b >> k) & 1`.
abbrev pub bit : ℕ → ℕ → ℕ
bit b k = b / 2 ^ k % 2

-- `b |= 1u << k` and `b &= ~(1u << k)` on a `uint8_t`.
unfoldable pub set_bit_of : ℕ → ℕ → ℕ
set_bit_of b k = bit_or b (2 ^ k) % 256

unfoldable pub clear_bit_of : ℕ → ℕ → ℕ
clear_bit_of b k = bit_and b (2 ^ 32 - 1 - 2 ^ k) % 256

set_table :
    holds_up_to
      (λ k.
        holds_up_to
          (λ j. holds_up_to (λ b. bit (set_bit_of b k) j == (if k == j then 1 else bit b j)) 256)
          8)
      8
    ≡ true
unfolding holds_up_to set_bit_of
set_table = refl

clear_table :
    holds_up_to
      (λ k.
        holds_up_to
          (λ j. holds_up_to (λ b. bit (clear_bit_of b k) j == (if k == j then 0 else bit b j)) 256)
          8)
      8
    ≡ true
unfolding holds_up_to clear_bit_of
clear_table = refl

pub bit-set_bit_of :
    (b k j : ℕ) → b < 256 → k < 8 → j < 8 → bit (set_bit_of b k) j ≡ (if k == j then 1 else bit b j)
bit-set_bit_of b k j hb hk hj =
    (==_iff _ _).0 (holds_up_to_lem _ hb (holds_up_to_lem _ hj (holds_up_to_lem _ hk set_table)))

pub bit-clear_bit_of :
    (b k j : ℕ)
    → b < 256
    → k < 8
    → j < 8
    → bit (clear_bit_of b k) j ≡ (if k == j then 0 else bit b j)
bit-clear_bit_of b k j hb hk hj =
    (==_iff _ _).0 (holds_up_to_lem _ hb (holds_up_to_lem _ hj (holds_up_to_lem _ hk clear_table)))

pub set_bit_of-lt : (b k : ℕ) → set_bit_of b k < 256
unfolding set_bit_of
set_bit_of-lt b k = omega arith

pub clear_bit_of-lt : (b k : ℕ) → clear_bit_of b k < 256
unfolding clear_bit_of
clear_bit_of-lt b k = omega arith
