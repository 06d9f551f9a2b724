-- ===== src/Mouse/Packets.antt =====
-- The position that the packets of src/kernel/drivers/ps2_mouse.c leave.
use mathlib.Core.Path.{subst}
use tbs_kernel.Mouse.{Mouse, clamp, move_by_packet, mouse_irq_handler, mouse_max_x, mouse_max_y}
use tbs_kernel.Base.Int.{ℤ, pos, negsuc, ◌≤ℤ◌, ◌+ℤ◌, ◌-ℤ◌}
use tbs_kernel.Base.{
  ℕ, ◌/◌, ◌%◌, ◌≡◌, refl, ap, ◌∙◌, inl, inr, true, false, List, [], ◌∷◌, ◌++◌, arith, ◌==◌,
  Bool-cases, All, sym, ltb, if◌then◌else◌,
}
use tbs_kernel.Base.Words.{signed8}

pub record IsOnScreen (m : Mouse) : Type 0 where
  pub left : pos 0 ≤ℤ m.mouse_x
  pub right : m.mouse_x ≤ℤ mouse_max_x
  pub top : pos 0 ≤ℤ m.mouse_y
  pub bottom : m.mouse_y ≤ℤ mouse_max_y

clamp-bounds : (x : ℤ) → (pos 0 ≤ℤ clamp (pos 1000) x) × (clamp (pos 1000) x ≤ℤ pos 1000)
unfolding clamp
clamp-bounds (pos n) = ground arith
clamp-bounds (negsuc n) = ground arith

move_by_packet-IsOnScreen : (m : Mouse) → IsOnScreen (move_by_packet m)
unfolding move_by_packet
move_by_packet-IsOnScreen m =
    let x = clamp-bounds (m.mouse_x +ℤ signed8 m.byte1) in
    let y = clamp-bounds (m.mouse_y -ℤ signed8 m.byte2) in
    record { left = x.0; right = x.1; top = y.0; bottom = y.1 }

-- Every interrupt, whatever the ports hold, keeps the position between 0 and 1000 on both axes.
pub mouse_irq_handler-IsOnScreen :
    (status value : ℕ) (m : Mouse) → IsOnScreen m → IsOnScreen (mouse_irq_handler status value m)
unfolding mouse_irq_handler
mouse_irq_handler-IsOnScreen status value m v =
    let still : (k b0 b1 : ℕ) → IsOnScreen (record m { mouse_cycle = k; byte0 = b0; byte1 = b1 }) =
      λ k b0 b1. record { left = v.left; right = v.right; top = v.top; bottom = v.bottom } in
    elim (Bool-cases (status / 0x20 % 2 == 1)) [
      | inr other ↦ rw other v
      | inl mouse ↦ rw mouse (elim (Bool-cases (m.mouse_cycle == 0)) [
        | inl first ↦ rw first (elim (Bool-cases (value / 8 % 2 == 1)) [
          | inl start ↦ rw start (still 1 value m.byte1)
          | inr skip ↦ rw skip v
        ])
        | inr later ↦ rw later (elim (Bool-cases (m.mouse_cycle == 1)) [
          | inl second ↦ rw second (still 2 m.byte0 value)
          | inr last ↦ rw last (elim (Bool-cases (m.mouse_cycle == 2)) [
            | inl third ↦
                rw third (move_by_packet-IsOnScreen (record m { byte2 = value; mouse_cycle = 0 }))
            | inr none_of ↦ rw none_of (move_by_packet-IsOnScreen m)
          ])
        ])
      ])
    ]

-- The interrupts for a run of bytes from the mouse.
unfoldable pub feed : List ℕ → Mouse → Mouse
feed [] m = m
feed (b ∷ bytes) m = feed bytes (mouse_irq_handler 0x20 b m)

start_step :
    (flags : ℕ) (m : Mouse)
    → m.mouse_cycle ≡ 0
    → flags / 8 % 2 ≡ 1
    → mouse_irq_handler 0x20 flags m ≡ record m { byte0 = flags; mouse_cycle = 1 }
unfolding mouse_irq_handler
start_step flags m start bit =
    let first : (m.mouse_cycle == 0) ≡ true = ground arith in
    let on : (flags / 8 % 2 == 1) ≡ true = ground arith in rw (first, on)

skip_step : (b : ℕ) (m : Mouse) → m.mouse_cycle ≡ 0 → b / 8 % 2 ≡ 0 → mouse_irq_handler 0x20 b m ≡ m
unfolding mouse_irq_handler
skip_step b m start bit =
    let first : (m.mouse_cycle == 0) ≡ true = ground arith in
    let off : (b / 8 % 2 == 1) ≡ false = ground arith in rw (first, off)

packet_steps :
    (flags dx dy : ℕ) (m : Mouse)
    → mouse_irq_handler 0x20 dy
        (mouse_irq_handler 0x20 dx (record m { byte0 = flags; mouse_cycle = 1 }))
      ≡ record {
        mouse_x = clamp mouse_max_x (m.mouse_x +ℤ signed8 dx);
        mouse_y = clamp mouse_max_y (m.mouse_y -ℤ signed8 dy);
        mouse_cycle = 0;
        byte0 = flags;
        byte1 = dx;
        byte2 = dy;
      }
unfolding mouse_irq_handler move_by_packet
packet_steps flags dx dy m = refl

-- Where a coordinate lies after a move to `target`: there, or at the edge of the screen that
-- `target` is behind.
abbrev pub IsMovedTo : ℤ → ℤ → Type 0
IsMovedTo (negsuc n) x = x ≡ pos 0
IsMovedTo (pos n) x = x ≡ pos (if ltb 1000 n then 1000 else n)

clamp-IsMovedTo : (target : ℤ) → IsMovedTo target (clamp (pos 1000) target)
unfolding clamp
clamp-IsMovedTo (pos n) = ground arith
clamp-IsMovedTo (negsuc n) = ground arith

-- The state after a packet: the bytes are kept, and the mouse waits for the next one.
abbrev pub IsAfterPacket : ℕ → ℕ → ℕ → Mouse → Mouse → Type 0
IsAfterPacket flags dx dy m m' =
    IsMovedTo (m.mouse_x +ℤ signed8 dx) m'.mouse_x
    × IsMovedTo (m.mouse_y -ℤ signed8 dy) m'.mouse_y
    × (m'.mouse_cycle ≡ 0)
    × (m'.byte0 ≡ flags)
    × (m'.byte1 ≡ dx)
    × (m'.byte2 ≡ dy)

-- At the start of a packet the bytes without bit 3 are skipped. The next three bytes are the packet:
-- the position moves by the second, and against the third, as signed bytes, and stops at 0 and at
-- 1000. After them the mouse waits for the next packet.
pub feed-packet :
    (skipped : List ℕ) (flags dx dy : ℕ) (m : Mouse)
    → m.mouse_cycle ≡ 0
    → All (λ b. b / 8 % 2 ≡ 0) skipped
    → flags / 8 % 2 ≡ 1
    → IsAfterPacket flags dx dy m (feed (skipped ++ flags ∷ dx ∷ dy ∷ []) m)
unfolding feed
feed-packet [] flags dx dy m start all start_byte =
    subst (IsAfterPacket flags dx dy m)
      (sym (
        ap (λ k. mouse_irq_handler 0x20 dy (mouse_irq_handler 0x20 dx k))
          (start_step flags m start start_byte)
        ∙ packet_steps flags dx dy m))
      (
        clamp-IsMovedTo (m.mouse_x +ℤ signed8 dx),
        clamp-IsMovedTo (m.mouse_y -ℤ signed8 dy),
        refl,
        refl,
        refl,
        refl,
      )
feed-packet (b ∷ skipped) flags dx dy m start all start_byte =
    subst (λ k. IsAfterPacket flags dx dy m (feed (skipped ++ flags ∷ dx ∷ dy ∷ []) k))
      (sym (skip_step b m start all.0)) (feed-packet skipped flags dx dy m start all.1 start_byte)
