-- ===== src/Mouse.antt =====
-- src/kernel/drivers/ps2_mouse.c: the packets of three bytes and the position that they move.
use tbs_kernel.Base.{
  ℕ, zero, suc, ◌+◌, ◌-◌, ◌*◌, ◌/◌, ◌%◌, ◌^◌, ◌≤◌, ◌<◌, ◌≡◌, refl, sym, ap, ap₂, ◌∙◌, ◌≢◌, ◌↔◌, ◌⊎◌,
  inl, inr, Bool, true, false, not, ◌&&◌, ◌||◌, Option, none, some, List, [], ◌∷◌, ◌++◌, append-nil,
  append_assoc, arith, dec_lt, ℕ_discrete, ltb, leb, ◌==◌, if◌then◌else◌, ltb→lt, lt→ltb, ==_iff,
  Bool-cases, Option-cases, length, get_elem?, get_or, set, take, drop, replicate, length-append,
  length-set, get_or-set_self, get_or-set_ne, ◌>>=◌, All, All-append,
}
use tbs_kernel.Base.Int.{ℤ, pos, ◌+ℤ◌, ltb_ℤ, ◌-ℤ◌}
use tbs_kernel.Base.Words.{signed8}
pub mod Packets

-- `mouse_x`, `mouse_y`, `mouse_cycle` and `mouse_bytes`.
pub record Mouse : Type 0 where
  pub mouse_x : ℤ
  pub mouse_y : ℤ
  pub mouse_cycle : ℕ
  pub byte0 : ℕ
  pub byte1 : ℕ
  pub byte2 : ℕ

abbrev pub mouse_max_x : ℤ
mouse_max_x = pos 1000

abbrev pub mouse_max_y : ℤ
mouse_max_y = pos 1000

abbrev pub mouse_start : Mouse
mouse_start = record {
  mouse_x = pos 500;
  mouse_y = pos 500;
  mouse_cycle = 0;
  byte0 = 0;
  byte1 = 0;
  byte2 = 0;
}

-- `if (x < 0) x = 0; if (x > max) x = max;`
unfoldable pub clamp : ℤ → ℤ → ℤ
clamp max x = let low = if ltb_ℤ x (pos 0) then pos 0 else x in if ltb_ℤ max low then max else low

-- The part behind the `switch`.
unfoldable pub move_by_packet : Mouse → Mouse
unfolding clamp
move_by_packet m = record m {
  mouse_x = clamp mouse_max_x (m.mouse_x +ℤ signed8 m.byte1);
  mouse_y = clamp mouse_max_y (m.mouse_y -ℤ signed8 m.byte2);
}

-- The two bytes are what the ports 0x64 and 0x60 hold.
unfoldable pub mouse_irq_handler : ℕ → ℕ → Mouse → Mouse
mouse_irq_handler status value m =
    if not (status / 0x20 % 2 == 1)
    then m
    else if m.mouse_cycle == 0
    then (if not (value / 8 % 2 == 1) then m else record m { byte0 = value; mouse_cycle = 1 })
    else if m.mouse_cycle == 1
    then record m { byte1 = value; mouse_cycle = 2 }
    else if m.mouse_cycle == 2
    then move_by_packet (record m { byte2 = value; mouse_cycle = 0 })
    else move_by_packet m

-- Under the mouse's lock, which only this function takes and releases.
unfoldable pub mouse_get_position : Mouse → ℤ × ℤ
mouse_get_position m = (m.mouse_x, m.mouse_y)
