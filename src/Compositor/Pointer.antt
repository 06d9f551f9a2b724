-- ===== src/Compositor/Pointer.antt =====
-- The mouse pointer of src/kernel/modules/compositor.c: `CompositorEnableMouse`, and the line that
-- `cpu_usage` writes to the bottom row.
use tbs_kernel.Base.{
  ℕ, ◌+◌, ◌-◌, ◌*◌, ◌/◌, ◌%◌, ◌^◌, ◌<◌, ◌≡◌, refl, Option, none, some, List, [], ◌∷◌, arith, leb,
  ◌==◌, if◌then◌else◌,
}
use tbs_kernel.Compositor.{
  grid_width, vga_yellow, vga_putc, vga_blue, Screen, space, vga_set_color, vga_black,
  vga_light_grey,
}
use tbs_kernel.Ramfs.Directories.{update_self}
use tbs_kernel.Memory.State.{update}

-- `old_screen_x`, `old_screen_y` and `saved_vga_entry`; `none` before the first round.
pub record PointerState : Type 0 where
  pub old_position : Option (ℕ × ℕ)
  pub saved_entry : ℕ

-- The mouse's coordinates are not negative, since its driver keeps them in its range: the tests
-- below 0 are never true and left out.
abbrev pub scale : ℕ → ℕ → ℕ → ℕ
scale v size max = let scaled = v * size / max in if leb size scaled then size - 1 else scaled

-- `if (old_screen_x >= 0 && old_screen_y >= 0) …`
unfoldable pub restore_entry : PointerState → (ℕ → ℕ) → ℕ → ℕ
restore_entry p fb = elim p.old_position [
  | none ↦ fb
  | some (x, y) ↦ update fb (y * grid_width + x) p.saved_entry
]

-- The pointer: an arrow in inverted colours.
abbrev pub arrow : ℕ
arrow = vga_yellow * 2 ^ 8 + vga_blue * 2 ^ 12

-- One round of the loop, between the two calls of the lock.
unfoldable pub mouse_round : ℕ → ℕ → ℕ → ℕ → PointerState × (ℕ → ℕ) → PointerState × (ℕ → ℕ)
unfolding restore_entry
mouse_round x y max_x max_y (p, fb) =
    let screen_x = scale x 80 max_x in
    let screen_y = scale y 24 max_y in
    let restored = restore_entry p fb in
    let new_index = screen_y * grid_width + screen_x in
    (
      record { old_position = some (screen_x, screen_y); saved_entry = restored new_index },
      update restored new_index (arrow + 0x18),
    )

-- `(busy_ticks * 100) / usage_ticks`; `none` is a division by 0.
unfoldable pub usage_percent : ℕ → ℕ → Option ℕ
usage_percent busy_ticks usage_ticks =
    if usage_ticks == 0 then none else some ((busy_ticks * 100) % 2 ^ 32 / usage_ticks)

-- The loop of `cpu_usage` over its text.
unfoldable pub draw_usage : List ℕ → ℕ → Screen → Screen
unfolding vga_putc
draw_usage [] i s = s
draw_usage (c ∷ text) i s =
    let cleared = vga_putc space (2 + i) 24 (vga_set_color vga_black vga_light_grey s) in
    if c == 0 then s else draw_usage text (i + 1) (vga_putc c (1 + i) 24 cleared)

-- What the screen would show without the pointer.
abbrev pub under_pointer : PointerState × (ℕ → ℕ) → ℕ → ℕ
unfolding restore_entry
under_pointer (p, fb) = restore_entry p fb

update_back : (g : ℕ → ℕ) (a v i : ℕ) → update (update g a v) a (g a) i ≡ g i
unfolding update
update_back g a v i = ground arith

-- A round of the loop, wherever the mouse is, leaves what stands under the pointer as it was, so a
-- later round gives back every entry that the pointer hid; and it shows the pointer inside the 80
-- columns and the 24 rows above the bottom one.
pub mouse_round-under_pointer :
    (x y max_x max_y : ℕ) (s : PointerState × (ℕ → ℕ))
    → let s' = mouse_round x y max_x max_y s in
      ((i : ℕ) → under_pointer s' i ≡ under_pointer s i)
      × (s'.0.old_position ≡ some (scale x 80 max_x, scale y 24 max_y))
      × (scale x 80 max_x < 80)
      × (scale y 24 max_y < 24)
      × (s'.1 (scale y 24 max_y * grid_width + scale x 80 max_x) ≡ arrow + 0x18)
unfolding mouse_round restore_entry
mouse_round-under_pointer x y max_x max_y (p, fb) =
    let index = scale y 24 max_y * grid_width + scale x 80 max_x in
    (
      λ i. update_back (restore_entry p fb) index (arrow + 0x18) i,
      refl,
      ground arith,
      ground arith,
      update_self (restore_entry p fb) index (arrow + 0x18),
    )
