-- ===== src/Compositor/Cursor.antt =====
-- The cursor of `compositor_main` in src/kernel/modules/compositor.c.
use tbs_kernel.Compositor.{
  Screen, vga_putc, compositor_byte, scroll_x0, grid_width, scroll_x1, scroll_y0, scroll_y1,
  vga_set_color, vga_yellow, vga_blue, space,
}
use tbs_kernel.Memory.State.{update}
use tbs_kernel.Compositor.Scroll.{in_text, cell, compositor_scroll-cell}
use tbs_kernel.Base.{
  ℕ, ◌-◌, ◌≤◌, ◌<◌, ◌≡◌, refl, ◌∙◌, inl, inr, true, false, ◌||◌, arith, ltb, leb, ◌==◌, Bool-cases,
}

-- The cursor stands in the text area.
pub record IsInside (s : Screen) : Type 0 where
  pub left : scroll_x0 ≤ s.cursor_x
  pub right : s.cursor_x ≤ scroll_x1
  pub top : scroll_y0 ≤ s.cursor_y
  pub bottom : s.cursor_y ≤ scroll_y1

-- The cells of the border and of the bottom row.
abbrev pub SameBorder : Screen → Screen → Type 0
SameBorder s s' =
    (x y : ℕ)
    → x < grid_width
    → in_text x y ≡ false
    → s'.framebuffer (cell x y) ≡ s.framebuffer (cell x y)

putc-border : (c x y : ℕ) (s : Screen) → in_text x y ≡ true → SameBorder s (vga_putc c x y s)
unfolding vga_putc update
putc-border c x y s inside u v narrow outside = ground (arith, inside, outside)

-- With the cursor in the text area, columns 1 to 78 and rows 1 to 22, every byte of output leaves
-- it there, and changes no cell of the border and none of the bottom row.
pub compositor_byte-IsInside :
    (c : ℕ) (s : Screen)
    → IsInside s
    → IsInside (compositor_byte c s) × SameBorder s (compositor_byte c s)
unfolding compositor_byte
compositor_byte-IsInside c s inside =
    let on : Screen = vga_set_color vga_yellow vga_blue s in
    elim (Bool-cases (c == 8)) [
      | inl erases ↦ elim (Bool-cases (ltb 1 s.cursor_x)) [
        | inl more ↦
            rw (erases, more)
              (
                record {
                  left = ground arith;
                  right = ground arith;
                  top = inside.top;
                  bottom = inside.bottom;
                },
                putc-border space (s.cursor_x - 1) s.cursor_y
                    (record on { cursor_x = s.cursor_x - 1 })
                    (ground (arith, inside.right, inside.top, inside.bottom)),
              )
        | inr first ↦ elim (Bool-cases (ltb 1 s.cursor_y)) [
          | inl above ↦
              rw (erases, first, above)
                (
                  record {
                    left = omega arith;
                    right = omega arith;
                    top = ground arith;
                    bottom = ground (arith, inside.bottom);
                  },
                  putc-border space 78 (s.cursor_y - 1)
                      (record on { cursor_x = 78; cursor_y = s.cursor_y - 1 })
                      (ground (arith, inside.bottom)),
                )
          | inr start ↦
              rw (erases, first, start)
                (
                  record {
                    left = inside.left;
                    right = inside.right;
                    top = inside.top;
                    bottom = inside.bottom;
                  },
                  λ x y h out. refl,
                )
        ]
      ]
      | inr other ↦ elim (Bool-cases (c == b'\n' || leb 78 s.cursor_x)) [
        | inl breaks ↦ elim (Bool-cases (ltb s.cursor_y 22)) [
          | inl room ↦
              rw (other, breaks, room)
                (
                  record {
                    left = omega arith;
                    right = omega arith;
                    top = ground (arith, inside.top);
                    bottom = ground arith;
                  },
                  λ x y h out. refl,
                )
          | inr last ↦
              rw (other, breaks, last)
                (
                  record {
                    left = omega arith;
                    right = omega arith;
                    top = omega arith;
                    bottom = omega arith;
                  },
                  λ x y h out. (compositor_scroll-cell on x y h).0 ∙ rw out refl,
                )
        ]
        | inr prints ↦
            rw (other, prints)
              (
                record {
                  left = ground (arith, inside.left);
                  right = ground (arith, prints);
                  top = inside.top;
                  bottom = inside.bottom;
                },
                putc-border c s.cursor_x s.cursor_y on
                    (ground (arith, inside.left, inside.right, inside.top, inside.bottom)),
              )
      ]
    ]
