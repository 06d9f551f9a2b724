-- ===== src/Compositor/Scroll.antt =====
-- `compositor_scroll` of src/kernel/modules/compositor.c moves the text up by one row.
use tbs_kernel.Base.{
  ℕ, zero, suc, ◌+◌, ◌*◌, ◌<◌, ◌≡◌, refl, ap, ◌∙◌, inl, inr, Bool, false, ◌&&◌, arith, ltb, leb,
  ◌==◌, if◌then◌else◌, Bool-cases,
}
use tbs_kernel.Compositor.{
  Screen, blank, compositor_scroll, move_row, clear_row, for_loop, grid_width, scroll_y1,
}

-- The cell in column `x` of row `y`.
abbrev pub cell : ℕ → ℕ → ℕ
cell x y = y * grid_width + x

-- In the area of the text.
abbrev pub in_text : ℕ → ℕ → Bool
in_text x y = leb 1 x && leb x 78 && (leb 1 y && leb y 22)

-- The columns of the text.
abbrev in_columns : ℕ → Bool
in_columns x = leb 1 x && leb x 78

moved_cell :
    (row x y : ℕ) (fb : ℕ → ℕ)
    → x < 80
    → move_row row fb (cell x y)
      ≡ (if in_columns x && (row == y) then fb (cell x (y + 1)) else fb (cell x y))
unfolding move_row
moved_cell row x y fb h =
    let below : y * 80 + x + 80 ≡ (y + 1) * 80 + x = omega arith in rw below (ground arith)

cleared_cell :
    (row x y : ℕ) (fb : ℕ → ℕ)
    → x < 80
    → clear_row row fb (cell x y) ≡ (if in_columns x && (row == y) then blank else fb (cell x y))
unfolding clear_row
cleared_cell row x y fb h = ground arith

rows_moved :
    (n first x y : ℕ) (fb : ℕ → ℕ)
    → x < 80
    → for_loop n first move_row fb (cell x y) ≡ (
        if in_columns x && (leb first y && ltb y (first + n))
        then fb (cell x (y + 1))
        else fb (cell x y))
unfolding for_loop
rows_moved zero first x y fb h =
    let out : (leb first y && ltb y (first + 0)) ≡ false = ground arith in
    elim (Bool-cases (in_columns x)) [ inl k ↦ rw (out, k) refl | inr k ↦ rw (out, k) refl ]
rows_moved (suc n) first x y fb h =
    let rest = rows_moved n (first + 1) x y (move_row first fb) h in
    let here = moved_cell first x y fb h in
    let next = moved_cell first x (y + 1) fb h in ground (arith, rest, here, next)

scrolled_choice :
    (x y p q r : ℕ)
    → (if in_columns x && (22 == y)
        then p
        else (if in_columns x && (leb 1 y && ltb y 22) then q else r))
      ≡ (if in_text x y then (if y == 22 then p else q) else r)
scrolled_choice x y p q r = ground arith

-- A scroll gives every cell of the text in rows 1 to 21 the entry of the cell below it, and makes
-- the row 22 blank; it changes no other cell, and not the cursor.
pub compositor_scroll-cell :
    (s : Screen) (x y : ℕ)
    → x < grid_width
    → ((compositor_scroll s).framebuffer (cell x y) ≡ (
        if in_text x y
        then (if y == scroll_y1 then blank else s.framebuffer (cell x (y + 1)))
        else s.framebuffer (cell x y)))
      × ((compositor_scroll s).cursor_x ≡ s.cursor_x)
      × ((compositor_scroll s).cursor_y ≡ s.cursor_y)
unfolding compositor_scroll
compositor_scroll-cell s x y h =
    let fb = s.framebuffer in
    (
      cleared_cell 22 x y (for_loop 21 1 move_row fb) h
          ∙ ap (λ k. if in_columns x && (22 == y) then blank else k) (rows_moved 21 1 x y fb h)
          ∙ scrolled_choice x y blank (fb (cell x (y + 1))) (fb (cell x y)),
      refl,
      refl,
    )
