-- ===== src/Windows/Blit.antt =====
-- The copy of the windows of src/lib/WM.c to the buffer of the screen.
use mathlib.Core.List.{Perm}
use tbs_kernel.Windows.{
  Window, WindowList, blit_row, blit_rows, blit_window_to_wm, blit_all, draw_gui_framebuffer,
  make_cell, framebuffer_clear, order_windows,
}
use tbs_kernel.Memory.State.{update}
use tbs_kernel.Windows.Order.{IsOrdered, order_windows-IsOrdered}
use tbs_kernel.Base.{
  ℕ, zero, suc, ◌+◌, ◌-◌, ◌*◌, ◌<◌, ◌≡◌, refl, ap, ◌∙◌, inl, inr, Bool, true, false, not, ◌&&◌,
  ◌||◌, [], ◌∷◌, arith, ltb, leb, ◌==◌, if◌then◌else◌, Bool-cases, length,
}

-- The cell of the screen in column `x` of row `y`.
abbrev at : ℕ → ℕ → ℕ
at x y = y * 80 + x

drawn_cell :
    (row sx c x y : ℕ) (buffer : ℕ → ℕ)
    → x < 80
    → (if leb 80 sx || c == 0 then buffer else update buffer (row * 80 + sx) c) (at x y)
      ≡ (if ((y == row) && (x == sx)) && not (c == 0) then c else buffer (at x y))
unfolding update
drawn_cell row sx c x y buffer h = elim (Bool-cases (leb 80 sx || c == 0)) [
  | inl k ↦ rw k (ground (arith, k))
  | inr k ↦ rw k (ground (arith, k))
]

row_step :
    (y row x sx n c q p : ℕ)
    → (x ≡ sx → q ≡ c)
    → (if ((y == row) && (leb (sx + 1) x && ltb x (sx + 1 + n))) && not (q == 0)
        then q
        else (if ((y == row) && (x == sx)) && not (c == 0) then c else p))
      ≡ (if ((y == row) && (leb sx x && ltb x (sx + suc n))) && not (q == 0) then q else p)
row_step y row x sx n c q p e = ground (arith, e)

row_cell :
    (n wx wy x y : ℕ) (win : Window) (buffer : ℕ → ℕ)
    → x < 80
    → blit_row n wx wy win buffer (at x y) ≡ (
        if ((y == win.posy + wy) && (leb (win.posx + wx) x && ltb x (win.posx + wx + n)))
          && not (win.framebuffer (wy * win.w + (x - win.posx)) == 0)
        then win.framebuffer (wy * win.w + (x - win.posx))
        else buffer (at x y))
unfolding blit_row
row_cell zero wx wy x y win buffer h = ground arith
row_cell (suc n) wx wy x y win buffer h =
    let source : ℕ → ℕ = λ k. win.framebuffer (wy * win.w + k) in
    let sx = win.posx + wx in
    let row = win.posy + wy in
    let c = source wx in
    let q = source (x - win.posx) in
    let place : win.posx + (wx + 1) ≡ sx + 1 = omega arith in
    let rest =
      row_cell n (wx + 1) wy x y win
        (if leb 80 sx || c == 0 then buffer else update buffer (row * 80 + sx) c) h in
    let drawn = drawn_cell row sx c x y buffer h in
    let shown_over : ℕ → ℕ = λ p.
      if ((y == row) && (leb (sx + 1) x && ltb x (sx + 1 + n))) && not (q == 0) then q else p in
    rw place at rest
    ∙ ap shown_over drawn
    ∙ row_step y row x sx n c q (buffer (at x y)) (λ e. ap source (omega (arith, e)))

-- The cell of a window that lies at a place of the screen.
abbrev pub source_cell : Window → ℕ → ℕ → ℕ
source_cell win x y = win.framebuffer ((y - win.posy) * win.w + (x - win.posx))

-- What a window shows at a place of the screen in place of `below`: cells that are 0 show nothing.
abbrev pub shown : ℕ → ℕ → Window → ℕ → ℕ
shown x y win below =
    let cell = source_cell win x y in
    let in_rows = leb win.posy y && ltb y (win.posy + win.h) in
    let in_columns = leb win.posx x && ltb x (win.posx + win.w) in
    if (in_rows && in_columns) && not (cell == 0) then cell else below

rows_step :
    (y sy n c q p : ℕ) (columns : Bool)
    → y < 25
    → (y ≡ sy → q ≡ c)
    → (if ((leb (sy + 1) y && ltb y (sy + 1 + n)) && columns) && not (q == 0)
        then q
        else (if ltb sy 25 && (((y == sy) && columns) && not (c == 0)) then c else p))
      ≡ (if ((leb sy y && ltb y (sy + suc n)) && columns) && not (q == 0) then q else p)
rows_step y sy n c q p columns h e = ground (arith, e)

-- A row below the screen is not drawn.
clipped_row :
    (wy x y : ℕ) (win : Window) (buffer : ℕ → ℕ)
    → x < 80
    → (if leb 25 (win.posy + wy) then buffer else blit_row win.w 0 wy win buffer) (at x y) ≡ (
        if ltb (win.posy + wy) 25
          && (((y == win.posy + wy) && (leb win.posx x && ltb x (win.posx + win.w)))
              && not (win.framebuffer (wy * win.w + (x - win.posx)) == 0))
        then win.framebuffer (wy * win.w + (x - win.posx))
        else buffer (at x y))
clipped_row wy x y win buffer h =
    let start : win.posx + 0 ≡ win.posx = omega arith in
    let row = rw start at (row_cell win.w 0 wy x y win buffer h) in
    elim (Bool-cases (leb 25 (win.posy + wy))) [
      | inl k ↦ let below : ltb (win.posy + wy) 25 ≡ false = ground (arith, k) in rw (k, below) refl
      | inr k ↦ let inside : ltb (win.posy + wy) 25 ≡ true = ground (arith, k) in rw (k, inside) row
    ]

rows_cell :
    (n wy x y : ℕ) (win : Window) (buffer : ℕ → ℕ)
    → x < 80
    → y < 25
    → blit_rows n wy win buffer (at x y) ≡ (
        if ((leb (win.posy + wy) y && ltb y (win.posy + wy + n))
            && (leb win.posx x && ltb x (win.posx + win.w)))
          && not (source_cell win x y == 0)
        then source_cell win x y
        else buffer (at x y))
unfolding blit_rows
rows_cell zero wy x y win buffer h k = ground arith
rows_cell (suc n) wy x y win buffer h k =
    let sy = win.posy + wy in
    let q = source_cell win x y in
    let c = win.framebuffer (wy * win.w + (x - win.posx)) in
    let columns = leb win.posx x && ltb x (win.posx + win.w) in
    let place : win.posy + (wy + 1) ≡ sy + 1 = omega arith in
    let row = if leb 25 sy then buffer else blit_row win.w 0 wy win buffer in
    let drawn : row (at x y)
        ≡ (if ltb sy 25 && (((y == sy) && columns) && not (c == 0)) then c else buffer (at x y)) =
      clipped_row wy x y win buffer h in
    let shown_over : ℕ → ℕ =
      λ p. if ((leb (sy + 1) y && ltb y (sy + 1 + n)) && columns) && not (q == 0) then q else p in
    let rest = rows_cell n (wy + 1) x y win row h k in
    rw place at rest
    ∙ ap shown_over drawn
    ∙ rows_step y sy n c q (buffer (at x y)) columns k
        (λ e. ap (λ j. win.framebuffer (j * win.w + (x - win.posx))) (omega (arith, e)))

blit_window-shown :
    (win : Window) (x y : ℕ) (buffer : ℕ → ℕ)
    → x < 80
    → y < 25
    → blit_window_to_wm win buffer (at x y) ≡ shown x y win (buffer (at x y))
unfolding blit_window_to_wm
blit_window-shown win x y buffer h k =
    let start : win.posy + 0 ≡ win.posy = omega arith in
    rw start at (rows_cell win.h 0 x y win buffer h k)

-- The windows above each other, the last one on top.
abbrev pub stack : ℕ → ℕ → WindowList → ℕ → ℕ
stack x y [] below = below
stack x y (win ∷ windows) below = stack x y windows (shown x y win below)

blit_all-stack :
    (windows : WindowList) (x y : ℕ) (buffer : ℕ → ℕ)
    → x < 80
    → y < 25
    → blit_all windows buffer (at x y) ≡ stack x y windows (buffer (at x y))
unfolding blit_all
blit_all-stack [] x y buffer h k = refl
blit_all-stack (win ∷ windows) x y buffer h k =
    blit_all-stack windows x y (blit_window_to_wm win buffer) h k
    ∙ ap (stack x y windows) (blit_window-shown win x y buffer h k)

-- With at least one window, `draw_gui_framebuffer` gives every place of the screen the cell of the
-- highest window that shows something there, or else a blank, and the windows are then in order.
pub draw_gui_framebuffer-stack :
    (windows : WindowList) (wm_buffer : ℕ → ℕ) (x y : ℕ)
    → 0 < length windows
    → x < 80
    → y < 25
    → let (ordered, screen) = draw_gui_framebuffer windows wm_buffer in
      IsOrdered ordered
      × Perm ordered windows
      × (screen (y * 80 + x) ≡ stack x y ordered (make_cell b' ' 0x0F))
unfolding draw_gui_framebuffer framebuffer_clear
draw_gui_framebuffer-stack windows wm_buffer x y some_window h k =
    let present : (length windows == 0) ≡ false = ground arith in
    let (ordered, same) = order_windows-IsOrdered windows in
    let clear = framebuffer_clear wm_buffer 80 25 0x0F in
    let blank : clear (at x y) ≡ make_cell b' ' 0x0F = ground arith in
    rw present (
      ordered,
      same,
      blit_all-stack (order_windows (length windows) windows) x y clear h k
          ∙ ap (stack x y (order_windows (length windows) windows)) blank,
    )
