-- ===== src/Windows.antt =====
-- src/lib/WM.c: the list of windows, their framebuffers, the order in which they are drawn and the
-- copy to the buffer of the screen. `make_attr` calls the
-- function that a driver has registered: the attributes that it gives are arguments here.
-- The source's GRID_WITDH is declared nowhere; 80 stands for it, the width that `alloc_wm_buffer`
-- gives the buffer.
pub mod Order
pub mod Blit
pub mod Make
pub mod Moves
use tbs_kernel.Memory.State.{update}
use tbs_kernel.Memory.Allocator.{Allocator}
use tbs_kernel.Base.{
  ℕ, zero, suc, ◌+◌, ◌-◌, ◌*◌, ◌/◌, ◌%◌, ◌^◌, ◌≤◌, ◌<◌, ◌≡◌, refl, sym, ap, ap₂, ◌∙◌, ◌≢◌, ◌↔◌, ◌⊎◌,
  inl, inr, Bool, true, false, not, ◌&&◌, ◌||◌, Option, none, some, List, [], ◌∷◌, ◌++◌, append-nil,
  append_assoc, arith, dec_lt, ℕ_discrete, ltb, leb, ◌==◌, if◌then◌else◌, ltb→lt, lt→ltb, ==_iff,
  Bool-cases, Option-cases, length, get_elem?, get_or, set, take, drop, replicate, length-append,
  length-set, get_or-set_self, get_or-set_ne, ◌>>=◌, All, All-append, In, In-append_left,
  In-append_right,
}
use tbs_kernel.CString.Copy.{strlen}

-- `Window`. Its coordinates are bytes, and its framebuffer is found by the index of a cell.
pub record Window : Type 0 where
  pub posx : ℕ
  pub posy : ℕ
  pub w : ℕ
  pub h : ℕ
  pub title : List ℕ
  pub framebuffer : ℕ → ℕ
  pub z : ℕ
  pub border : Bool
  pub canbesel : Bool
  pub fg : ℕ
  pub bg : ℕ

-- The windows of the list, which are `windowCount`.
abbrev pub WindowList : Type 0
WindowList = List Window

unfoldable pub make_cell : ℕ → ℕ → ℕ
make_cell c attr = attr % 2 ^ 8 * 2 ^ 8 + c % 2 ^ 8

unfoldable pub window_put_char : Window → ℕ → ℕ → ℕ → ℕ → Window
unfolding make_cell
window_put_char win x y c attr =
    let index = y * win.w + x in
    if leb win.w x || leb win.h y
    then win
    else record win { framebuffer = update win.framebuffer index (make_cell c attr) }

-- `localpos` is a byte; `none` is a text without a terminator.
unfoldable pub window_put_string : Window → List ℕ → ℕ → ℕ → ℕ → Option Window
unfolding window_put_char
window_put_string win [] localpos ypos attr = none
window_put_string win (c ∷ str) localpos ypos attr =
    let more =
      window_put_string (window_put_char win localpos ypos c attr) str ((localpos + 1) % 2 ^ 8) ypos
        attr in
    if c == 0 then some win else more

-- The cells below the size; what lies above stays.
unfoldable pub framebuffer_clear : (ℕ → ℕ) → ℕ → ℕ → ℕ → ℕ → ℕ
unfolding make_cell
framebuffer_clear framebuffer w h attr i =
    if ltb i (w * h) then make_cell b' ' attr else framebuffer i

-- `for (int i = first; n more times; i++)` on a window.
unfoldable pub each_cell : ℕ → ℕ → (ℕ → Window → Window) → Window → Window
each_cell zero i body win = win
each_cell (suc n) i body win = each_cell n (i + 1) body (body i win)

abbrev put_at : ℕ → ℕ → ℕ → ℕ → Window → Window
unfolding window_put_char
put_at x y c attr win = window_put_char win x y c attr

-- The border and its corners, up to the holder of the title.
unfoldable pub draw_border : ℕ → Window → Window
unfolding each_cell put_at
draw_border attr win =
    let right = win.w - 1 in
    let bottom = win.h - 1 in
    let top_bar = each_cell win.w 0 (λ x. put_at x 0 0xCD attr) win in
    let bottom_bar = each_cell win.w 0 (λ x. put_at x bottom 0xCD attr) top_bar in
    let left_bar = each_cell win.h 0 (λ y. put_at 0 y 0xBA attr) bottom_bar in
    let right_bar = each_cell win.h 0 (λ y. put_at right y 0xBA attr) left_bar in
    let corners =
      put_at right bottom 0xBC attr
        (put_at right 0 0xBB attr (put_at 0 bottom 0xC8 attr (put_at 0 0 0xC9 attr right_bar))) in
    put_at 1 0 0xB5 attr corners

-- `if (i != index && windowlist[i].z >= windowlist[index].z) windowlist[i].z--`
unfoldable pub lower_others : ℕ → ℕ → ℕ → WindowList → WindowList
lower_others index top i [] = []
lower_others index top i (win ∷ windows) =
    let rest = lower_others index top (i + 1) windows in
    (if not (i == index) && leb top win.z then record win { z = win.z - 1 } else win) ∷ rest

unfoldable pub select_window : ℕ → WindowList → WindowList
unfolding lower_others
select_window index windows = elim (get_elem? windows index) [
  | none ↦ windows
  | some win ↦
      let count = length windows in
      if win.canbesel
      then lower_others index count 0 (set windows index (record win { z = count }))
      else windows
]

-- The windows behind the index move down by one, and the count is one less; with no window at all
-- the bound of the loop wraps, and it leaves the array.
unfoldable pub remove_window : ℕ → WindowList → Option WindowList
remove_window index [] = none
remove_window index (win ∷ windows) =
    let all = win ∷ windows in
    some (
      if ltb index (length all)
      then take index all ++ drop (index + 1) all
      else take (length windows) all)

-- The inner loop: the first `n` neighbours are compared.
unfoldable pub order_pass : ℕ → WindowList → WindowList
order_pass zero windows = windows
order_pass (suc n) [] = []
order_pass (suc n) (a ∷ []) = a ∷ []
order_pass (suc n) (a ∷ b ∷ windows) =
    let swapped = b ∷ order_pass n (a ∷ windows) in
    let kept = a ∷ order_pass n (b ∷ windows) in if ltb b.z a.z then swapped else kept

-- The outer loop: `windowCount - i - 1` neighbours in round `i`.
unfoldable pub order_windows : ℕ → WindowList → WindowList
unfolding order_pass
order_windows zero windows = windows
order_windows (suc left) windows = order_windows left (order_pass left windows)

-- One row of a window from column `wx` on, and the rows from `wy` on.
unfoldable pub blit_row : ℕ → ℕ → ℕ → Window → (ℕ → ℕ) → ℕ → ℕ
blit_row zero wx wy win buffer = buffer
blit_row (suc n) wx wy win buffer =
    let sx = win.posx + wx in
    let cell = win.framebuffer (wy * win.w + wx) in
    let drawn = update buffer ((win.posy + wy) * 80 + sx) cell in
    blit_row n (wx + 1) wy win (if leb 80 sx || cell == 0 then buffer else drawn)

unfoldable pub blit_rows : ℕ → ℕ → Window → (ℕ → ℕ) → ℕ → ℕ
unfolding blit_row
blit_rows zero wy win buffer = buffer
blit_rows (suc n) wy win buffer =
    blit_rows n (wy + 1) win
      (if leb 25 (win.posy + wy) then buffer else blit_row win.w 0 wy win buffer)

unfoldable pub blit_window_to_wm : Window → (ℕ → ℕ) → ℕ → ℕ
unfolding blit_rows
blit_window_to_wm win buffer = blit_rows win.h 0 win buffer

-- The windows from the back to the front.
unfoldable pub blit_all : WindowList → (ℕ → ℕ) → ℕ → ℕ
unfolding blit_window_to_wm
blit_all [] buffer = buffer
blit_all (win ∷ windows) buffer = blit_all windows (blit_window_to_wm win buffer)

-- The list in its new order, and the buffer that goes to the screen.
unfoldable pub draw_gui_framebuffer : WindowList → (ℕ → ℕ) → WindowList × (ℕ → ℕ)
unfolding order_windows blit_all framebuffer_clear
draw_gui_framebuffer windows wm_buffer =
    let ordered = order_windows (length windows) windows in
    if length windows == 0
    then (windows, wm_buffer)
    else (ordered, blit_all ordered (framebuffer_clear wm_buffer 80 25 0x0F))
