-- ===== src/Windows/Moves.antt =====
-- The message WM_INC_WINDOW_POS of src/lib/WM.c.
use tbs_kernel.Windows.{Window}
use tbs_kernel.Base.{ℕ, ◌+◌, ◌-◌, ◌%◌, ◌^◌, ◌≤◌, ◌<◌, ◌≡◌, Bool, true, arith, ltb, if◌then◌else◌}

-- One coordinate, a byte: it moves by the distance, and then the test at the far edge adds the
-- distance again. `size` is that of the window, and the difference to that of the screen is one of
-- integers, which is cut to a byte. The test at the near edge is never true.
unfoldable pub inc_coordinate : ℕ → ℕ → ℕ → Bool → ℕ → ℕ
inc_coordinate screen size delta is_negative pos =
    let back = (2 ^ 8 + pos - delta) % 2 ^ 8 in
    let forward = (pos + delta) % 2 ^ 8 in
    let moved = if is_negative then back else forward in
    if ltb screen (moved + delta + size) then (2 ^ 8 + screen - size) % 2 ^ 8 else moved

unfoldable pub inc_window_pos : ℕ → ℕ → Bool → Window → Window
unfolding inc_coordinate
inc_window_pos delta_x delta_y is_negative window = record window {
  posx = inc_coordinate 80 window.w delta_x is_negative window.posx;
  posy = inc_coordinate 25 window.h delta_y is_negative window.posy;
}

-- The window lies on the screen.
abbrev pub IsOnScreen : Window → Type 0
IsOnScreen window = (window.posx + window.w ≤ 80) × (window.posy + window.h ≤ 25)

inc_coordinate-fits :
    (screen size delta pos : ℕ) (is_negative : Bool)
    → size ≤ screen
    → screen < 2 ^ 8
    → inc_coordinate screen size delta is_negative pos + size ≤ screen
unfolding inc_coordinate
inc_coordinate-fits screen size delta pos is_negative small byte = ground arith

-- A window that is no larger than the screen lies on it after every move, wherever it was, and with
-- every distance.
pub inc_window_pos-IsOnScreen :
    (window : Window) (delta_x delta_y : ℕ) (is_negative : Bool)
    → window.w ≤ 80
    → window.h ≤ 25
    → IsOnScreen (inc_window_pos delta_x delta_y is_negative window)
unfolding inc_window_pos
inc_window_pos-IsOnScreen window delta_x delta_y is_negative wide high = (
  inc_coordinate-fits 80 window.w delta_x window.posx is_negative wide (omega arith),
  inc_coordinate-fits 25 window.h delta_y window.posy is_negative high (omega arith),
)

-- A window at the left edge that is moved to the left goes to the right edge.
inc_coordinate-wraps :
    (screen size delta : ℕ)
    → 0 < delta
    → size ≤ screen
    → screen < 2 ^ 7
    → delta ≤ 2 ^ 7
    → inc_coordinate screen size delta true 0 ≡ screen - size
unfolding inc_coordinate
inc_coordinate-wraps screen size delta some_way small byte near = ground arith
