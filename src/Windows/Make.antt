-- ===== src/Windows/Make.antt =====
-- `make_window` and `draw_window` of src/lib/WM.c. The block that `malloc` gives is an argument, or
-- `none` for NULL; so are the attributes of `make_attr`.
use tbs_kernel.Windows.{
  Window, window_put_char, framebuffer_clear, WindowList, window_put_string, draw_border,
}
use tbs_kernel.CString.Copy.{strlen, strcpy}
use tbs_kernel.Base.{
  ℕ, zero, suc, ◌+◌, ◌-◌, ◌%◌, ◌^◌, Bool, Option, none, some, List, [], ◌∷◌, ◌++◌, ltb, leb,
  if◌then◌else◌, length, set, ◌>>=◌,
}

unfoldable pub max_windows : ℕ
max_windows = 10

-- `for (int x = 0; n times; x++)` over the characters of the title, with the column of the cursor.
put_title : ℕ → ℕ → List ℕ → ℕ → Window → Option (Window × ℕ)
put_title zero cursor_x title title_attr window = some (window, cursor_x)
put_title (suc n) cursor_x [] title_attr window = none
put_title (suc n) cursor_x (c ∷ title) title_attr window =
    put_title n (cursor_x + 1) title title_attr
      (window_put_char window (cursor_x % 2 ^ 8) 0 c title_attr)

-- The title in the upper border, and the window with the column of the cursor.
draw_title : ℕ → Window → Option (Window × ℕ)
unfolding put_title
draw_title title_attr window = do
  len ← strlen window.title
  let title_length = len % 2 ^ 8
  let whole = window_put_string window window.title 2 0 title_attr >>= λ drawn.
      some (drawn, 2 + title_length)
  let cut = put_title (window.w - 4) 2 window.title title_attr window
  (drawn, cursor_x) ← if leb (title_length + 3) window.w then whole else cut
  let dots_x = (2 ^ 32 + window.posx + window.w - 4) % 2 ^ 32
  let dots =
      window_put_string drawn (b'.' ∷ b'.' ∷ 0 ∷ []) (dots_x % 2 ^ 8) 0 title_attr >>= λ dotted.
      some (dotted, dots_x)
  if ltb window.w (title_length + 2) then dots else some (drawn, cursor_x)

-- `draw_window`
unfoldable pub draw_window : ℕ → ℕ → Bool → Window → Option Window
unfolding draw_title
draw_window attr title_attr border window =
    let cleared = record window {
      framebuffer = framebuffer_clear window.framebuffer window.w window.h attr;
    } in
    let drawn = draw_title title_attr (draw_border attr cleared) in
    let bordered = drawn >>= λ (window, cursor_x).
    some (window_put_char window (cursor_x % 2 ^ 8) 0 0xC6 attr) in
    if border then bordered else some cleared

-- The slot of the array is the window behind the last one, with what stood there before;
-- `select_window` of its index does nothing, as the count is raised later. The result
-- is the list and the value that the function returns.
unfoldable pub make_window :
    Option (ℕ → ℕ)
    → (attr title_attr : ℕ) → (fg bg w h x y : ℕ) → (border canbesel : Bool) → (title : List ℕ)
    → (slot : Window) → WindowList
    → Option (WindowList × ℕ)
unfolding max_windows draw_window
make_window malloc attr title_attr fg bg w h x y border canbesel title slot windows =
    let count = length windows in
    let new : (ℕ → ℕ) → List ℕ → Window = λ framebuffer copied. record {
      posx = x;
      posy = y;
      w = w;
      h = h;
      title = set copied 79 0;
      framebuffer = framebuffer_clear framebuffer w h 0;
      z = slot.z;
      border = border;
      canbesel = canbesel;
      fg = fg;
      bg = bg;
    } in
    let granted : (ℕ → ℕ) → Option (WindowList × ℕ) = λ framebuffer.
      strcpy slot.title title >>= λ copied.
      draw_window attr title_attr border (new framebuffer copied) >>= λ drawn.
      some (windows ++ drawn ∷ [], count) in
    if leb max_windows count
    then some (windows, 0)
    else elim malloc [ none ↦ some (windows, 0) | some framebuffer ↦ granted framebuffer ]
