-- ===== src/Compositor.antt =====
-- src/kernel/modules/compositor.c with the drawing of src/kernel/drivers/vga-textmode.c: the
-- framebuffer of 80 x 25 entries, found by their index, and the cursor. The copy to the screen and
-- the cursor of the hardware are output. `read_tty_output` is with the terminals.
pub mod Cursor
pub mod Scroll
pub mod Pointer
use tbs_kernel.Base.{
  ℕ, zero, suc, ◌+◌, ◌-◌, ◌*◌, ◌/◌, ◌%◌, ◌^◌, ◌≤◌, ◌<◌, ◌≡◌, refl, sym, ap, ap₂, ◌∙◌, ◌≢◌, ◌↔◌, ◌⊎◌,
  inl, inr, Bool, true, false, not, ◌&&◌, ◌||◌, Option, none, some, List, [], ◌∷◌, ◌++◌, append-nil,
  append_assoc, arith, dec_lt, ℕ_discrete, ltb, leb, ◌==◌, if◌then◌else◌, ltb→lt, lt→ltb, ==_iff,
  Bool-cases, Option-cases, length, get_elem?, get_or, set, take, drop, replicate, length-append,
  length-set, get_or-set_self, get_or-set_ne, ◌>>=◌, All, All-append,
}
use tbs_kernel.Memory.State.{update}

abbrev pub grid_width : ℕ
grid_width = 80

abbrev pub grid_height : ℕ
grid_height = 25

-- The colours of `enum VGA_COLOR` that the compositor uses.
abbrev pub vga_black : ℕ
vga_black = 0

abbrev pub vga_blue : ℕ
vga_blue = 1

abbrev pub vga_light_grey : ℕ
vga_light_grey = 7

abbrev pub vga_yellow : ℕ
vga_yellow = 14

abbrev pub scroll_x0 : ℕ
scroll_x0 = 1

abbrev pub scroll_x1 : ℕ
scroll_x1 = 78

abbrev pub scroll_y0 : ℕ
scroll_y0 = 1

abbrev pub scroll_y1 : ℕ
scroll_y1 = 22

pub record Screen : Type 0 where
  pub framebuffer : ℕ → ℕ
  pub entry_attr : ℕ
  pub cursor_x : ℕ
  pub cursor_y : ℕ

abbrev pub space : ℕ
space = b' '

-- `FG | BG << 4`, for colours below 16.
abbrev pub attr_of : ℕ → ℕ → ℕ
attr_of fg bg = fg + 16 * bg

abbrev pub vga_set_color : ℕ → ℕ → Screen → Screen
vga_set_color fg bg s = record s { entry_attr = attr_of fg bg }

unfoldable pub vga_putc : ℕ → ℕ → ℕ → Screen → Screen
vga_putc c x y s = record s {
  framebuffer = update s.framebuffer (y * grid_width + x) (s.entry_attr * 2 ^ 8 + c);
}

-- `for (i = first; n more times; i++)`
unfoldable pub for_loop {ℓ} : {S : Type ℓ} → ℕ → ℕ → (ℕ → S → S) → S → S
for_loop zero i body s = s
for_loop (suc n) i body s = for_loop n (i + 1) body (body i s)

unfoldable pub vga_clear : Screen → Screen
unfolding for_loop vga_putc
vga_clear s =
    for_loop grid_width 0 (λ x. for_loop grid_height 0 (λ y. vga_putc space x y))
      (record s { entry_attr = s.entry_attr % 2 ^ 7 })

unfoldable pub draw_console_border : ℕ → ℕ → Screen → Screen
unfolding for_loop vga_putc
draw_console_border x width s =
    let corners = vga_putc 0xD9 (x + width - 1) 23 (
      vga_putc 0xC0 x 23 (
        vga_putc 0xB8 (x + width - 1) 0
          (vga_putc 0xD5 x 0 (vga_set_color vga_yellow vga_blue s)))) in
    let top = for_loop (width - 1 - (x + 1)) (x + 1) (λ bar_x. vga_putc 0xCD bar_x 0) corners in
    let bottom = for_loop (width - 1 - (x + 1)) (x + 1) (λ bar_x. vga_putc 0xC4 bar_x 23) top in
    let left = for_loop 22 1 (λ bar_y. vga_putc 0xB3 x bar_y) bottom in
    for_loop 22 1 (λ bar_y. vga_putc 0xB3 (x + width - 1) bar_y) left

-- The first loop has 81 columns; the last is the first of the next row.
unfoldable pub draw_background : Screen → Screen
unfolding for_loop vga_putc
draw_background s =
    let primary =
      for_loop 81 0 (λ x. for_loop 24 0 (λ y. vga_putc space x y))
        (vga_set_color vga_yellow vga_blue s) in
    for_loop 80 0 (λ x. vga_putc space x 24) (vga_set_color vga_black vga_light_grey primary)

unfoldable pub compositor_init : Screen → Screen
unfolding draw_background draw_console_border
compositor_init s = draw_console_border 0 80 (draw_background s)

-- An empty cell in the primary colours.
abbrev pub blank : ℕ
blank = attr_of vga_yellow vga_blue * 2 ^ 8 + space

abbrev pub put_blank : ℕ → Screen → Screen
put_blank index s = record s { framebuffer = update s.framebuffer index blank }

-- The columns from 1 to 77 and the rows from 1 to 22.
unfoldable pub compositor_clear_screen : Screen → Screen
unfolding for_loop
compositor_clear_screen s =
    let width = scroll_x1 - scroll_x0 + 1 in
    let height = scroll_y1 - scroll_y0 + 2 in
    let cleared =
      for_loop (width - scroll_x0) scroll_x0
        (λ x. for_loop (height - scroll_y0) scroll_y0 (λ y. put_blank (y * grid_width + x))) s in
    record cleared { cursor_x = scroll_x0; cursor_y = scroll_y0 - 1 }

-- `memmove` of 78 entries from the row below; the two rows do not overlap.
unfoldable pub move_row : ℕ → (ℕ → ℕ) → ℕ → ℕ
move_row row fb i =
    let first = row * grid_width + scroll_x0 in
    if leb first i && ltb i (first + 78) then fb (i + grid_width) else fb i

unfoldable pub clear_row : ℕ → (ℕ → ℕ) → ℕ → ℕ
clear_row row fb i =
    let first = row * grid_width + scroll_x0 in
    if leb first i && ltb i (first + 78) then blank else fb i

unfoldable pub compositor_scroll : Screen → Screen
unfolding for_loop move_row clear_row
compositor_scroll s =
    let height = scroll_y1 - scroll_y0 + 1 in
    record s {
      framebuffer = clear_row scroll_y1 (for_loop (height - 1) scroll_y0 move_row s.framebuffer);
    }

-- What `compositor_main` does with a byte of the terminal's output.
unfoldable pub compositor_byte : ℕ → Screen → Screen
unfolding vga_putc compositor_scroll
compositor_byte c s0 =
    let s = vga_set_color vga_yellow vga_blue s0 in
    let back =
      vga_putc space (s.cursor_x - 1) s.cursor_y (record s { cursor_x = s.cursor_x - 1 }) in
    let back_up =
      vga_putc space scroll_x1 (s.cursor_y - 1)
        (record s { cursor_x = scroll_x1; cursor_y = s.cursor_y - 1 }) in
    let down = record s { cursor_x = scroll_x0; cursor_y = s.cursor_y + 1 } in
    let scrolled = record (compositor_scroll s) { cursor_x = scroll_x0; cursor_y = scroll_y1 } in
    let printed = record (vga_putc c s.cursor_x s.cursor_y s) { cursor_x = s.cursor_x + 1 } in
    if c == 8
    then if ltb scroll_x0 s.cursor_x then back else if ltb scroll_y0 s.cursor_y then back_up else s
    else if c == b'\n' || leb scroll_x1 s.cursor_x
    then if ltb s.cursor_y scroll_y1 then down else scrolled
    else printed
