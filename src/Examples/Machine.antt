-- ===== src/Examples/Machine.antt =====
-- The lock, the clock, the screen, the formats, the bus, the symbols and the command line on small
-- inputs.
use mathlib.Core.List.{Perm}
use tbs_kernel.Examples.Terminal.{terminal, terminal-IsIdle}
use tbs_kernel.Base.{
  ℕ, ◌+◌, ◌-◌, ◌*◌, ◌^◌, ◌≤◌, ◌<◌, ◌≡◌, refl, ◌≢◌, ◌⊎◌, true, ◌||◌, none, some, List, [], ◌∷◌,
  arith, ◌==◌, if◌then◌else◌, All, In, false, Option, replicate,
}
use tbs_kernel.Spinlock.Exclusion.{
  Run, IsExclusive, inside, spinning, in_phase, Reach, Reach-exclusive, outside, further, here,
  acquire,
}
use tbs_kernel.Spinlock.{spinlock_acquire}
use tbs_kernel.Task.Scheduler.{Task, Scheduler, heap_task}
use tbs_kernel.Task.Scheduler.Wakeup.{link}
use tbs_kernel.Compositor.{Screen, compositor_scroll, compositor_byte, blank, grid_width}
use tbs_kernel.Compositor.Cursor.{IsInside, SameBorder, compositor_byte-IsInside}
use tbs_kernel.Compositor.Pointer.{
  PointerState, mouse_round, under_pointer, scale, arrow, mouse_round-under_pointer,
}
use tbs_kernel.Print.{format, printf}
use tbs_kernel.Tty.{World}
use tbs_kernel.Pci.Scan.{IsPresent, pci_enumerate-IsPresent}
use tbs_kernel.Symbols.{Symbol, lookup_symbol, unknown}
use tbs_kernel.Command.Words.{IsLine, line_of, command_args-words_of}
use tbs_kernel.Command.{command_args}
use tbs_kernel.Task.State.{ready, sleeping}
use tbs_kernel.Sleep.{ms_to_ticks, sleep_ms}
use tbs_kernel.Compositor.Scroll.{cell, in_text, compositor_scroll-cell}
use tbs_kernel.CString.Format.{text}
use tbs_kernel.Pci.{pci_enumerate, vendor_of, is_multifunction, PciFunction}
use tbs_kernel.Print.Literal.{format-text, printf-push_all}
use tbs_kernel.Tty.Write.{IsIdle, push_all}
use tbs_kernel.Symbols.Best.{AtMost, lookup_symbol-nearest}
use tbs_kernel.Task.Scheduler.Timeout.{sleep_ticks, run_ticks, sleep_ms-run_ticks}
use tbs_kernel.Windows.{Window, draw_gui_framebuffer, make_cell, WindowList}
use tbs_kernel.Windows.Blit.{stack, draw_gui_framebuffer-stack}
use tbs_kernel.Windows.Order.{IsOrdered}
use tbs_kernel.Windows.Moves.{IsOnScreen, inc_window_pos, inc_window_pos-IsOnScreen}
use tbs_kernel.Windows.Make.{make_window}
use tbs_kernel.Task.Scheduler.Tick.{IsRunning}
use tbs_kernel.Tty.Buffer.{contents}

-- Two tasks: task 1 takes the free lock, task 2 has to go round, and task 1 is inside.
abbrev free_run : Run
free_run = record {
  lock = record { locked = 0; owner = none };
  phase = λ n. if n == 1 || n == 2 then spinning else outside;
}

abbrev taken_run : Run
taken_run = in_phase 1 inside (record free_run { lock = record { locked = 1; owner = some 1 } })

free_run-IsExclusive : IsExclusive free_run
free_run-IsExclusive = record { taken = λ n h. ground (arith, h); owned = λ n h. ground (arith, h) }

taken_run-Reach : Reach free_run taken_run
unfolding spinlock_acquire
taken_run-Reach =
    further {t = free_run} here (acquire 1 (record { locked = 1; owner = some 1 }) refl refl)

Reach-exclusive_example :
    ((n m : ℕ) → taken_run.phase n ≡ inside → taken_run.phase m ≡ inside → n ≡ m)
    × ((n : ℕ)
        → taken_run.phase n ≡ inside
        → (taken_run.lock.locked ≢ 0) × (taken_run.lock.owner ≡ some n))
Reach-exclusive_example = Reach-exclusive free_run taken_run free_run-IsExclusive taken_run-Reach

-- One task on a circular list; the tick counter is about to wrap.
abbrev lone_task : Task
lone_task = record {
  tid = 1;
  state = ready;
  wake_tick = 0;
  next_task = some (heap_task 64);
  esp = 0;
  stack = [];
}

abbrev lone : Scheduler
lone = record {
  tasks = λ _. lone_task;
  task_head = some (heap_task 64);
  current_task = some (heap_task 64);
  idle_task = some (heap_task 8);
  task_count = 1;
  tid_count = 1;
  system_ticks = 2 ^ 32 - 2;
  usage_ticks = 0;
  busy_ticks = 0;
}

lone-IsRunning : IsRunning lone
lone-IsRunning q = refl

sleep_ms-run_ticks_example :
    (s' : Scheduler) × (sleep_ms 100 45 lone ≡ some s')
    × ((k : ℕ)
        → k + 1 < sleep_ticks 100 45
        → ((run_ticks k s').tasks (heap_task 64)).state ≡ sleeping)
    × (((run_ticks (sleep_ticks 100 45 - 1) s').tasks (heap_task 64)).state ≡ ready)
unfolding link ms_to_ticks
sleep_ms-run_ticks_example =
    sleep_ms-run_ticks 100 45 0 (heap_task 64) (heap_task 8) lone refl refl lone-IsRunning refl
      (omega arith) (omega arith) (omega arith)

abbrev text_screen : Screen
text_screen = record { framebuffer = λ i. i; entry_attr = 7; cursor_x = 78; cursor_y = 22 }

compositor_scroll-cell_example :
    ((compositor_scroll text_screen).framebuffer (cell 5 3) ≡ (
      if in_text 5 3
      then (if 3 == 22 then blank else text_screen.framebuffer (cell 5 4))
      else text_screen.framebuffer (cell 5 3)))
    × ((compositor_scroll text_screen).cursor_x ≡ 78)
    × ((compositor_scroll text_screen).cursor_y ≡ 22)
compositor_scroll-cell_example = compositor_scroll-cell text_screen 5 3 (omega arith)

compositor_byte-IsInside_example :
    IsInside (compositor_byte b'x' text_screen)
    × SameBorder text_screen (compositor_byte b'x' text_screen)
compositor_byte-IsInside_example =
    compositor_byte-IsInside b'x' text_screen
      (record { left = omega arith; right = omega arith; top = omega arith; bottom = omega arith })

abbrev pointer_shown : PointerState × (ℕ → ℕ)
pointer_shown = (record { old_position = some (3, 2); saved_entry = 5 }, λ i. i)

mouse_round-under_pointer_example :
    let s' = mouse_round 1000 500 1000 1000 pointer_shown in
    ((i : ℕ) → under_pointer s' i ≡ under_pointer pointer_shown i)
    × (s'.0.old_position ≡ some (79, 12))
    × (scale 1000 80 1000 < 80)
    × (scale 500 24 1000 < 24)
    × (s'.1 (scale 500 24 1000 * grid_width + scale 1000 80 1000) ≡ arrow + 0x18)
mouse_round-under_pointer_example = mouse_round-under_pointer 1000 500 1000 1000 pointer_shown

format-text_example :
    format (b'h' ∷ b':' ∷ b'%' ∷ b's' ∷ 0 ∷ []) (text (b'o' ∷ b'k' ∷ 0 ∷ []) ∷ [])
    ≡ some (b'h' ∷ b':' ∷ b'o' ∷ b'k' ∷ 0 ∷ [])
format-text_example =
    format-text (b'h' ∷ b':' ∷ []) (b'o' ∷ b'k' ∷ []) [] [] (ground arith) (omega arith)
      (ground arith)

printf-push_all_example :
    (w' : World) × (printf true (b'h' ∷ b'i' ∷ 0 ∷ []) [] terminal ≡ some w')
    × IsIdle w'
    × (contents w'.tty.output ≡ push_all (b'h' ∷ b'i' ∷ []) (contents terminal.tty.output))
printf-push_all_example = printf-push_all (b'h' ∷ b'i' ∷ []) [] [] (ground arith) terminal-IsIdle

-- A bus that answers nothing but one device with a single function.
abbrev one_device : ℕ → ℕ
one_device address =
    if address == 2 ^ 31 + 2 ^ 11
    then 0x1234_8086
    else if address == 2 ^ 31 + 2 ^ 11 + 8
    then 0x0200_0000
    else if address == 2 ^ 31 + 2 ^ 11 + 12
    then 0
    else 2 ^ 32 - 1

pci_enumerate-IsPresent_example :
    All (IsPresent one_device) (pci_enumerate one_device)
    × ((bus device func : ℕ)
        → (bus < 256) × (device < 32) × (func < 8)
        → vendor_of one_device bus device 0 ≢ 0xFFFF
        → vendor_of one_device bus device func ≢ 0xFFFF
        → (func ≡ 0) ⊎ (is_multifunction one_device bus device ≡ true)
        → (f : PciFunction) × In f (pci_enumerate one_device)
          × (f.bus ≡ bus)
          × (f.device ≡ device)
          × (f.func ≡ func))
pci_enumerate-IsPresent_example = pci_enumerate-IsPresent one_device

abbrev two_symbols : List Symbol
two_symbols = record { addr = 100; name = b'a' ∷ [] } ∷ record { addr = 200; name = b'b' ∷ [] } ∷ []

lookup_symbol-nearest_example :
    ((lookup_symbol two_symbols 150 ≡ unknown) × All (λ t. 150 < t.addr) two_symbols)
    ⊎ ((s : Symbol) × In s two_symbols
        × (s.addr ≤ 150)
        × (lookup_symbol two_symbols 150 ≡ s.name)
        × AtMost two_symbols 150 s.addr)
lookup_symbol-nearest_example = lookup_symbol-nearest two_symbols 150

abbrev cat_words : List (ℕ × List ℕ)
cat_words = (0, b'c' ∷ b'a' ∷ b't' ∷ []) ∷ (2, b'f' ∷ []) ∷ []

cat_words-IsLine : IsLine cat_words
cat_words-IsLine = ground arith

command_args-words_of_example :
    command_args (line_of cat_words 1 (b'\n' ∷ []))
    ≡ some ((b'c' ∷ b'a' ∷ b't' ∷ []) ∷ (b'f' ∷ []) ∷ [])
command_args-words_of_example = command_args-words_of cat_words 1 [] cat_words-IsLine

-- The first window is in front, and covers a corner of the second.
abbrev front_window : Window
front_window = record {
  posx = 1;
  posy = 1;
  w = 2;
  h = 2;
  title = [];
  framebuffer = λ i. 0x0F00 + i;
  z = 5;
  border = false;
  canbesel = true;
  fg = 15;
  bg = 0;
}

abbrev back_window : Window
back_window = record {
  posx = 2;
  posy = 2;
  w = 3;
  h = 3;
  title = [];
  framebuffer = λ i. 0x1E00 + i;
  z = 1;
  border = false;
  canbesel = true;
  fg = 14;
  bg = 1;
}

draw_gui_framebuffer-stack_example :
    let (ordered, screen) = draw_gui_framebuffer (front_window ∷ back_window ∷ []) (λ i. 0) in
    IsOrdered ordered
    × Perm ordered (front_window ∷ back_window ∷ [])
    × (screen (2 * 80 + 2) ≡ stack 2 2 ordered (make_cell b' ' 0x0F))
draw_gui_framebuffer-stack_example =
    draw_gui_framebuffer-stack (front_window ∷ back_window ∷ []) (λ i. 0) 2 2 (omega arith)
      (omega arith) (omega arith)

stack_front : stack 2 2 (back_window ∷ front_window ∷ []) 0 ≡ 0x0F03
stack_front = refl

inc_window_pos-IsOnScreen_example :
    IsOnScreen (inc_window_pos 1 0 true (record front_window { posx = 0 }))
inc_window_pos-IsOnScreen_example =
    inc_window_pos-IsOnScreen (record front_window { posx = 0 }) 1 0 true (omega arith)
      (omega arith)

-- A new window with the title `ab`.
abbrev made : Option (WindowList × ℕ)
unfolding make_window
made =
    make_window (some (λ i. 7)) 0 1 15 0 7 3 2 2 true true (b'a' ∷ b'b' ∷ 0 ∷ [])
      (record front_window { title = replicate 80 0 }) []

abbrev cell_of : ℕ → Option (WindowList × ℕ) → ℕ
cell_of i none = 0
cell_of i (some ([], id)) = 0
cell_of i (some (win ∷ windows, id)) = win.framebuffer i

made_title :
    (cell_of 0 made ≡ 0xC9)
    × (cell_of 2 made ≡ 0x100 + b'a')
    × (cell_of 4 made ≡ 0xC6)
    × (cell_of 20 made ≡ 0xBC)
unfolding made tbs_kernel.CString.Copy.strcpy tbs_kernel.CString.Copy.strlen
    tbs_kernel.Windows.draw_border tbs_kernel.Windows.window_put_string
    tbs_kernel.Memory.State.update
made_title = (refl, refl, refl, refl)
