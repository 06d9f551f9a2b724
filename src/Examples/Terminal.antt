-- ===== src/Examples/Terminal.antt =====
-- The terminal of src/lib/tty.c with a few bytes in its rings.
use tbs_kernel.Tty.Worker.{discipline}
use tbs_kernel.Keyboard.Shift.{keys-worker_round, key_text, type_all, last_shift}
use tbs_kernel.Tty.Worker.Round.{worker_round-edit_all, edit_all, Drained}
use tbs_kernel.Tty.Reader.{tty_read_line-line, tty_read-got}
use tbs_kernel.Tty.Write.{push_all, IsIdle}
use tbs_kernel.Base.{
  ℕ, ◌-◌, ◌≡◌, refl, none, some, List, [], ◌∷◌, ◌++◌, arith, length, replicate, false,
}
use tbs_kernel.Spinlock.{Spinlock}
use tbs_kernel.Tty.{backspace, World, newline, worker_round, tty_read, tty_read_line, got, line}
use tbs_kernel.Task.State.{ready}
use tbs_kernel.Keyboard.Layout.{key_char, shift_after}
use tbs_kernel.Tty.Buffer.{buff_size, contents, Ring}

abbrev unlocked : Spinlock
unlocked = record { locked = 0; owner = none }

abbrev typed : List ℕ
typed = b'l' ∷ b'x' ∷ backspace ∷ b's' ∷ newline ∷ []

abbrev holding : List ℕ → Ring
holding s = record { buff = s ++ replicate (buff_size - length s) 0; head = length s; tail = 0 }

-- A terminal with bytes of the keyboard, and with one line for the reader.
abbrev pub terminal : World
terminal = record {
  tty = record {
    raw_input = holding typed;
    input = holding (b'o' ∷ b'k' ∷ newline ∷ []);
    output = holding [];
    count = 0;
    echo = 1;
    id = 0;
    task_read_wait = some 2;
    task_backend_wait = none;
    task_worker_wait = none;
    raw_input_lock = unlocked;
    input_lock = unlocked;
    output_lock = unlocked;
  };
  states = λ _. ready;
  current_task = 1;
}

pub terminal-IsIdle : IsIdle terminal
terminal-IsIdle = record {
  raw_ring = record { size = refl; head_in = omega arith; tail_in = omega arith };
  input_ring = record { size = refl; head_in = omega arith; tail_in = omega arith };
  output_ring = record { size = refl; head_in = omega arith; tail_in = omega arith };
  raw_free = refl;
  input_free = refl;
  output_free = refl;
}

worker_round-edit_all_example :
    (w' : World) × (worker_round [] terminal
      ≡ some ((edit_all (contents terminal.tty.raw_input) []).edited, w'))
    × Drained terminal w'
        (edit_all (contents terminal.tty.raw_input) []).sent
        (edit_all (contents terminal.tty.raw_input) []).echoed
worker_round-edit_all_example = worker_round-edit_all [] terminal-IsIdle

-- What the worker does with those bytes: the corrected line goes to the reader.
typed_line : (edit_all typed []).sent ≡ b'l' ∷ b's' ∷ newline ∷ []
unfolding edit_all discipline
typed_line = refl

terminal_line : contents terminal.tty.input ≡ b'o' ∷ b'k' ∷ newline ∷ []
unfolding contents
terminal_line = refl

tty_read-got_example :
    (w' : World) × (tty_read terminal ≡ some (got b'o' w'))
    × IsIdle w'
    × (contents w'.tty.input ≡ b'k' ∷ newline ∷ [])
tty_read-got_example = tty_read-got terminal-IsIdle terminal_line

tty_read_line-line_example :
    (w' : World) × (tty_read_line (1 ∷ 2 ∷ 3 ∷ 4 ∷ 5 ∷ []) 64 terminal
      ≡ some (line 3 (b'o' ∷ b'k' ∷ newline ∷ 0 ∷ 5 ∷ []) w'))
    × IsIdle w'
    × (contents w'.tty.input ≡ [])
tty_read_line-line_example =
    tty_read_line-line 64 (b'o' ∷ b'k' ∷ []) [] (1 ∷ 2 ∷ 3 ∷ 4 ∷ []) (5 ∷ []) terminal-IsIdle
      (ground arith) (omega arith) refl terminal_line

-- The keys for "a" and "B", with shift held for the second.
abbrev keys : List ℕ
keys = 0x1E ∷ 0x9E ∷ 0x2A ∷ 0x30 ∷ 0xB0 ∷ 0xAA ∷ []

keys_text : key_text keys false ≡ b'a' ∷ b'B' ∷ []
unfolding key_text key_char shift_after
keys_text = refl

abbrev waiting : World
waiting = record terminal {
  tty = record terminal.tty { raw_input = holding []; task_worker_wait = some 1 };
}

waiting-IsIdle : IsIdle waiting
waiting-IsIdle = record {
  raw_ring = record { size = refl; head_in = omega arith; tail_in = omega arith };
  input_ring = record { size = refl; head_in = omega arith; tail_in = omega arith };
  output_ring = record { size = refl; head_in = omega arith; tail_in = omega arith };
  raw_free = refl;
  input_free = refl;
  output_free = refl;
}

waiting_empty : contents waiting.tty.raw_input ≡ []
unfolding contents
waiting_empty = refl

keys-worker_round_example :
    (w1 w2 : World) × (type_all keys false waiting ≡ some (last_shift keys false, w1))
    × (worker_round [] w1 ≡ some ((edit_all (push_all (key_text keys false) []) []).edited, w2))
    × IsIdle w2
    × (contents w2.tty.raw_input ≡ [])
    × (contents w2.tty.input
        ≡ push_all
            (edit_all (push_all (key_text keys false) []) []).sent
            (contents waiting.tty.input))
keys-worker_round_example =
    keys-worker_round keys [] false (ground arith) waiting-IsIdle refl waiting_empty
