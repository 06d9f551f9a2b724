-- ===== src/Tty.antt =====
-- src/lib/tty.c: terminals, their output and input, and the task that edits input lines. A step
-- that takes a lock which is held is `none`: it spins until another task releases it.
pub mod Buffer
pub mod Write
pub mod Worker
pub mod Reader
use tbs_kernel.Task.State.{TaskState, ready, blocked, States, wake_task, block_task}
use tbs_kernel.Spinlock.{Spinlock, spinlock_acquire, spinlock_release}
use tbs_kernel.Base.{
  ℕ, zero, suc, ◌+◌, ◌-◌, ◌*◌, ◌/◌, ◌%◌, ◌^◌, ◌≤◌, ◌<◌, ◌≡◌, refl, sym, ap, ap₂, ◌∙◌, ◌≢◌, ◌↔◌, ◌⊎◌,
  inl, inr, Bool, true, false, not, ◌&&◌, ◌||◌, Option, none, some, List, [], ◌∷◌, ◌++◌, append-nil,
  append_assoc, arith, dec_lt, ℕ_discrete, ltb, leb, ◌==◌, if◌then◌else◌, ltb→lt, lt→ltb, ==_iff,
  Bool-cases, Option-cases, length, get_elem?, get_or, set, take, drop, replicate, length-append,
  length-set, get_or-set_self, get_or-set_ne, ◌>>=◌, All, All-append, In, In-append_left,
  In-append_right,
}
use tbs_kernel.Tty.Buffer.{Ring, next, put, get, is_empty}

-- `tty_t`; a task pointer is the task's number, `NULL` is `none`.
pub record Tty : Type 0 where
  pub raw_input : Ring
  pub input : Ring
  pub output : Ring
  pub count : ℕ
  pub echo : ℕ
  pub id : ℕ
  pub task_read_wait : Option ℕ
  pub task_backend_wait : Option ℕ
  pub task_worker_wait : Option ℕ
  pub raw_input_lock : Spinlock
  pub input_lock : Spinlock
  pub output_lock : Spinlock

-- `tty_table` and `tty_count`.
pub record TtyTable : Type 0 where
  pub table : List Tty
  pub tty_count : ℕ

abbrev pub max_tty : ℕ
max_tty = 255

-- What `create_tty` writes into the entry; the raw input ring and its lock stay as they are.
abbrev pub reset_tty : ℕ → Tty → Tty
reset_tty id t = record t {
  input_lock = record t.input_lock { locked = 0 };
  output_lock = record t.output_lock { locked = 0 };
  input = record t.input { head = 0; tail = 0 };
  output = record t.output { head = 0; tail = 0 };
  task_backend_wait = none;
  task_read_wait = none;
  task_worker_wait = none;
  echo = 1;
  count = 0;
  id = id;
}

-- The index of the new terminal.
unfoldable pub create_tty : TtyTable → Option (ℕ × TtyTable)
create_tty t =
    if ltb t.tty_count max_tty
    then (elim (get_elem? t.table t.tty_count) [
      | none ↦ none
      | some old ↦ some (
        t.tty_count,
        record {
          table = set t.table t.tty_count (reset_tty t.tty_count old);
          tty_count = t.tty_count + 1;
        },
      )
    ])
    else none

-- One terminal, the tasks' states, and the task that runs.
pub record World : Type 0 where
  pub tty : Tty
  pub states : States
  pub current_task : ℕ

-- `if (t) wake_task(t)`
abbrev pub wake_waiter : Option ℕ → States → States
wake_waiter none states = states
wake_waiter (some t) states = wake_task t states

unfoldable pub tty_write : ℕ → World → Option World
tty_write c w = do
  held ← spinlock_acquire w.current_task w.tty.output_lock
  let r = w.tty.output
  let free = spinlock_release held
  let dropped = record w { tty = record w.tty { output_lock = free } }
  let written = record w {
    tty = record w.tty { output = put c r; output_lock = free };
    states = wake_waiter w.tty.task_backend_wait w.states;
  }
  some (if next r.head == r.tail then dropped else written)

-- The text up to its terminator; a text without one is read past its end.
unfoldable pub tty_write_line : List ℕ → World → Option World
tty_write_line [] w = none
tty_write_line (c ∷ s) w =
    let more = tty_write c w >>= tty_write_line s in if c == 0 then some w else more

-- A read takes a byte, or blocks the running task and gives up the processor.
pub data Read : Type 0 where
  got : ℕ → World → Read
  blocks : World → Read

abbrev pub block_current : World → World
block_current w = record w { states = block_task w.current_task w.states }

unfoldable pub tty_read : World → Option Read
tty_read w = if is_empty w.tty.input then some (blocks (block_current w)) else do
  held ← spinlock_acquire w.current_task w.tty.input_lock
  let (c, r) = get w.tty.input
  some (got c (record w { tty = record w.tty { input = r; input_lock = spinlock_release held } }))

-- `read_tty_output` of src/kernel/modules/compositor.c, the same on the output ring.
unfoldable pub read_tty_output : World → Option Read
read_tty_output w = if is_empty w.tty.output then some (blocks (block_current w)) else do
  held ← spinlock_acquire w.current_task w.tty.output_lock
  let (c, r) = get w.tty.output
  some (got c (record w { tty = record w.tty { output = r; output_lock = spinlock_release held } }))

-- `line` is the count that is returned and the caller's buffer; `waits` is what of the buffer is
-- written when the task blocks.
pub data ReadLine : Type 0 where
  line : ℕ → List ℕ → World → ReadLine
  waits : List ℕ → World → ReadLine

abbrev pub newline : ℕ
newline = 10

-- `buffer[count] = '\0'`; `none` is a write past the buffer.
end_line : List ℕ → List ℕ → World → Option ReadLine
end_line written [] w = none
end_line written (b ∷ room) w = some (line (length written) (written ++ 0 ∷ room) w)

-- The loop of `tty_read_line`; the first number is `maxlen - count`, and the buffer is the `count`
-- bytes that are written and the room behind them. After a wait the loop goes on with them.
read_line_loop : ℕ → List ℕ → List ℕ → World → Option ReadLine
unfolding end_line
read_line_loop zero written room w = end_line written room w
read_line_loop (suc left) written [] w =
    tty_read w >>= λ r. elim r [ blocks w' ↦ some (waits written w') | got c w' ↦ none ]
read_line_loop (suc left) written (b ∷ room) w = tty_read w >>= λ r. elim r [
  | blocks w' ↦ some (waits written w')
  | got c w' ↦
      let more = read_line_loop left (written ++ c ∷ []) room w' in
      if c == newline then end_line (written ++ c ∷ []) room w' else more
]

unfoldable pub tty_read_line : List ℕ → ℕ → World → Option ReadLine
unfolding read_line_loop
tty_read_line buffer maxlen w = read_line_loop maxlen [] buffer w

abbrev pub backspace : ℕ
backspace = 8

abbrev pub edit_size : ℕ
edit_size = 255

-- The loop over the edit buffer and the write of the newline; a full ring drops bytes.
abbrev pub put_all : List ℕ → Ring → Ring
put_all [] r = r
put_all (c ∷ s) r = put_all s (put c r)

-- `if (tty->echo == 1)` around the writes.
echo_all : List ℕ → World → Option World
echo_all [] w = some w
echo_all (c ∷ s) w = tty_write c w >>= echo_all s

unfoldable pub echo_if : List ℕ → World → Option World
unfolding echo_all
echo_if s w = if w.tty.echo == 1 then echo_all s w else some w

-- A newline sends the edited line to the input ring.
send_line : List ℕ → World → Option World
send_line edit w = do
  held ← spinlock_acquire w.current_task w.tty.input_lock
  let sent = record w {
    tty = record w.tty {
      input = put newline (put_all edit w.tty.input);
      input_lock = spinlock_release held;
    };
  }
  echoed ← echo_if (newline ∷ []) sent
  some (record echoed { states = wake_waiter echoed.tty.task_read_wait echoed.states })

-- What `tty_worker` does with one byte; `edit` is the used part of its buffer.
unfoldable pub worker_char : ℕ → List ℕ → World → Option (List ℕ × World)
unfolding send_line
worker_char c edit w =
    if c == backspace
    then (if ltb 0 (length edit)
        then (do
          w' ← echo_if (backspace ∷ b' ' ∷ backspace ∷ []) w
          some (take (length edit - 1) edit, w'))
        else some (edit, w))
    else if c == newline || c == 13
    then (do w' ← send_line edit w; some ([], w'))
    else if ltb (length edit) edit_size
    then (do w' ← echo_if (c ∷ []) w; some (edit ++ c ∷ [], w'))
    else some (edit, w)

-- The read of one raw byte under its lock.
take_raw : World → Option (ℕ × World)
take_raw w = do
  held ← spinlock_acquire w.current_task w.tty.raw_input_lock
  let (c, r) = get w.tty.raw_input
  some
      (c, record w { tty = record w.tty { raw_input = r; raw_input_lock = spinlock_release held } })

-- The loop over the raw input, with fuel; a ring holds fewer than 1024 bytes.
unfoldable pub drain : ℕ → List ℕ → World → Option (List ℕ × World)
unfolding take_raw
drain zero edit w = none
drain (suc fuel) edit w =
    if is_empty w.tty.raw_input
    then some (edit, w)
    else do (c, w1) ← take_raw w; (edit', w2) ← worker_char c edit w1; drain fuel edit' w2

-- One round of `while (1)`, without the wait for input at its start.
unfoldable pub worker_round : List ℕ → World → Option (List ℕ × World)
worker_round edit w = do
  (edit', w') ← drain 1024 edit w
  some (edit', record w' { states = wake_waiter w'.tty.task_read_wait w'.states })

-- The wait: the worker enters itself as the one to wake, and blocks.
unfoldable pub worker_wait : World → World
worker_wait w =
    if is_empty w.tty.raw_input
    then block_current (record w { tty = record w.tty { task_worker_wait = some w.current_task } })
    else w
