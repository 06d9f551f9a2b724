-- ===== src/Task/Scheduler.antt =====
-- The tasks and the scheduler of src/kernel/core/task.c. Tasks are allocated by `kmalloc`; the
-- static `task_table` is a second set of places, which only `remove_task_from_list` touches.
pub mod Choice
pub mod Wakeup
pub mod Tick
pub mod Timeout
use tbs_kernel.Task.State.{TaskState, blocked, sleeping, ready, running, exited}
use tbs_kernel.Memory.Heap.{kmalloc}
use tbs_kernel.Base.{
  ℕ, zero, suc, ◌+◌, ◌-◌, ◌*◌, ◌/◌, ◌%◌, ◌^◌, ◌≤◌, ◌<◌, ◌≡◌, refl, sym, ap, ap₂, ◌∙◌, ◌≢◌, ◌↔◌, ◌⊎◌,
  inl, inr, Bool, true, false, not, ◌&&◌, ◌||◌, Option, none, some, List, [], ◌∷◌, ◌++◌, append-nil,
  append_assoc, arith, dec_lt, ℕ_discrete, ltb, leb, ◌==◌, if◌then◌else◌, ltb→lt, lt→ltb, ==_iff,
  Bool-cases, Option-cases, length, get_elem?, get_or, set, take, drop, replicate, length-append,
  length-set, get_or-set_self, get_or-set_ne, ◌>>=◌, All, All-append,
}
use tbs_kernel.Base.Words.{sub32, add32}
use tbs_kernel.Memory.State.{Mm}

-- A `task_t *`: an address of the heap, or an entry of `task_table`.
pub data TaskPtr : Type 0 where
  heap_task : ℕ → TaskPtr
  table_task : ℕ → TaskPtr

abbrev pub same_task : TaskPtr → TaskPtr → Bool
same_task (heap_task a) (heap_task b) = a == b
same_task (table_task a) (table_task b) = a == b
same_task _ _ = false

-- `task_t`, of whose stack only the words at `esp` count.
pub record Task : Type 0 where
  pub tid : ℕ
  pub state : TaskState
  pub wake_tick : ℕ
  pub next_task : Option TaskPtr
  pub esp : ℕ
  pub stack : List ℕ

pub record Scheduler : Type 0 where
  pub tasks : TaskPtr → Task
  pub task_head : Option TaskPtr
  pub current_task : Option TaskPtr
  pub idle_task : Option TaskPtr
  pub task_count : ℕ
  pub tid_count : ℕ
  pub system_ticks : ℕ
  pub usage_ticks : ℕ
  pub busy_ticks : ℕ

abbrev pub max_tasks : ℕ
max_tasks = 512

abbrev pub set_task : TaskPtr → Task → Scheduler → Scheduler
set_task p t s = record s { tasks = λ q. if same_task q p then t else s.tasks q }

abbrev pub is_ready : TaskState → Bool
is_ready ready = true
is_ready _ = false

abbrev pub is_exited : TaskState → Bool
is_exited exited = true
is_exited _ = false

abbrev pub is_sleeping : TaskState → Bool
is_sleeping sleeping = true
is_sleeping _ = false

-- `none`: the entry before the first of `task_table`, or a null `next`.
unfoldable pub remove_task_from_list : TaskPtr → Scheduler → Option Scheduler
remove_task_from_list p s =
    let left = set_task p (record (s.tasks p) { state = exited }) s in
    let prev = table_task ((s.tasks p).tid - 1) in
    if (s.tasks p).tid == 0 then none else (elim (s.tasks p).next_task [
      | none ↦ none
      | some n ↦
          let linked = record (left.tasks prev) {
            next_task = some (table_task (left.tasks n).tid);
          } in
          some (set_task prev linked left)
    ])

-- `(int32_t)(wake_tick - system_ticks) <= 0`
abbrev pub is_due : ℕ → ℕ → Bool
is_due wake now = let d = sub32 wake now in d == 0 || leb (2 ^ 31) d

-- The loop over the list: `task_count + 1` rounds at most.
unfoldable pub wake_sleepers : ℕ → Option TaskPtr → Scheduler → Scheduler
wake_sleepers zero t s = s
wake_sleepers (suc rounds) none s = s
wake_sleepers (suc rounds) (some p) s =
    let t = s.tasks p in
    let woken = set_task p (record t { state = ready }) s in
    let s' = if is_sleeping t.state && is_due t.wake_tick s.system_ticks then woken else s in
    wake_sleepers rounds (s'.tasks p).next_task s'

abbrev pub same_place : Option TaskPtr → Option TaskPtr → Bool
same_place none none = true
same_place (some p) (some q) = same_task p q
same_place _ _ = false

unfoldable pub scheduler_update_time : Scheduler → Scheduler
scheduler_update_time s =
    let ticked = record s {
      system_ticks = add32 s.system_ticks 1;
      usage_ticks = add32 s.usage_ticks 1;
      busy_ticks =
          if same_place s.current_task s.idle_task then s.busy_ticks else add32 s.busy_ticks 1;
    } in
    wake_sleepers (s.task_count + 1) s.task_head ticked

abbrev pub is_idle : Scheduler → TaskPtr → TaskPtr → Bool
is_idle s i n = (s.tasks n).tid == (s.tasks i).tid

-- `next->next ? next->next : task_head`
abbrev pub successor : Scheduler → TaskPtr → TaskPtr → TaskPtr
successor s head p = elim (s.tasks p).next_task [ none ↦ head | some n ↦ n ]

-- `while (max--)`; `none` is a null pointer that is followed.
unfoldable pub choose_loop : ℕ → TaskPtr → TaskPtr → Scheduler → Option (Option TaskPtr × Scheduler)
choose_loop zero head p s = some (s.idle_task, s)
choose_loop (suc max) head p s =
    let n = successor s head p in
    let left = if is_exited (s.tasks n).state then remove_task_from_list n s else some s in
    let rest = left >>= λ s'. choose_loop max head n s' in
    if is_ready (s.tasks n).state then some (some n, s) else (elim s.idle_task [
      | none ↦ none
      | some i ↦ if is_idle s i n then some (some n, s) else rest
    ])

unfoldable pub scheduler_choose_next : Scheduler → Option (Option TaskPtr × Scheduler)
scheduler_choose_next s = elim s.current_task [
  | none ↦ some (s.idle_task, s)
  | some c ↦ elim s.task_head [
    | none ↦ some (s.idle_task, s)
    | some head ↦ choose_loop s.task_count head c s
  ]
]

-- `current_process = current_task->parent_process` follows a null pointer if there is no task.
unfoldable pub scheduler_tick : Scheduler → Option Scheduler
scheduler_tick s = do
  (next, s') ← scheduler_choose_next (scheduler_update_time s)
  elim next [ none ↦ none | some p ↦ some (record s' { current_task = some p }) ]

-- `while (tail->next != task_head) tail = tail->next;`, with the number of tasks as fuel.
unfoldable pub find_tail : ℕ → TaskPtr → TaskPtr → Scheduler → Option TaskPtr
find_tail zero head tail s = none
find_tail (suc fuel) head tail s = elim (s.tasks tail).next_task [
  | none ↦ none
  | some n ↦ let rest = find_tail fuel head n s in if same_task n head then some tail else rest
]

-- The new task goes behind the last of the circular list, or begins it.
unfoldable pub append_task : TaskPtr → Task → Scheduler → Option Scheduler
append_task p fresh s = elim s.task_head [
  | none ↦ some (record (set_task p (record fresh { next_task = some p }) s) { task_head = some p })
  | some head ↦ do
    tail ← find_tail s.task_count head head (set_task p fresh s)
    let placed = set_task p (record fresh { next_task = some head }) s
    some (set_task tail (record (placed.tasks tail) { next_task = some p }) placed)
]

-- `sizeof(task_t)`: the stack is aligned to 16 bytes.
abbrev pub sizeof_task : ℕ
sizeof_task = 4144

unfoldable pub alloc_task : Scheduler → Mm → Option (Option TaskPtr × Scheduler × Mm)
alloc_task s mm = if leb max_tasks s.task_count then some (none, s, mm) else do
  (address, mm') ← kmalloc sizeof_task mm
  let fresh : Task = record {
    tid = s.tid_count;
    state = blocked;
    wake_tick = 0;
    next_task = none;
    esp = 0;
    stack = [];
  }
  let placed = append_task (heap_task address) fresh s
  let add = placed >>= λ s'.
      let counted : Scheduler = record s' {
        task_count = add32 s'.task_count 1;
        tid_count = add32 s'.tid_count 1;
      } in
      some (some (heap_task address), counted, mm')
  if address == 0 then some (none, s, mm') else add

-- The frame that the first switch to the task pops: edi, esi, ebp, esp, ebx, edx, ecx, eax, then
-- eip, cs and eflags of the return from the interrupt.
abbrev pub first_frame : ℕ → ℕ → List ℕ
first_frame fn arg = 0 ∷ arg ∷ 0 ∷ 0 ∷ 0 ∷ 0 ∷ 0 ∷ 0 ∷ fn ∷ 0x08 ∷ 0x202 ∷ []

-- `t->stack` is 16 bytes into the task; 11 words are pushed from its end.
abbrev pub stack_top : TaskPtr → ℕ
stack_top (heap_task a) = a + 16 + 4096 - 44
stack_top (table_task a) = 0

unfoldable pub create_ktask : ℕ → ℕ → Scheduler → Mm → Option (Option TaskPtr × Scheduler × Mm)
create_ktask fn arg s mm = do
  (t, s', mm') ← alloc_task s mm
  elim t [
    | none ↦ some (none, s', mm')
    | some p ↦
        let started = record (s'.tasks p) {
          esp = stack_top p;
          stack = first_frame fn arg;
          state = ready;
        } in
        some (some p, set_task p started s', mm')
  ]
