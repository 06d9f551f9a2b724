-- ===== src/Task/Scheduler/Tick.antt =====
-- A tick of the timer in src/kernel/core/task.c: what `scheduler_tick` keeps, and that it chooses a
-- task.
use tbs_kernel.Task.Scheduler.Wakeup.{woken_task, wake_sleepers-Rounds}
use tbs_kernel.Task.Scheduler.{
  same_place, Scheduler, scheduler_update_time, choose_loop, scheduler_choose_next, TaskPtr,
  is_exited, Task, successor, scheduler_tick, is_sleeping, is_ready, is_due, is_idle,
}
use tbs_kernel.Base.Words.{add32}
use tbs_kernel.Base.{
  ℕ, zero, suc, ◌+◌, ◌≡◌, refl, ap, ap₂, ◌∙◌, inl, inr, false, ◌&&◌, none, some, if◌then◌else◌,
  Bool-cases,
}

-- The state in which the sleepers are looked at.
abbrev pub ticked : Scheduler → Scheduler
ticked s = record s {
  system_ticks = add32 s.system_ticks 1;
  usage_ticks = add32 s.usage_ticks 1;
  busy_ticks = if same_place s.current_task s.idle_task then s.busy_ticks else add32 s.busy_ticks 1;
}

-- No task has ended.
abbrev pub IsRunning : Scheduler → Type 0
IsRunning s = (q : TaskPtr) → is_exited (s.tasks q).state ≡ false

woken_task-IsRunning :
    (s : Scheduler) (t : Task)
    → is_exited t.state ≡ false
    → is_exited (woken_task s t).state ≡ false
woken_task-IsRunning s t h =
    elim (Bool-cases (is_sleeping t.state && is_due t.wake_tick s.system_ticks)) [
      | inl e ↦ rw e refl
      | inr e ↦ rw e h
    ]

scheduler_update_time-IsRunning :
    (s : Scheduler) → IsRunning s → IsRunning (scheduler_update_time s)
unfolding scheduler_update_time
scheduler_update_time-IsRunning s alive q =
    let rounds = wake_sleepers-Rounds (s.task_count + 1) s.task_head (ticked s) in
    elim (rounds.each q) [
      | inl e ↦ ap (λ (t : Task). is_exited t.state) e ∙ alive q
      | inr e ↦
          ap (λ (t : Task). is_exited t.state) e
          ∙ woken_task-IsRunning (ticked s) (s.tasks q) (alive q)
    ]

scheduler_update_time-same :
    (s : Scheduler)
    → ((scheduler_update_time s).current_task ≡ s.current_task)
      × ((scheduler_update_time s).task_head ≡ s.task_head)
      × ((scheduler_update_time s).idle_task ≡ s.idle_task)
unfolding scheduler_update_time
scheduler_update_time-same s =
    let rounds = wake_sleepers-Rounds (s.task_count + 1) s.task_head (ticked s) in
    (rounds.current, rounds.head, rounds.idle)

-- With an idle task and none that has ended the choice succeeds, and changes no task.
choose_loop-chooses :
    (max : ℕ) (head p i : TaskPtr) (s : Scheduler)
    → s.idle_task ≡ some i
    → IsRunning s
    → (next : TaskPtr) × (choose_loop max head p s ≡ some (some next, s))
unfolding choose_loop
choose_loop-chooses zero head p i s idle alive = (i, ap (λ k. some (k, s)) idle)
choose_loop-chooses (suc max) head p i s idle alive =
    let n = successor s head p in
    let (next, rest) = choose_loop-chooses max head n i s idle alive in
    elim (Bool-cases (is_ready (s.tasks n).state)) [
      | inl ready_n ↦ (n, rw ready_n refl)
      | inr waits ↦ elim (Bool-cases (is_idle s i n)) [
        | inl idle_n ↦ (n, simp (waits, idle, idle_n))
        | inr other ↦ (next, simp (waits, idle, other, alive n, rest))
      ]
    ]

scheduler_choose_next-loop :
    (p head : TaskPtr) (s : Scheduler)
    → s.current_task ≡ some p
    → s.task_head ≡ some head
    → scheduler_choose_next s ≡ choose_loop s.task_count head p s
unfolding scheduler_choose_next
scheduler_choose_next-loop p head s current first =
    ap₂
      (λ c h. elim c [
        | none ↦ some (s.idle_task, s)
        | some c' ↦ elim h [
          | none ↦ some (s.idle_task, s)
          | some h' ↦ choose_loop s.task_count h' c' s
        ]
      ])
      current first

-- A tick of the timer: the clock, and a next task.
pub scheduler_tick-chooses :
    (p head i : TaskPtr) (s : Scheduler)
    → s.current_task ≡ some p
    → s.task_head ≡ some head
    → s.idle_task ≡ some i
    → IsRunning s
    → (next : TaskPtr) × (scheduler_tick s
        ≡ some (record (scheduler_update_time s) { current_task = some next }))
scheduler_tick-chooses p head i s current first idle alive =
    let s1 = scheduler_update_time s in
    let (same_current, same_head, same_idle) = scheduler_update_time-same s in
    let (next, chosen) =
      choose_loop-chooses s1.task_count head p i s1 (same_idle ∙ idle)
        (scheduler_update_time-IsRunning s alive) in
    let found : scheduler_choose_next s1 ≡ some (some next, s1) =
      scheduler_choose_next-loop p head s1 (same_current ∙ current) (same_head ∙ first) ∙ chosen in
    (next, unfold scheduler_tick in rw found refl)
