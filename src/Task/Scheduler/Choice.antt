-- ===== src/Task/Scheduler/Choice.antt =====
-- Which task `scheduler_choose_next` of src/kernel/core/task.c chooses.
use tbs_kernel.Base.{
  ℕ, zero, suc, ◌+◌, ◌≤◌, ◌<◌, ◌≡◌, refl, sym, ap, ap₂, ◌∙◌, inl, inr, true, false, ◌||◌, none,
  some, arith, Bool-cases,
}
use tbs_kernel.Task.Scheduler.{
  TaskPtr, Scheduler, is_ready, is_exited, is_idle, successor, choose_loop, scheduler_choose_next,
}

-- A task that the scheduler passes over: neither ready, nor exited, nor the idle task.
pub record IsPassed (s : Scheduler) (i p : TaskPtr) : Type 0 where
  pub not_ready : is_ready (s.tasks p).state ≡ false
  pub not_exited : is_exited (s.tasks p).state ≡ false
  pub not_idle : is_idle s i p ≡ false

-- The `n`-th task behind `p` on the list.
unfoldable pub nth_task : Scheduler → TaskPtr → TaskPtr → ℕ → TaskPtr
nth_task s head p zero = p
nth_task s head p (suc n) = nth_task s head (successor s head p) n

choose_loop-skips :
    (max : ℕ) (s : Scheduler) (head p i : TaskPtr)
    → s.idle_task ≡ some i
    → IsPassed s i (successor s head p)
    → choose_loop (suc max) head p s ≡ choose_loop max head (successor s head p) s
unfolding choose_loop
choose_loop-skips max s head p i idle passed =
    simp (passed.not_ready, passed.not_exited, idle, passed.not_idle)

choose_loop-passes :
    (skipped rest : ℕ) (s : Scheduler) (head p i : TaskPtr)
    → s.idle_task ≡ some i
    → ((k : ℕ) → 0 < k → k ≤ skipped → IsPassed s i (nth_task s head p k))
    → choose_loop (rest + skipped) head p s ≡ choose_loop rest head (nth_task s head p skipped) s
unfolding choose_loop nth_task
choose_loop-passes zero rest s head p i idle passed =
    let e : rest + 0 ≡ rest = omega arith in ap (λ n. choose_loop n head p s) e
choose_loop-passes (suc skipped) rest s head p i idle passed =
    let first : IsPassed s i (successor s head p) = passed 1 (omega arith) (omega arith) in
    let later =
      choose_loop-passes skipped rest s head (successor s head p) i idle
        (λ k low high. passed (suc k) (omega arith) (omega arith)) in
    let one : rest + suc skipped ≡ suc (rest + skipped) = omega arith in
    ap (λ n. choose_loop n head p s) one
    ∙ choose_loop-skips (rest + skipped) s head p i idle first
    ∙ later

nth_task-suc :
    (s : Scheduler) (head p : TaskPtr) (n : ℕ)
    → nth_task s head p (suc n) ≡ successor s head (nth_task s head p n)
unfolding nth_task
nth_task-suc s head p zero = refl
nth_task-suc s head p (suc n) = nth_task-suc s head (successor s head p) n

choose_loop-takes :
    (rest : ℕ) (s : Scheduler) (head p i : TaskPtr)
    → s.idle_task ≡ some i
    → (is_ready (s.tasks (successor s head p)).state || is_idle s i (successor s head p)) ≡ true
    → choose_loop (suc rest) head p s ≡ some (some (successor s head p), s)
unfolding choose_loop
choose_loop-takes rest s head p i idle good =
    elim (Bool-cases (is_ready (s.tasks (successor s head p)).state)) [
      | inl runs ↦ rw runs
      | inr waits ↦ simp (waits, idle, rw waits at good)
    ]

choose_next-loop :
    (s : Scheduler) (head c : TaskPtr)
    → s.current_task ≡ some c
    → s.task_head ≡ some head
    → scheduler_choose_next s ≡ choose_loop s.task_count head c s
unfolding scheduler_choose_next
choose_next-loop s head c current first =
    ap₂
      (λ a b. elim a [
        | none ↦ some (s.idle_task, s)
        | some p ↦ elim b [ none ↦ some (s.idle_task, s) | some h ↦ choose_loop s.task_count h p s ]
      ])
      current first

-- With a current task and an idle task, if the `skipped` tasks behind the current one on the list
-- are neither ready nor exited nor idle, and the next is ready or the idle task and within
-- `task_count`, then that one is chosen and nothing changes.
pub scheduler_choose_next-first :
    (skipped rest : ℕ) (s : Scheduler) (head c i : TaskPtr)
    → s.current_task ≡ some c
    → s.task_head ≡ some head
    → s.idle_task ≡ some i
    → s.task_count ≡ suc rest + skipped
    → ((k : ℕ) → 0 < k → k ≤ skipped → IsPassed s i (nth_task s head c k))
    → (is_ready (s.tasks (nth_task s head c (suc skipped))).state
        || is_idle s i (nth_task s head c (suc skipped)))
      ≡ true
    → scheduler_choose_next s ≡ some (some (nth_task s head c (suc skipped)), s)
scheduler_choose_next-first skipped rest s head c i current first idle counted passed good =
    let here : TaskPtr = nth_task s head c skipped in
    let step = nth_task-suc s head c skipped in
    choose_next-loop s head c current first
    ∙ ap (λ n. choose_loop n head c s) counted
    ∙ choose_loop-passes skipped (suc rest) s head c i idle passed
    ∙ choose_loop-takes rest s head here i idle (rw step at good)
    ∙ ap (λ p. some (some p, s)) (sym step)

-- With a current task, a list and an idle task, if the `task_count` tasks behind the current one are
-- neither ready nor exited nor idle, then the idle task is chosen and nothing changes.
pub scheduler_choose_next-idle :
    (s : Scheduler) (head c i : TaskPtr)
    → s.current_task ≡ some c
    → s.task_head ≡ some head
    → s.idle_task ≡ some i
    → ((k : ℕ) → 0 < k → k ≤ s.task_count → IsPassed s i (nth_task s head c k))
    → scheduler_choose_next s ≡ some (some i, s)
unfolding choose_loop
scheduler_choose_next-idle s head c i current first idle passed =
    let none_left : s.task_count ≡ 0 + s.task_count = omega arith in
    choose_next-loop s head c current first
    ∙ ap (λ n. choose_loop n head c s) none_left
    ∙ choose_loop-passes s.task_count 0 s head c i idle passed
    ∙ ap (λ o. some (o, s)) idle
