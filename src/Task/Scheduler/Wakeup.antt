-- ===== src/Task/Scheduler/Wakeup.antt =====
-- `scheduler_update_time` of src/kernel/core/task.c: a sleeping task wakes when its time has come.
use tbs_kernel.Task.Scheduler.{
  heap_task, table_task, Scheduler, TaskPtr, Task, same_task, is_sleeping, is_due, set_task,
  wake_sleepers,
}
use tbs_kernel.Task.State.{ready}
use tbs_kernel.Base.{
  ℕ, zero, suc, ◌<◌, ◌≡◌, refl, ap, ◌∙◌, ◌⊎◌, inl, inr, true, ◌&&◌, Option, none, some, arith,
  if◌then◌else◌, Bool-cases,
}

-- The place `n` on the list that starts at a pointer.
unfoldable pub link : Scheduler → Option TaskPtr → ℕ → Option TaskPtr
link s t zero = t
link s none (suc n) = none
link s (some p) (suc n) = link s (s.tasks p).next_task n

-- A task after the sleepers whose time has come are woken.
abbrev pub woken_task : Scheduler → Task → Task
woken_task s t =
    if is_sleeping t.state && is_due t.wake_tick s.system_ticks
    then record t { state = ready }
    else t

pub same_task_self : (p : TaskPtr) → same_task p p ≡ true
same_task_self (heap_task a) = ground arith
same_task_self (table_task a) = ground arith

pub same_task-eq : (p q : TaskPtr) → same_task p q ≡ true → p ≡ q
same_task-eq (heap_task a) (heap_task b) h = ap heap_task (ground (arith, h))
same_task-eq (table_task a) (table_task b) h = ap table_task (ground (arith, h))
same_task-eq (heap_task a) (table_task b) h = absurd (ground (arith, h))
same_task-eq (table_task a) (heap_task b) h = absurd (ground (arith, h))

-- One round of the loop on the task `p`.
abbrev one_round : TaskPtr → Scheduler → Scheduler
one_round p s =
    let t = s.tasks p in
    if is_sleeping t.state && is_due t.wake_tick s.system_ticks
    then set_task p (record t { state = ready }) s
    else s

one_round-task :
    (p q : TaskPtr) (s : Scheduler)
    → (one_round p s).tasks q ≡ (if same_task q p then woken_task s (s.tasks q) else s.tasks q)
one_round-task p q s =
    let due = is_sleeping (s.tasks p).state && is_due (s.tasks p).wake_tick s.system_ticks in
    elim (Bool-cases (same_task q p)) [
      | inl same ↦ rw (same_task-eq q p same) (elim (Bool-cases due) [
        | inl h ↦ rw (h, same_task_self p) refl
        | inr h ↦ rw (h, same_task_self p) refl
      ])
      | inr other ↦ elim (Bool-cases due) [
        | inl h ↦ rw (h, other) refl
        | inr h ↦ rw (h, other) refl
      ]
    ]

woken_task-next_task : (s : Scheduler) (t : Task) → (woken_task s t).next_task ≡ t.next_task
woken_task-next_task s t =
    elim (Bool-cases (is_sleeping t.state && is_due t.wake_tick s.system_ticks)) [
      | inl h ↦ rw h refl
      | inr h ↦ rw h refl
    ]

woken_task_twice : (s : Scheduler) (t : Task) → woken_task s (woken_task s t) ≡ woken_task s t
woken_task_twice s t =
    elim (Bool-cases (is_sleeping t.state && is_due t.wake_tick s.system_ticks)) [
      | inl h ↦ rw h refl
      | inr h ↦ rw (h, h) refl
    ]

-- The state after some rounds: the same list, and every task as it was or woken.
pub record Rounds (s s' : Scheduler) : Type 0 where
  pub ticks : s'.system_ticks ≡ s.system_ticks
  pub head : s'.task_head ≡ s.task_head
  pub count : s'.task_count ≡ s.task_count
  pub current : s'.current_task ≡ s.current_task
  pub idle : s'.idle_task ≡ s.idle_task
  pub each : (q : TaskPtr) → (s'.tasks q ≡ s.tasks q) ⊎ (s'.tasks q ≡ woken_task s (s.tasks q))

Rounds-refl : (s : Scheduler) → Rounds s s
Rounds-refl s = record {
  ticks = refl;
  head = refl;
  count = refl;
  current = refl;
  idle = refl;
  each = λ q. inl refl;
}

one_round-Rounds : (p : TaskPtr) (s : Scheduler) → Rounds s (one_round p s)
one_round-Rounds p s =
    let due = is_sleeping (s.tasks p).state && is_due (s.tasks p).wake_tick s.system_ticks in
    let each : (q : TaskPtr)
        → ((one_round p s).tasks q ≡ s.tasks q)
          ⊎ ((one_round p s).tasks q ≡ woken_task s (s.tasks q)) =
      λ q. elim (Bool-cases (same_task q p)) [
        | inl h ↦ inr (one_round-task p q s ∙ rw h refl)
        | inr h ↦ inl (one_round-task p q s ∙ rw h refl)
      ] in
    elim (Bool-cases due) [
      | inl h ↦ record {
        ticks = rw h refl;
        head = rw h refl;
        count = rw h refl;
        current = rw h refl;
        idle = rw h refl;
        each = each;
      }
      | inr h ↦ record {
        ticks = rw h refl;
        head = rw h refl;
        count = rw h refl;
        current = rw h refl;
        idle = rw h refl;
        each = each;
      }
    ]

-- Waking again, later in the loop, gives what waking at the start gives.
Rounds-woken_task :
    (s s' : Scheduler) (q : TaskPtr)
    → Rounds s s'
    → woken_task s' (s'.tasks q) ≡ woken_task s (s.tasks q)
Rounds-woken_task s s' q same =
    let now : woken_task s' (s'.tasks q) ≡ woken_task s (s'.tasks q) =
      ap
        (λ n.
          if is_sleeping (s'.tasks q).state && is_due (s'.tasks q).wake_tick n
          then record (s'.tasks q) { state = ready }
          else s'.tasks q)
        same.ticks in
    elim (same.each q) [
      | inl e ↦ now ∙ ap (woken_task s) e
      | inr e ↦ now ∙ ap (woken_task s) e ∙ woken_task_twice s (s.tasks q)
    ]

Rounds-trans : (s s' s'' : Scheduler) → Rounds s s' → Rounds s' s'' → Rounds s s''
Rounds-trans s s' s'' a b = record {
  ticks = b.ticks ∙ a.ticks;
  head = b.head ∙ a.head;
  count = b.count ∙ a.count;
  current = b.current ∙ a.current;
  idle = b.idle ∙ a.idle;
  each = λ q. elim (b.each q) [
    | inl e ↦ elim (a.each q) [ inl f ↦ inl (e ∙ f) | inr f ↦ inr (e ∙ f) ]
    | inr e ↦ inr (e ∙ Rounds-woken_task s s' q a)
  ];
}

pub wake_sleepers-Rounds :
    (rounds : ℕ) (t : Option TaskPtr) (s : Scheduler) → Rounds s (wake_sleepers rounds t s)
unfolding wake_sleepers
wake_sleepers-Rounds zero t s = Rounds-refl s
wake_sleepers-Rounds (suc rounds) none s = Rounds-refl s
wake_sleepers-Rounds (suc rounds) (some p) s =
    Rounds-trans s (one_round p s) _ (one_round-Rounds p s)
      (wake_sleepers-Rounds rounds ((one_round p s).tasks p).next_task (one_round p s))

Rounds-next_task :
    (s s' : Scheduler) (q : TaskPtr) → Rounds s s' → (s'.tasks q).next_task ≡ (s.tasks q).next_task
Rounds-next_task s s' q same = elim (same.each q) [
  | inl e ↦ ap (λ (t : Task). t.next_task) e
  | inr e ↦ ap (λ (t : Task). t.next_task) e ∙ woken_task-next_task s (s.tasks q)
]

pub Rounds-link :
    (s s' : Scheduler) (t : Option TaskPtr) (n : ℕ) → Rounds s s' → link s' t n ≡ link s t n
unfolding link
Rounds-link s s' t zero same = refl
Rounds-link s s' none (suc n) same = refl
Rounds-link s s' (some p) (suc n) same =
    ap (λ k. link s' k n) (Rounds-next_task s s' p same)
    ∙ Rounds-link s s' (s.tasks p).next_task n same

pub wake_sleepers-woken_task :
    (rounds n : ℕ) (t : Option TaskPtr) (s : Scheduler) (q : TaskPtr)
    → n < rounds
    → link s t n ≡ some q
    → (wake_sleepers rounds t s).tasks q ≡ woken_task s (s.tasks q)
unfolding wake_sleepers link
wake_sleepers-woken_task zero n t s q h at = absurd (omega (arith, h))
wake_sleepers-woken_task (suc rounds) zero none s q h at = absurd (ground (arith, at))
wake_sleepers-woken_task (suc rounds) (suc n) none s q h at = absurd (ground (arith, at))
wake_sleepers-woken_task (suc rounds) zero (some p) s q h at =
    let s' = one_round p s in
    let rest = wake_sleepers-Rounds rounds (s'.tasks p).next_task s' in
    let here : p ≡ q = ground (arith, at) in
    let mine : s'.tasks q ≡ woken_task s (s.tasks q) =
      one_round-task p q s ∙ rw here (rw (same_task_self q) refl) in
    elim (rest.each q) [
      | inl e ↦ e ∙ mine
      | inr e ↦ e ∙ Rounds-woken_task s s' q (one_round-Rounds p s)
    ]
wake_sleepers-woken_task (suc rounds) (suc n) (some p) s q h at =
    let s' = one_round p s in
    let same = one_round-Rounds p s in
    let there : link s' (s'.tasks p).next_task n ≡ some q =
      ap (λ k. link s' k n) (Rounds-next_task s s' p same)
      ∙ Rounds-link s s' (s.tasks p).next_task n same
      ∙ at in
    wake_sleepers-woken_task rounds n (s'.tasks p).next_task s' q (omega (arith, h)) there
    ∙ Rounds-woken_task s s' q same
