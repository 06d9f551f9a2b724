-- ===== src/Task/Scheduler/Timeout.antt =====
-- `sleep_ms` of src/lib/sleep.c and the ticks of the timer: a task sleeps for as long as it asked,
-- and then is ready.
use tbs_kernel.Base.{
  ℕ, zero, suc, ◌+◌, ◌-◌, ◌%◌, ◌^◌, ◌≤◌, ◌<◌, ◌≡◌, refl, ap, ◌∙◌, inl, inr, true, false, ◌&&◌,
  Option, none, some, arith, ◌==◌, if◌then◌else◌, Bool-cases, ◌>>=◌,
}
use tbs_kernel.Task.Scheduler.{
  Scheduler, TaskPtr, is_due, scheduler_update_time, Task, is_sleeping, set_task, same_task,
  scheduler_tick,
}
use tbs_kernel.Task.Scheduler.Wakeup.{
  woken_task, link, wake_sleepers-Rounds, wake_sleepers-woken_task, Rounds-link, same_task_self,
  same_task-eq,
}
use tbs_kernel.Task.State.{sleeping, ready}
use tbs_kernel.Sleep.{ms_to_ticks, sleep_ms}
use tbs_kernel.Task.Scheduler.Tick.{ticked, IsRunning, scheduler_tick-chooses}
use tbs_kernel.Base.Words.{sub32, add32}

-- The clock after some ticks, with nothing else acting on the tasks.
unfoldable pub run_ticks : ℕ → Scheduler → Scheduler
run_ticks zero s = s
run_ticks (suc k) s = scheduler_update_time (run_ticks k s)

-- `k` ticks after the time `start`, a task at the place `n` of the list sleeps up to the tick
-- `start + d`.
record Asleep (start d n : ℕ) (p : TaskPtr) (k : ℕ) (s : Scheduler) : Type 0 where
  now : s.system_ticks ≡ (start + k) % 2 ^ 32
  state : (s.tasks p).state ≡ sleeping
  wake : (s.tasks p).wake_tick ≡ (start + d) % 2 ^ 32
  place : link s s.task_head n ≡ some p
  bound : n ≤ s.task_count

is_due-early :
    (start d k : ℕ)
    → k < d
    → d < 2 ^ 31
    → is_due ((start + d) % 2 ^ 32) ((start + k) % 2 ^ 32) ≡ false
is_due-early start d k early small =
    let left : sub32 ((start + d) % 2 ^ 32) ((start + k) % 2 ^ 32) ≡ d - k = omega arith in
    rw left (ground arith)

is_due-now : (start d : ℕ) → is_due ((start + d) % 2 ^ 32) ((start + d) % 2 ^ 32) ≡ true
is_due-now start d =
    let left : sub32 ((start + d) % 2 ^ 32) ((start + d) % 2 ^ 32) ≡ 0 = omega arith in rw left refl

ticked-link : (s : Scheduler) (t : Option TaskPtr) (n : ℕ) → link (ticked s) t n ≡ link s t n
unfolding link
ticked-link s t zero = refl
ticked-link s none (suc n) = refl
ticked-link s (some p) (suc n) = ticked-link s (s.tasks p).next_task n

current-link :
    (s : Scheduler) (next t : Option TaskPtr) (n : ℕ)
    → link (record s { current_task = next }) t n ≡ link s t n
unfolding link
current-link s next t zero = refl
current-link s next none (suc n) = refl
current-link s next (some p) (suc n) = current-link s next (s.tasks p).next_task n

link-head :
    (s : Scheduler) (t : Option TaskPtr) (n : ℕ) (p : TaskPtr)
    → link s t n ≡ some p
    → (head : TaskPtr) × (t ≡ some head)
unfolding link
link-head s none zero p e = absurd (ground (arith, e))
link-head s none (suc n) p e = absurd (ground (arith, e))
link-head s (some head) n p e = (head, refl)

Asleep-tick :
    (start d n : ℕ) (p : TaskPtr) (k : ℕ) (s : Scheduler)
    → Asleep start d n p k s
    → suc k < d
    → d < 2 ^ 31
    → Asleep start d n p (suc k) (scheduler_update_time s)
unfolding scheduler_update_time
Asleep-tick start d n p k s a early small =
    let s1 = ticked s in
    let rounds = wake_sleepers-Rounds (s.task_count + 1) s.task_head s1 in
    let time : s1.system_ticks ≡ (start + suc k) % 2 ^ 32 = omega (arith, a.now) in
    let still : is_due (s.tasks p).wake_tick s1.system_ticks ≡ false =
      rw (a.wake, time) (is_due-early start d (suc k) early small) in
    let there = ticked-link s s.task_head n ∙ a.place in
    let same =
      wake_sleepers-woken_task (s.task_count + 1) n s.task_head s1 p (omega (arith, a.bound))
        there in
    let both : (is_sleeping (s.tasks p).state && is_due (s.tasks p).wake_tick s1.system_ticks)
        ≡ false =
      ap (λ b. is_sleeping (s.tasks p).state && b) still ∙ rw a.state refl in
    let unchanged : woken_task s1 (s.tasks p) ≡ s.tasks p = rw both refl in
    record {
      now = rounds.ticks ∙ time;
      state = ap (λ (t : Task). t.state) (same ∙ unchanged) ∙ a.state;
      wake = ap (λ (t : Task). t.wake_tick) (same ∙ unchanged) ∙ a.wake;
      place =
          ap (λ h. link (scheduler_update_time s) h n) rounds.head
          ∙ Rounds-link s1 (scheduler_update_time s) s.task_head n rounds
          ∙ there;
      bound = omega (arith, rounds.count, a.bound);
    }

Asleep-last :
    (start n : ℕ) (p : TaskPtr) (k : ℕ) (s : Scheduler)
    → Asleep start (suc k) n p k s
    → ((scheduler_update_time s).tasks p).state ≡ ready
unfolding scheduler_update_time
Asleep-last start n p k s a =
    let s1 = ticked s in
    let time : s1.system_ticks ≡ (start + suc k) % 2 ^ 32 = omega (arith, a.now) in
    let due : is_due (s.tasks p).wake_tick s1.system_ticks ≡ true =
      rw (a.wake, time) (is_due-now start (suc k)) in
    let there = ticked-link s s.task_head n ∙ a.place in
    let same =
      wake_sleepers-woken_task (s.task_count + 1) n s.task_head s1 p (omega (arith, a.bound))
        there in
    let both : (is_sleeping (s.tasks p).state && is_due (s.tasks p).wake_tick s1.system_ticks)
        ≡ true =
      ap (λ b. is_sleeping (s.tasks p).state && b) due ∙ rw a.state refl in
    ap (λ (t : Task). t.state) same ∙ rw both refl

Asleep-run_ticks :
    (start d n : ℕ) (p : TaskPtr) (k : ℕ) (s : Scheduler)
    → Asleep start d n p 0 s
    → k < d
    → d < 2 ^ 31
    → Asleep start d n p k (run_ticks k s)
unfolding run_ticks
Asleep-run_ticks start d n p zero s a early small = a
Asleep-run_ticks start d n p (suc k) s a early small =
    Asleep-tick start d n p k (run_ticks k s)
      (Asleep-run_ticks start d n p k s a (omega (arith, early)) small) early small

Asleep-wakes :
    (start d n : ℕ) (p : TaskPtr) (s : Scheduler)
    → Asleep start d n p 0 s
    → 0 < d
    → d < 2 ^ 31
    → ((k : ℕ) → k < d → ((run_ticks k s).tasks p).state ≡ sleeping)
      × (((run_ticks d s).tasks p).state ≡ ready)
unfolding run_ticks
Asleep-wakes start zero n p s a some_time small = absurd (omega (arith, some_time))
Asleep-wakes start (suc k) n p s a some_time small = (
  λ j early. (Asleep-run_ticks start (suc k) n p j s a early small).state,
  Asleep-last start n p k (run_ticks k s)
      (Asleep-run_ticks start (suc k) n p k s a (omega arith) small),
)

-- A change of a task that keeps its place on the list.
set_task-link :
    (s : Scheduler) (p : TaskPtr) (t : Task) (q : Option TaskPtr) (n : ℕ)
    → t.next_task ≡ (s.tasks p).next_task
    → link (set_task p t s) q n ≡ link s q n
unfolding link
set_task-link s p t q zero h = refl
set_task-link s p t none (suc n) h = refl
set_task-link s p t (some r) (suc n) h =
    let next : ((set_task p t s).tasks r).next_task ≡ (s.tasks r).next_task =
      elim (Bool-cases (same_task r p)) [
        | inl same ↦ rw (same_task-eq r p same) (rw (same_task_self p) h)
        | inr other ↦ rw other refl
      ] in
    ap (λ k. link (set_task p t s) k n) next ∙ set_task-link s p t (s.tasks r).next_task n h

-- The ticks that `sleep_ms` waits: at least one.
abbrev pub sleep_ticks : ℕ → ℕ → ℕ
sleep_ticks pit_frequency ms =
    if ms_to_ticks pit_frequency ms == 0 then 1 else ms_to_ticks pit_frequency ms

-- The clock does not look at which task runs, but for its count of busy ticks.
Asleep-current :
    (start d n : ℕ) (p : TaskPtr) (k : ℕ) (s : Scheduler) (next : Option TaskPtr)
    → Asleep start d n p k s
    → Asleep start d n p k (record s { current_task = next })
Asleep-current start d n p k s next a = record {
  now = a.now;
  state = a.state;
  wake = a.wake;
  place = current-link s next s.task_head n ∙ a.place;
  bound = a.bound;
}

-- The ticks after the first, which `sleep_ms` itself brings.
Asleep-wakes_after :
    (start d n : ℕ) (p : TaskPtr) (s : Scheduler) (next : Option TaskPtr)
    → Asleep start d n p 0 s
    → 0 < d
    → d < 2 ^ 31
    → let s' = record (scheduler_update_time s) { current_task = next } in
      ((k : ℕ) → k + 1 < d → ((run_ticks k s').tasks p).state ≡ sleeping)
      × (((run_ticks (d - 1) s').tasks p).state ≡ ready)
unfolding run_ticks
Asleep-wakes_after start zero n p s next a some_time small = absurd (omega (arith, some_time))
Asleep-wakes_after start (suc zero) n p s next a some_time small =
    (λ k early. absurd (omega (arith, early)), Asleep-last start n p 0 s a)
Asleep-wakes_after start (suc (suc j)) n p s next a some_time small =
    let later : Asleep start (suc (suc j)) n p 1 (scheduler_update_time s) =
      Asleep-tick start (suc (suc j)) n p 0 s a (omega arith) small in
    let moved = Asleep-current start (suc (suc j)) n p 1 (scheduler_update_time s) next later in
    let s' = record (scheduler_update_time s) { current_task = next } in
    let anew : Asleep (start + 1) (suc j) n p 0 s' = record {
      now = omega (arith, moved.now);
      state = moved.state;
      wake = omega (arith, moved.wake);
      place = moved.place;
      bound = moved.bound;
    } in
    let (before, done) = Asleep-wakes (start + 1) (suc j) n p s' anew (omega arith) (omega arith) in
    let fewer : suc (suc j) - 1 ≡ suc j = omega arith in
    (λ k early. before k (omega (arith, early)), rw fewer done)

sleep_ms-tick :
    (pit_frequency ms : ℕ) (p : TaskPtr) (s : Scheduler)
    → s.current_task ≡ some p
    → sleep_ms pit_frequency ms s
      ≡ scheduler_tick (
          set_task p
            (record (s.tasks p) {
              wake_tick = add32 s.system_ticks (sleep_ticks pit_frequency ms);
              state = sleeping;
            })
            s)
unfolding sleep_ms
sleep_ms-tick pit_frequency ms p s current =
    ap
      (λ c. c >>= λ p'. scheduler_tick (
        set_task p'
          (record (s.tasks p') {
            wake_tick = add32 s.system_ticks (sleep_ticks pit_frequency ms);
            state = sleeping;
          })
          s))
      current

-- The current task stands on the list within the places that the clock looks at, there is an idle
-- task, no task has ended, and the ticks that the task asks for, at least one, are below 2 ^ 31.
-- `sleep_ms` brings the first of these ticks itself, by the interrupt at its end. With nothing else
-- acting on the tasks it is asleep after every smaller number of ticks, that one included, also
-- where the tick counter wraps, and ready after exactly as many: after one fewer from the timer.
pub sleep_ms-run_ticks :
    (pit_frequency ms n : ℕ) (p i : TaskPtr) (s : Scheduler)
    → s.current_task ≡ some p
    → s.idle_task ≡ some i
    → IsRunning s
    → link s s.task_head n ≡ some p
    → n ≤ s.task_count
    → s.system_ticks < 2 ^ 32
    → sleep_ticks pit_frequency ms < 2 ^ 31
    → (s' : Scheduler) × (sleep_ms pit_frequency ms s ≡ some s')
      × ((k : ℕ)
          → k + 1 < sleep_ticks pit_frequency ms
          → ((run_ticks k s').tasks p).state ≡ sleeping)
      × (((run_ticks (sleep_ticks pit_frequency ms - 1) s').tasks p).state ≡ ready)
sleep_ms-run_ticks pit_frequency ms n p i s current idle alive place bound word small =
    let d = sleep_ticks pit_frequency ms in
    let t = s.tasks p in
    let asleep : Task = record t { wake_tick = add32 s.system_ticks d; state = sleeping } in
    let s1 = set_task p asleep s in
    let mine : s1.tasks p ≡ asleep = rw (same_task_self p) refl in
    let there = set_task-link s p asleep s.task_head n refl ∙ place in
    let waits : Asleep s.system_ticks d n p 0 s1 = record {
      now = omega (arith, word);
      state = ap (λ (x : Task). x.state) mine;
      wake = ap (λ (x : Task). x.wake_tick) mine;
      place = there;
      bound = bound;
    } in
    let (head, first) = link-head s s.task_head n p place in
    let still : IsRunning s1 =
      λ q. elim (Bool-cases (same_task q p)) [ inl h ↦ rw h refl | inr h ↦ rw h (alive q) ] in
    let (next, ticked_once) = scheduler_tick-chooses p head i s1 current first idle still in
    let (before, done) =
      Asleep-wakes_after s.system_ticks d n p s1 (some next) waits (ground arith) small in
    (
      record (scheduler_update_time s1) { current_task = some next },
      sleep_ms-tick pit_frequency ms p s current ∙ ticked_once,
      before,
      done,
    )
