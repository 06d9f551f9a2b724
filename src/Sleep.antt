-- ===== src/Sleep.antt =====
-- src/lib/sleep.c, and the frequency of the timer (src/kernel/drivers/pit.c), an argument here.
use tbs_kernel.Task.State.{sleeping}
use tbs_kernel.Base.Words.{add32}
use tbs_kernel.Base.{ℕ, ◌*◌, ◌/◌, ◌%◌, ◌^◌, Option, none, some, ◌==◌, if◌then◌else◌, ◌>>=◌}
use tbs_kernel.Task.Scheduler.{scheduler_tick, Scheduler, set_task}

unfoldable pub ms_to_ticks : ℕ → ℕ → ℕ
ms_to_ticks pit_frequency ms = add32 ((ms * pit_frequency) % 2 ^ 32) 999 / 1000

-- `int $32` at the end is the interrupt of the timer: its handler (`irq_timer_stub` of
-- src/arch/i686/boot/int.asm) calls `scheduler_tick`, which counts a tick and chooses the next task.
unfoldable pub sleep_ms : ℕ → ℕ → Scheduler → Option Scheduler
unfolding ms_to_ticks
sleep_ms pit_frequency ms s =
    let converted = ms_to_ticks pit_frequency ms in
    let ticks = if converted == 0 then 1 else converted in
    s.current_task >>= λ p.
    let t = s.tasks p in
    let asleep =
      set_task p (record t { wake_tick = add32 s.system_ticks ticks; state = sleeping }) s in
    scheduler_tick asleep

-- `pit_init`: the two bytes of the divisor that go to the timer's port; `none` is a division by 0.
unfoldable pub pit_init : ℕ → Option (ℕ × ℕ)
pit_init frequency =
    let divisor = 1193182 / frequency in
    if frequency == 0 then none else some (divisor % 2 ^ 8, (divisor / 2 ^ 8) % 2 ^ 8)
