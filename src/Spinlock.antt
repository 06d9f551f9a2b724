-- ===== src/Spinlock.antt =====
-- src/lib/spinlock.c.
pub mod Exclusion
use tbs_kernel.Base.{ℕ, Option, none, some, ◌==◌, if◌then◌else◌}

-- `spinlock_t`; the owner is the number of a task, and none before the first acquisition.
pub record Spinlock : Type 0 where
  pub locked : ℕ
  pub owner : Option ℕ

-- `xchg`: the old value, and the new one stored.
abbrev pub xchg : Spinlock → ℕ → ℕ × Spinlock
xchg lock newval = (lock.locked, record lock { locked = newval })

-- `none`: the loop goes on until another task releases the lock.
unfoldable pub spinlock_acquire : ℕ → Spinlock → Option Spinlock
spinlock_acquire current_task lock =
    let (old, taken) = xchg lock 1 in
    if old == 0 then some (record taken { owner = some current_task }) else none

unfoldable pub spinlock_release : Spinlock → Spinlock
spinlock_release lock = record lock { locked = 0 }
