-- ===== src/Task/State.antt =====
-- The states of a task (src/include/kernel/task.h) and the functions of src/kernel/core/task.c
-- that set one. Tasks are numbered; their states are a function of the number.
use tbs_kernel.Base.{ℕ, ◌==◌, if◌then◌else◌}

pub data TaskState : Type 0 where
  blocked sleeping ready running exited : TaskState

abbrev pub States : Type 0
States = ℕ → TaskState

pub TaskState-discrete : Discrete TaskState
TaskState-discrete = hlevel

abbrev pub set_state : TaskState → ℕ → States → States
set_state s t states u = if u == t then s else states u

abbrev pub block_task : ℕ → States → States
block_task t states = set_state blocked t states

abbrev pub wake_task : ℕ → States → States
wake_task t states = set_state ready t states

abbrev pub terminate_task : ℕ → States → States
terminate_task t states = set_state exited t states
