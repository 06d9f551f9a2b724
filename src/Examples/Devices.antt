-- ===== src/Examples/Devices.antt =====
-- The byte copies, the memory map, formats, the keyboard, the mouse and the scheduler on small inputs.
use tbs_kernel.Memory.Copy.Areas.{memmove-get, in_area}
use tbs_kernel.Memory.Map.Parsed.{parse_memory_map-IsUsable, IsUsable}
use tbs_kernel.Vfs.Walk.{vfs_lookup-walk_parts, walk_parts, parts_of, path_of}
use tbs_kernel.Vfs.{Vfs, vfs_lookup, slash}
use tbs_kernel.Mouse.Packets.{mouse_irq_handler-IsOnScreen, feed-packet, feed, IsOnScreen}
use tbs_kernel.Base.{
  ℕ, zero, suc, ◌+◌, ◌-◌, ◌≤◌, ◌<◌, ◌≡◌, refl, some, List, [], ◌∷◌, ◌++◌, arith, if◌then◌else◌,
  length, get_or, All, none, ◌==◌,
}
use tbs_kernel.Memory.Copy.{memmove}
use tbs_kernel.Memory.Map.{MultibootInfo, parse_memory_map, init_allocator, max_mem_entries}
use tbs_kernel.Memory.Pmm.Init.{Image, MemoryEntry}
use tbs_kernel.Memory.State.{Mm}
use tbs_kernel.Mouse.{mouse_start, mouse_irq_handler}
use tbs_kernel.Task.State.{TaskState, ready, sleeping}
use tbs_kernel.Task.Scheduler.{scheduler_choose_next, TaskPtr, Scheduler, heap_task, Task}
use tbs_kernel.Memory.Heap.{heap_start}
use tbs_kernel.Base.Int.{pos}
use tbs_kernel.Task.Scheduler.Choice.{IsPassed, scheduler_choose_next-first, nth_task}

abbrev five : List ℕ
five = 1 ∷ 2 ∷ 3 ∷ 4 ∷ 5 ∷ []

memmove-get_example :
    get_or (memmove 1 0 3 five) 2 0
    ≡ (if in_area 1 3 2 then get_or five (0 + 2 - 1) 0 else get_or five 2 0)
memmove-get_example = memmove-get 1 0 3 five 2 (omega arith)

abbrev boot_info : MultibootInfo
boot_info = record {
  flags = 0x40;
  mmap_addr = 0x9000;
  mmap_length = 24;
  mmap = λ a. record { size = 20; addr = 0x10_0000; len = 0x70_0000; type = 1 };
  modules = [];
}

abbrev boot_image : Image
boot_image = record {
  kernel_start = 0x10_0000;
  kernel_end = 0x10_5000;
  page_directory = 0x10_5000;
  first_page_table = 0x10_6000;
}

abbrev empty_mm : Mm
empty_mm = record {
  pmm = record { bitmap = []; total_pages = 0 };
  page_directory = λ _. 3;
  page_tables = λ _ _. 0;
  headers = λ _. record { len = 0; next = 0 };
  block_list = 0;
  heap_next_virt = heap_start;
}

parse_memory_map-IsUsable_example :
    (entries : List MemoryEntry) × (parse_memory_map boot_info boot_image empty_mm
      ≡ some (init_allocator entries [] boot_image empty_mm))
    × All IsUsable entries
    × (length entries ≤ max_mem_entries)
parse_memory_map-IsUsable_example =
    parse_memory_map-IsUsable boot_info boot_image empty_mm refl (omega arith) (λ a. omega arith)
      (λ a. omega arith)

mouse_start-IsOnScreen : IsOnScreen mouse_start
mouse_start-IsOnScreen = record {
  left = omega arith;
  right = omega arith;
  top = omega arith;
  bottom = omega arith;
}

mouse_irq_handler-IsOnScreen_example : IsOnScreen (mouse_irq_handler 0x20 0x08 mouse_start)
mouse_irq_handler-IsOnScreen_example =
    mouse_irq_handler-IsOnScreen 0x20 0x08 mouse_start mouse_start-IsOnScreen

feed-packet_example :
    let m' = feed ((0 ∷ []) ++ 8 ∷ 5 ∷ 250 ∷ []) mouse_start in
    (m'.mouse_x ≡ pos 505)
    × (m'.mouse_y ≡ pos 506)
    × (m'.mouse_cycle ≡ 0)
    × (m'.byte0 ≡ 8)
    × (m'.byte1 ≡ 5)
    × (m'.byte2 ≡ 250)
feed-packet_example = feed-packet (0 ∷ []) 8 5 250 mouse_start refl (ground arith) refl

-- Three tasks in a ring: the first is idle, the second sleeps, the third runs or waits.
abbrev ring_task : TaskState → TaskPtr → Task
ring_task third (heap_task zero) = record {
  tid = 0;
  state = ready;
  wake_tick = 0;
  next_task = some (heap_task 1);
  esp = 0;
  stack = [];
}
ring_task third (heap_task (suc zero)) = record {
  tid = 1;
  state = sleeping;
  wake_tick = 9;
  next_task = some (heap_task 2);
  esp = 0;
  stack = [];
}
ring_task third _ = record {
  tid = 2;
  state = third;
  wake_tick = 0;
  next_task = some (heap_task 0);
  esp = 0;
  stack = [];
}

abbrev three_tasks : TaskState → ℕ → Scheduler
three_tasks third count = record {
  tasks = ring_task third;
  task_head = some (heap_task 0);
  current_task = some (heap_task 0);
  idle_task = some (heap_task 0);
  task_count = count;
  tid_count = 3;
  system_ticks = 0;
  usage_ticks = 0;
  busy_ticks = 0;
}

second-IsPassed :
    (third : TaskState) (count k : ℕ)
    → 0 < k
    → k ≤ 1
    → IsPassed
        (three_tasks third count)
        (heap_task 0)
        (nth_task (three_tasks third count) (heap_task 0) (heap_task 0) k)
unfolding nth_task
second-IsPassed third count zero low high = absurd (omega arith)
second-IsPassed third count (suc zero) low high = record {
  not_ready = refl;
  not_exited = refl;
  not_idle = refl;
}
second-IsPassed third count (suc (suc k)) low high = absurd (omega arith)

third_task : nth_task (three_tasks ready 3) (heap_task 0) (heap_task 0) 2 ≡ heap_task 2
unfolding nth_task
third_task = refl

scheduler_choose_next-first_example :
    scheduler_choose_next (three_tasks ready 3)
    ≡ some
        (some (nth_task (three_tasks ready 3) (heap_task 0) (heap_task 0) 2), three_tasks ready 3)
scheduler_choose_next-first_example =
    scheduler_choose_next-first 1 1 (three_tasks ready 3) (heap_task 0) (heap_task 0) (heap_task 0)
      refl refl refl refl (second-IsPassed ready 3) (rw third_task refl)

-- Inode 0 is the root; it knows "bin", and that directory knows "sh".
abbrev tree : Vfs
tree = record {
  root_inode = some 0;
  lookup_op = λ i. some (λ name. if i == 0 then some 1 else if i == 1 then some 2 else none);
  ref_count = λ _. pos 1;
}

vfs_lookup-walk_parts_example :
    vfs_lookup
      (some (slash ∷ (path_of ((b'b' ∷ b'i' ∷ b'n' ∷ []) ∷ []) (b's' ∷ b'h' ∷ []) ++ 0 ∷ [])))
      none
      tree
    ≡ some (walk_parts (parts_of ((b'b' ∷ b'i' ∷ b'n' ∷ []) ∷ []) (b's' ∷ b'h' ∷ [])) 0 tree)
vfs_lookup-walk_parts_example =
    vfs_lookup-walk_parts ((b'b' ∷ b'i' ∷ b'n' ∷ []) ∷ []) (b's' ∷ b'h' ∷ []) [] none 0 tree refl
      ((ground arith, omega arith), tt) (ground arith, omega arith)
