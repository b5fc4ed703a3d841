-- ===== src/Tests/Scheduling.antt =====
-- The theorems on the scheduler, at the sample machine.
use ucas_os_kernel.Base.{
  true, keep, ◌⊎◌, length, if◌then◌else◌, ◌==◌, ℕ, ◌+◌, ◌≡◌, refl, ◌≢◌, [], some, inr, arith,
}
use ucas_os_kernel.Queue.{Ptr}
use ucas_os_kernel.Queue.Rep.{View, moved}
use ucas_os_kernel.Mm.State.{Mm}
use ucas_os_kernel.Mm.Swap.All.{SameElsewhere}
use ucas_os_kernel.Kernel.{running, is_running, ready, Kernel}
use ucas_os_kernel.Sched.{
  do_block, do_unblock, do_sleep, check_sleeping, find_idle_task, do_scheduler, get_timer,
}
use ucas_os_kernel.Sched.System.{IsSystem}
use ucas_os_kernel.Mm.Swap.All.{is_of}
use ucas_os_kernel.Sched.Idle.{chosen, find_idle_task_lem, resumed, find_idle_task-exclusive}
use ucas_os_kernel.Sched.Block.{waiting, do_block_lem, do_unblock_lem, do_sleep_lem}
use ucas_os_kernel.Sched.Wake.{Woken, due, check_sleeping_lem}
use ucas_os_kernel.Sched.Schedule.{Queues, Scheduled, do_scheduler_lem}
use ucas_os_kernel.Tests.Samples.{
  sample_bios, sample_layout, sample_head, sample_nodes, sample_view, sample_kernel,
  sample-IsSystem, ready-TaskQueue, sleep-TaskQueue, send-TaskQueue, recv-TaskQueue,
}

do_block_example :
    (m : Mm ℕ) × (q' : View) × (do_block sample_bios sample_layout sample_kernel 5032 1016
      ≡ some (resumed (waiting sample_kernel 5032 1016) 5136 m))
    × IsSystem sample_layout sample_head sample_nodes m q'
    × SameElsewhere sample_layout (moved sample_view 5032 1000 1016) q'
do_block_example =
    do_block_lem sample_bios sample_layout sample_kernel sample_view 5032 1000 1016 sample-IsSystem
      ready-TaskQueue sleep-TaskQueue refl

do_unblock_example :
    IsSystem sample_layout sample_head sample_nodes
      (do_unblock sample_layout sample_kernel 5168).mm
      (moved sample_view 5168 1000 1000)
    × (((do_unblock sample_layout sample_kernel 5168).pcb_at 5136).status ≡ ready)
    × ((p : Ptr)
        → p ≢ 5136
        → (do_unblock sample_layout sample_kernel 5168).pcb_at p ≡ sample_kernel.pcb_at p)
    × ((do_unblock sample_layout sample_kernel 5168).current_running ≡ 5000)
do_unblock_example =
    do_unblock_lem sample_layout sample_kernel sample_view 5168 1000 sample-IsSystem ready-TaskQueue
      refl

do_sleep_example :
    (k' : Kernel ℕ) × (q' : View) × (do_sleep sample_bios sample_layout sample_kernel 7 ≡ some k')
    × IsSystem sample_layout sample_head sample_nodes k'.mm q'
    × SameElsewhere sample_layout (moved sample_view 5032 1000 1016) q'
    × ((k'.pcb_at 5000).wakeup_time ≡ get_timer sample_kernel + 7)
do_sleep_example =
    do_sleep_lem sample_bios sample_layout sample_kernel sample_view 1000 7 sample-IsSystem
      ready-TaskQueue sleep-TaskQueue refl

find_idle_task_example :
    (m : Mm ℕ) × (q' : View) × (find_idle_task sample_bios sample_layout sample_kernel
      ≡ some (chosen sample_kernel 5136 m))
    × IsSystem sample_layout sample_head sample_nodes m q'
    × SameElsewhere sample_layout sample_view q'
    × ((keep (is_of m (sample_kernel.pcb_at 5168).pgdir) (q' 1048) ≡ []) ⊎ (length (q' 1032) ≡ 512))
find_idle_task_example =
    find_idle_task_lem sample_bios sample_layout sample_kernel sample_view sample-IsSystem

-- The other processor runs its own idle task.
abbrev two_processors : Kernel ℕ
two_processors = record sample_kernel {
  runnings = λ c. if c == 0 then 5000 else 4200;
  pcb_at = λ p. record (sample_kernel.pcb_at p) {
    status = if p == 4200 then running else (sample_kernel.pcb_at p).status;
  };
}

find_idle_task-exclusive_example :
    (k' : Kernel ℕ) × (find_idle_task sample_bios sample_layout two_processors ≡ some k')
    × (is_running (k'.pcb_at (k'.runnings 0)).status ≡ true)
    × (is_running (k'.pcb_at (k'.runnings 1)).status ≡ true)
    × (k'.runnings 0 ≢ k'.runnings 1)
find_idle_task-exclusive_example =
    find_idle_task-exclusive sample_bios sample_layout two_processors sample_view sample-IsSystem
      (omega arith) refl (ground arith)

check_sleeping_example :
    (k : Kernel ℕ) × (q : View) × (check_sleeping sample_layout sample_kernel ≡ some k)
    × Woken sample_layout sample_head sample_nodes 1016 sample_kernel sample_view
        (due sample_kernel)
        k
        q
check_sleeping_example =
    check_sleeping_lem sample_layout sample_kernel sample_view sample-IsSystem sleep-TaskQueue
      (ground arith)

sample-Queues : Queues sample_layout sample_head
sample-Queues = record {
  sleep = sleep-TaskQueue;
  send = send-TaskQueue;
  recv = recv-TaskQueue;
  ready_sleep = ground arith;
  ready_send = ground arith;
  ready_recv = ground arith;
  sleep_send = ground arith;
  sleep_recv = ground arith;
  send_recv = ground arith;
}

do_scheduler_example :
    (k' : Kernel ℕ) × (q : View) × (do_scheduler sample_bios sample_layout sample_kernel ≡ some k')
    × Scheduled sample_layout sample_head sample_nodes sample_kernel sample_view k' q
do_scheduler_example =
    do_scheduler_lem sample_bios sample_layout sample_kernel sample_view sample-Queues
      sample-IsSystem (inr refl)
