-- ===== src/Tests/Ending.antt =====
-- The end of a thread, at the sample machine: the first task, as one of two threads of its process.
use ucas_os_kernel.Base.{ℕ, ◌+◌, ◌*◌, ◌≡◌, refl, some, arith}
use ucas_os_kernel.Kernel.{Kernel}
use ucas_os_kernel.Process.{do_exit}
use ucas_os_kernel.Process.Release.{LockQueues}
use ucas_os_kernel.Process.Exit.{do_exit-thread}
use ucas_os_kernel.Tests.Samples.{
  sample_bios, sample_layout, sample_base, sample_kernel, sample_head, sample_view, sample-IsSystem,
  low-TaskQueue, task_queue,
}

abbrev thread_kernel : Kernel ℕ
thread_kernel = record sample_kernel {
  threads = λ i. 2;
  pcb_at = λ p. record (sample_kernel.pcb_at p) { user_sp = sample_base + 16384 };
}

thread-LockQueues : LockQueues sample_layout sample_head thread_kernel sample_view
thread-LockQueues = record {
  queues = λ j h. low-TaskQueue (1100 + 16 * j) (omega arith) (omega arith);
  not_ready = λ j h. omega arith;
  own = λ j l g h ne. omega arith;
  held = λ j h free. ground arith;
}

do_exit-thread_example :
    (k' : Kernel ℕ) × (do_exit sample_bios sample_layout thread_kernel ≡ some k')
    × (k'.current_running ≡ 5000)
    × (k'.tp ≡ 5000)
    × ((k'.pcb_at 5000).pid ≡ 0)
do_exit-thread_example =
    do_exit-thread sample_layout sample_bios thread_kernel sample_view 9024 sample-IsSystem
      thread-LockQueues refl (task_queue 5048 refl (ground arith) (ground arith)) (ground arith)
      refl (omega arith)
