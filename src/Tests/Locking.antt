-- ===== src/Tests/Locking.antt =====
-- The theorems on locks, at the sample machine: mutex, barrier and condition 0, at which the second
-- task waits in `contended`.
use ucas_os_kernel.Base.{ℕ, ◌≤◌, ◌<◌, ◌≡◌, refl, true, [], ◌∷◌, some, arith}
use ucas_os_kernel.Base.Int.{pos}
use ucas_os_kernel.Queue.{Ptr, list_add_tail, list_delete_entry}
use ucas_os_kernel.Queue.Rep.{View, moved}
use ucas_os_kernel.Kernel.{Kernel}
use ucas_os_kernel.Sched.System.{IsSystem, IsSystem-moved}
use ucas_os_kernel.Lock.{
  do_mutex_lock_acquire, do_mutex_lock_release, do_barrier_wait, do_condition_signal,
  do_condition_broadcast, do_condition_wait_block,
}
use ucas_os_kernel.Lock.Handover.{lock_view, Released, Acquired, release_lem, acquire_lem}
use ucas_os_kernel.Lock.Barriers.{Arrived, do_barrier_wait_lem}
use ucas_os_kernel.Lock.Conditions.{
  Signalled, do_condition_signal_lem, do_condition_broadcast_lem, do_condition_wait_lem,
}
use ucas_os_kernel.Tests.Samples.{
  sample_bios, sample_layout, sample_head, sample_links, sample_nodes, sample_mm, sample_view,
  sample_kernel, sample-IsSystem, ready-TaskQueue, low-TaskQueue,
}

-- The second task waits in the queue at `head`, and mutex 0 is the first task's.
abbrev contended : (head : Ptr) → Kernel ℕ
contended head = record sample_kernel {
  mm = record sample_mm { links = list_add_tail (list_delete_entry sample_links 5168) 5168 head };
  mlocks = λ i. record { locked = true; key = pos 0; pid = 1 };
  barriers = λ i. record { current = pos 1; goal = pos 2; key = pos 0 };
}

abbrev contended_view : (head : Ptr) → View
contended_view head = moved sample_view 5168 1000 head

contended-IsSystem :
    (head : Ptr)
    → 1100 ≤ head
    → head < 4000
    → IsSystem sample_layout sample_head sample_nodes (contended head).mm (contended_view head)
contended-IsSystem head a b =
    IsSystem-moved sample-IsSystem 5168 1000 head ready-TaskQueue (low-TaskQueue head a b) refl

release_example :
    (q' : View) × Released sample_layout sample_head sample_nodes
      (contended 1100)
      (contended_view 1100)
      0
      (do_mutex_lock_release sample_layout (contended 1100) 0)
      q'
release_example =
    release_lem sample_layout (contended 1100) (contended_view 1100) 0
      (contended-IsSystem 1100 (omega arith) (omega arith))
      (low-TaskQueue 1100 (omega arith) (omega arith)) (ground arith) (λ e. ground (arith, e))

acquire_example :
    (k' : Kernel ℕ) × (q' : View) × (do_mutex_lock_acquire sample_bios sample_layout
        (contended 1100)
        0
      ≡ some k')
    × Acquired sample_layout sample_head sample_nodes (contended 1100) (contended_view 1100) 0 k' q'
acquire_example =
    acquire_lem sample_bios sample_layout (contended 1100) (contended_view 1100) 0
      (contended-IsSystem 1100 (omega arith) (omega arith))
      (low-TaskQueue 1100 (omega arith) (omega arith)) 1000 ready-TaskQueue (ground arith) refl
      (λ e. ground (arith, e))

do_barrier_wait_example :
    (k' : Kernel ℕ) × (q' : View) × (do_barrier_wait sample_bios sample_layout (contended 1400) 0
      ≡ some k')
    × Arrived sample_layout sample_head sample_nodes (contended 1400) (contended_view 1400) 0 k' q'
do_barrier_wait_example =
    do_barrier_wait_lem sample_bios sample_layout (contended 1400) (contended_view 1400) 0
      (contended-IsSystem 1400 (omega arith) (omega arith))
      (low-TaskQueue 1400 (omega arith) (omega arith)) 1000 ready-TaskQueue (ground arith)
      (ground arith) refl (record { count = refl })

do_condition_signal_example :
    (q' : View) × Signalled sample_layout sample_head sample_nodes
      (contended 1700)
      (contended_view 1700)
      0
      (5168 ∷ [])
      []
      (do_condition_signal sample_layout (contended 1700) 0)
      q'
do_condition_signal_example =
    do_condition_signal_lem sample_layout (contended 1700) (contended_view 1700) 0
      (contended-IsSystem 1700 (omega arith) (omega arith))
      (low-TaskQueue 1700 (omega arith) (omega arith)) (ground arith) 5168 [] refl

do_condition_broadcast_example :
    (k' : Kernel ℕ) × (q' : View) × (do_condition_broadcast sample_layout (contended 1700) 0
      ≡ some k')
    × Signalled sample_layout sample_head sample_nodes
        (contended 1700)
        (contended_view 1700)
        0
        (5168 ∷ [])
        []
        k'
        q'
do_condition_broadcast_example =
    do_condition_broadcast_lem sample_layout (contended 1700) (contended_view 1700) 0
      (contended-IsSystem 1700 (omega arith) (omega arith))
      (low-TaskQueue 1700 (omega arith) (omega arith)) (ground arith)

do_condition_wait_example :
    (k' : Kernel ℕ) × (q' : View) × (do_condition_wait_block sample_bios sample_layout
        (contended 1100)
        0
        0
      ≡ some k')
    × IsSystem sample_layout sample_head sample_nodes k'.mm q'
    × (lock_view sample_layout k' q' 0 ≡ record { owner = some 2; waiters = [] })
    × (q' 1700 ≡ 5032 ∷ [])
do_condition_wait_example =
    do_condition_wait_lem sample_bios sample_layout (contended 1100) (contended_view 1100) 0 0
      (contended-IsSystem 1100 (omega arith) (omega arith))
      (low-TaskQueue 1700 (omega arith) (omega arith))
      (low-TaskQueue 1100 (omega arith) (omega arith)) (ground arith) (ground arith) (ground arith)
      refl (λ e. ground (arith, e))
