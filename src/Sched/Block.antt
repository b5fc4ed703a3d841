-- ===== src/Sched/Block.antt =====
-- `do_block`, `do_unblock`, `do_sleep` and the rotation of `do_scheduler`: which list a task goes
-- to, and in which state.
use ucas_os_kernel.Base.{ℕ, ◌+◌, ◌≡◌, refl, ◌≢◌, Bool, true, List, arith, upd, has, some}
use ucas_os_kernel.Queue.{Ptr, list_add_tail, list_delete_entry}
use ucas_os_kernel.Queue.Rep.{View, moved}
use ucas_os_kernel.Layout.{Layout, pcb_list, pcb_entry}
use ucas_os_kernel.Mm.State.{Mm, Bios}
use ucas_os_kernel.Mm.Swap.All.{SameElsewhere}
use ucas_os_kernel.Kernel.{blocked, ready, Kernel, links, set_links, set_status}
use ucas_os_kernel.Sched.{do_block, do_unblock, do_sleep, get_timer}
use ucas_os_kernel.Sched.System.{TaskQueue, IsSystem, IsSystem-moved}
use ucas_os_kernel.Sched.Idle.{next_task, resumed, reschedule_lem}

-- The task of node `n`, with its new state, before another is chosen.
abbrev pub waiting : {Disk : Type 0} → Kernel Disk → (n queue : Ptr) → Kernel Disk
waiting k n queue =
    set_status (set_links k (list_add_tail (list_delete_entry (links k) n) n queue)) (pcb_entry n)
      blocked

module _ {Disk : Type 0} {is_head : Ptr → Bool} {nodes : List Ptr} where
  -- In a well-formed kernel, do_block of a node in some task queue, to another or the same, ends
  -- without a fault in a well-formed kernel: the node is at the end of the target queue and has
  -- left the old one, every other task queue is unchanged, and its task is marked as blocked
  -- before the processor resumes the first ready task that is not running, or its idle task.
  pub do_block_lem :
      (bios : Bios Disk) (y : Layout) (k : Kernel Disk) (q : View) (n from queue : Ptr)
      → IsSystem y is_head nodes k.mm q
      → TaskQueue y is_head from
      → TaskQueue y is_head queue
      → has n (q from) ≡ true
      → (m : Mm Disk) × (q' : View) × (do_block bios y k n queue
          ≡ some (
              resumed
                (waiting k n queue)
                (next_task y (waiting k n queue) (moved q n from queue y.ready_queue))
                m))
        × IsSystem y is_head nodes m q'
        × SameElsewhere y (moved q n from queue) q'
  unfolding do_block
  do_block_lem bios y k q n from queue s f t i =
      reschedule_lem bios y (waiting k n queue) (moved q n from queue) (pcb_entry n)
        (IsSystem-moved s n from queue f t i)

  -- In a well-formed kernel, do_unblock of a node in a task queue moves it to the end of the
  -- ready queue, sets its task ready and changes no other task nor the running one.
  pub do_unblock_lem :
      (y : Layout) (k : Kernel Disk) (q : View) (n from : Ptr)
      → IsSystem y is_head nodes k.mm q
      → TaskQueue y is_head from
      → has n (q from) ≡ true
      → IsSystem y is_head nodes (do_unblock y k n).mm (moved q n from y.ready_queue)
        × (((do_unblock y k n).pcb_at (pcb_entry n)).status ≡ ready)
        × ((p : Ptr) → p ≢ pcb_entry n → (do_unblock y k n).pcb_at p ≡ k.pcb_at p)
        × ((do_unblock y k n).current_running ≡ k.current_running)
  unfolding do_unblock
  do_unblock_lem y k q n from s f i =
      (IsSystem-moved s n from y.ready_queue f s.ready i, ground arith, λ p ne. ground arith, refl)

  -- In a well-formed kernel whose running task is in a task queue, do_sleep ends without a
  -- fault, with the running task moved to the end of the sleep queue and its wake-up time set to
  -- the time plus the seconds asked for.
  pub do_sleep_lem :
      (bios : Bios Disk) (y : Layout) (k : Kernel Disk) (q : View) (from : Ptr) (sleep_time : ℕ)
      → IsSystem y is_head nodes k.mm q
      → TaskQueue y is_head from
      → TaskQueue y is_head y.sleep_queue
      → has (pcb_list k.current_running) (q from) ≡ true
      → (k' : Kernel Disk) × (q' : View) × (do_sleep bios y k sleep_time ≡ some k')
        × IsSystem y is_head nodes k'.mm q'
        × SameElsewhere y (moved q (pcb_list k.current_running) from y.sleep_queue) q'
        × ((k'.pcb_at k.current_running).wakeup_time ≡ get_timer k + sleep_time)
  unfolding do_sleep
  do_sleep_lem bios y k q from t s f sl i =
      let p = k.current_running in
      let k1 : Kernel Disk = record k {
        pcb_at = upd k.pcb_at p (record (k.pcb_at p) { wakeup_time = get_timer k + t });
      } in
      let b = do_block_lem bios y k1 q (pcb_list p) from y.sleep_queue s f sl i in
      let w = waiting k1 (pcb_list p) y.sleep_queue in
      let next = next_task y w (moved q (pcb_list p) from y.sleep_queue y.ready_queue) in
      let back : pcb_entry (pcb_list p) ≡ p = omega arith in
      (resumed w next b.0, b.1, b.2, b.3, b.4, ground (arith, back))
