-- ===== src/Sched.antt =====
-- The scheduler: kernel/sched/sched.c, kernel/sched/time.c, and the queue checks of
-- kernel/net/net.c. `none` is fuel run out on a list that does not come back to its head.
pub mod System
pub mod Idle
pub mod Block
pub mod Wake
pub mod Net
pub mod Schedule
use ucas_os_kernel.Base.{
  ℕ, ◌+◌, ◌*◌, ◌/◌, ◌^◌, Bool, true, false, not, ◌||◌, Option, none, some, ◌>>=◌, ◌==◌, leb, upd,
  bit_or, if◌then◌else◌,
}
use ucas_os_kernel.Queue.{
  Ptr, Links, is_queue_empty, list_add_tail, list_delete_entry, list_for_each_safe, find_entry,
}
use ucas_os_kernel.Layout.{Layout, pcb_list, pcb_entry, list_fuel}
use ucas_os_kernel.Mm.Pgtable.{kva2pa, shl}
use ucas_os_kernel.Mm.State.{Bios}
use ucas_os_kernel.Mm.Swap.{swap_in_all_pages}
use ucas_os_kernel.Kernel.{
  TaskStatus, blocked, running, ready, is_running, Pcb, Kernel, links, set_links, set_status,
}

module _ {Disk : Type 0} where
  -- `switch_pgdir`; `satp` as `set_satp` puts it together, in Sv39 mode.
  abbrev pub switch_pgdir : Kernel Disk → Kernel Disk
  switch_pgdir k =
      let p = k.pcb_at k.current_running in
      record k { satp = bit_or (bit_or (shl 8 60) (shl p.pid 44)) (kva2pa p.pgdir / 2 ^ 12) }

  -- The saved context of `next` runs from here on.
  abbrev pub switch_to : Kernel Disk → (prev next : Ptr) → Kernel Disk
  switch_to k prev next = record k { tp = next }

  -- `get_timer`
  abbrev pub get_timer : Kernel Disk → ℕ
  get_timer k = k.ticks / k.time_base

module _ {Disk : Type 0} (y : Layout) where
  abbrev pub idle_pcb : Kernel Disk → Ptr
  idle_pcb k = if k.cpu == 0 then y.pid0_pcb else y.pid0_pcb2

  -- The task that `find_idle_task` chooses: the first in the ready queue that does not run.
  unfoldable pub choose_task : Kernel Disk → Option Ptr
  choose_task k = if is_queue_empty (links k) y.ready_queue then some (idle_pcb k) else do
    found ←
        find_entry (links k) (λ n. not (is_running (k.pcb_at (pcb_entry n)).status)) list_fuel
          ((links k).next y.ready_queue) y.ready_queue
    elim found [ none ↦ some (idle_pcb k) | some n ↦ some (pcb_entry n) ]

  unfoldable pub do_unblock : Kernel Disk → (pcb_node : Ptr) → Kernel Disk
  do_unblock k pcb_node =
      let k1 = set_links k (list_delete_entry (links k) pcb_node) in
      let k2 = set_status k1 (pcb_entry pcb_node) ready in
      set_links k2 (list_add_tail (links k2) pcb_node y.ready_queue)

  -- The body of the loop of `check_sleeping`.
  unfoldable pub wake_one : Ptr → Kernel Disk → Option (Kernel Disk)
  wake_one n k = some (
      if leb (k.pcb_at (pcb_entry n)).wakeup_time (get_timer k)
      then do_unblock k (pcb_list (pcb_entry n))
      else k)

  unfoldable pub check_sleeping : Kernel Disk → Option (Kernel Disk)
  check_sleeping k = list_for_each_safe links wake_one y.sleep_queue list_fuel k

  -- The body of the loops of `check_net_send` and `check_net_recv`.
  unfoldable pub unblock_one : Ptr → Kernel Disk → Option (Kernel Disk)
  unblock_one n k = some (do_unblock k (pcb_list (pcb_entry n)))

  unfoldable pub check_net_send : Kernel Disk → Option (Kernel Disk)
  check_net_send k =
      if k.tx_done
      then list_for_each_safe links unblock_one y.send_block_queue list_fuel k
      else some k

  unfoldable pub check_net_recv : Kernel Disk → Option (Kernel Disk)
  check_net_recv k =
      if k.rx_done
      then list_for_each_safe links unblock_one y.recv_block_queue list_fuel k
      else some k

  -- The part of `do_scheduler` behind the checks.
  unfoldable pub rotate : Kernel Disk → Kernel Disk
  rotate k =
      let before = k.current_running in
      let k1 = set_status k before ready in
      if (before == y.pid0_pcb) || (before == y.pid0_pcb2)
      then k1
      else set_links k1 (
          list_add_tail (list_delete_entry (links k1) (pcb_list before)) (pcb_list before)
            y.ready_queue)

module _ {Disk : Type 0} (bios : Bios Disk) (y : Layout) where
  unfoldable pub find_idle_task : Kernel Disk → Option (Kernel Disk)
  find_idle_task k = do
    p ← choose_task y k
    let k1 = set_status (record k { current_running = p }) p running
    let k2 : Kernel Disk = record k1 { runnings = upd k1.runnings k1.cpu p }
    m ← swap_in_all_pages bios y k2.mm (k2.pcb_at p).pgdir
    some (record k2 { mm = m })

  -- The end of `do_scheduler` and `do_block`.
  unfoldable pub reschedule : Kernel Disk → (before_running : Ptr) → Option (Kernel Disk)
  reschedule k before_running = do
    k1 ← find_idle_task k
    let k2 = switch_pgdir k1
    some (switch_to k2 before_running k2.current_running)

  unfoldable pub do_block : Kernel Disk → (pcb_node queue : Ptr) → Option (Kernel Disk)
  do_block k pcb_node queue =
      let k1 = set_links k (list_add_tail (list_delete_entry (links k) pcb_node) pcb_node queue) in
      let before_running = pcb_entry pcb_node in
      reschedule (set_status k1 before_running blocked) before_running

  -- `do_sleep`
  unfoldable pub do_sleep : Kernel Disk → (sleep_time : ℕ) → Option (Kernel Disk)
  unfolding do_block
  do_sleep k sleep_time =
      let p = k.current_running in
      let k1 : Kernel Disk = record k {
        pcb_at = upd k.pcb_at p (record (k.pcb_at p) { wakeup_time = get_timer k + sleep_time });
      } in
      do_block k1 (pcb_list p) y.sleep_queue

  unfoldable pub do_scheduler : Kernel Disk → Option (Kernel Disk)
  do_scheduler k = do
    k1 ← check_sleeping y k
    k2 ← check_net_send y k1
    k3 ← check_net_recv y k2
    reschedule (rotate y k3) k3.current_running
