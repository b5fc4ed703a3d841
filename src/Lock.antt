-- ===== src/Lock.antt =====
-- Locks: kernel/locking/lock.c.
pub mod Handover
pub mod Waking
pub mod Barriers
pub mod Conditions
use ucas_os_kernel.Base.{
  ℕ, zero, suc, ◌+◌, ◌%◌, Bool, true, false, Option, none, some, ◌>>=◌, ◌==◌, upd, if◌then◌else◌,
}
use ucas_os_kernel.Base.Int.{ℤ, pos, negsuc, ◌+ℤ◌, ltb_ℤ}
use ucas_os_kernel.Queue.{Ptr, init_list_head, is_queue_empty, list_delete_entry}
use ucas_os_kernel.Layout.{Layout, pcb_list, pcb_entry, list_fuel}
use ucas_os_kernel.Mm.State.{Bios}
use ucas_os_kernel.Kernel.{Mutex, Barrier, Kernel, links, set_links}
use ucas_os_kernel.Sched.{do_unblock, do_block}

-- `LOCK_NUM`, `BARRIER_NUM` and `CONDITION_NUM`
abbrev pub lock_num : ℕ
lock_num = 16

-- `key % LOCK_NUM` as an index: the remainder in C has the sign of the key, and a negative one is
-- no index.
unfoldable pub index_of : ℤ → Option ℕ
index_of (pos n) = some (n % lock_num)
index_of (negsuc n) = if suc n % lock_num == 0 then some 0 else none

-- `atomic_swap(LOCKED, lock)`: whether it was locked, and the lock.
abbrev pub spin_lock_try_acquire : Bool → Bool × Bool
spin_lock_try_acquire locked = (locked, true)

module _ {Disk : Type 0} where
  abbrev pub set_mutex : Kernel Disk → ℕ → Mutex → Kernel Disk
  set_mutex k i m = record k { mlocks = upd k.mlocks i m }

  abbrev pub set_barrier : Kernel Disk → ℕ → Barrier → Kernel Disk
  set_barrier k i b = record k { barriers = upd k.barriers i b }

module _ {Disk : Type 0} (y : Layout) where
  -- The loops of the three functions below, with `n` rounds left from index `i` on.
  unfoldable pub init_locks_from : (n i : ℕ) → Kernel Disk → Kernel Disk
  init_locks_from zero i k = k
  init_locks_from (suc n) i k = init_locks_from n (i + 1) (
      set_mutex (set_links k (init_list_head (links k) (y.block_queue i))) i
        (record (k.mlocks i) { locked = false; pid = 0 }))

  unfoldable pub init_locks : Kernel Disk → Kernel Disk
  init_locks k = init_locks_from lock_num 0 k

  unfoldable pub init_barriers_from : (n i : ℕ) → Kernel Disk → Kernel Disk
  init_barriers_from zero i k = k
  init_barriers_from (suc n) i k = init_barriers_from n (i + 1) (
      set_barrier (set_links k (init_list_head (links k) (y.block_list i))) i
        (record (k.barriers i) { current = pos 0; goal = pos 0 }))

  unfoldable pub init_barriers : Kernel Disk → Kernel Disk
  init_barriers k = init_barriers_from lock_num 0 k

  unfoldable pub init_conditions_from : (n i : ℕ) → Kernel Disk → Kernel Disk
  init_conditions_from zero i k = k
  init_conditions_from (suc n) i k =
      let k1 = set_links k (init_list_head (links k) (y.wait_list i)) in
      init_conditions_from n (i + 1) (record k1 { conditions = upd k1.conditions i (pos 0) })

  unfoldable pub init_conditions : Kernel Disk → Kernel Disk
  init_conditions k = init_conditions_from lock_num 0 k

  unfoldable pub do_mutex_lock_init : Kernel Disk → (key : ℤ) → Option (ℕ × Kernel Disk)
  do_mutex_lock_init k key = do
    i ← index_of key
    some (i, set_mutex k i (record (k.mlocks i) { key = key }))

  -- The lock goes to the task that has waited longest, without ever being free.
  unfoldable pub do_mutex_lock_release : Kernel Disk → (mlock_idx : ℕ) → Kernel Disk
  do_mutex_lock_release k i =
      let n = (links k).next (y.block_queue i) in
      if is_queue_empty (links k) (y.block_queue i)
      then set_mutex k i (record (k.mlocks i) { locked = false; pid = 0 })
      else do_unblock y (set_mutex k i (record (k.mlocks i) { pid = (k.pcb_at (pcb_entry n)).pid }))
          n

  -- `while (!is_queue_empty(head)) do_unblock(head->next)`
  unfoldable pub unblock_all : ℕ → Kernel Disk → (head : Ptr) → Option (Kernel Disk)
  unblock_all zero k head = none
  unblock_all (suc fuel) k head =
      let rest = unblock_all fuel (do_unblock y k ((links k).next head)) head in
      if is_queue_empty (links k) head then some k else rest

  -- `while (!is_queue_empty(head)) list_delete_entry(head->next)`
  unfoldable pub delete_all : ℕ → Kernel Disk → (head : Ptr) → Option (Kernel Disk)
  delete_all zero k head = none
  delete_all (suc fuel) k head =
      let rest =
        delete_all fuel (set_links k (list_delete_entry (links k) ((links k).next head))) head in
      if is_queue_empty (links k) head then some k else rest

  unfoldable pub do_barrier_init : Kernel Disk → (key goal : ℤ) → Option (ℕ × Kernel Disk)
  do_barrier_init k key goal = do
    i ← index_of key
    some (i, set_barrier k i (record (k.barriers i) { key = key; goal = goal }))

  unfoldable pub do_barrier_destroy : Kernel Disk → (bar_idx : ℕ) → Option (Kernel Disk)
  do_barrier_destroy k i =
      delete_all list_fuel
        (set_barrier k i (record (k.barriers i) { current = pos 0; key = pos 0 })) (y.block_list i)

  unfoldable pub do_condition_init : Kernel Disk → (key : ℤ) → Option (ℕ × Kernel Disk)
  do_condition_init k key = do
    i ← index_of key
    some (i, record k { conditions = upd k.conditions i key })

  unfoldable pub do_condition_signal : Kernel Disk → (cond_idx : ℕ) → Kernel Disk
  do_condition_signal k i =
      if is_queue_empty (links k) (y.wait_list i)
      then k
      else do_unblock y k ((links k).next (y.wait_list i))

  unfoldable pub do_condition_broadcast : Kernel Disk → (cond_idx : ℕ) → Option (Kernel Disk)
  do_condition_broadcast k i = unblock_all list_fuel k (y.wait_list i)

  unfoldable pub do_condition_destroy : Kernel Disk → (cond_idx : ℕ) → Option (Kernel Disk)
  do_condition_destroy k i =
      unblock_all list_fuel (record k { conditions = upd k.conditions i (pos 0) }) (y.wait_list i)

module _ {Disk : Type 0} (bios : Bios Disk) (y : Layout) where
  unfoldable pub do_mutex_lock_acquire : Kernel Disk → (mlock_idx : ℕ) → Option (Kernel Disk)
  do_mutex_lock_acquire k i =
      let (was_locked, locked) = spin_lock_try_acquire (k.mlocks i).locked in
      let k1 = set_mutex k i (record (k.mlocks i) { locked = locked }) in
      if was_locked
      then do_block bios y k1 (pcb_list k1.current_running) (y.block_queue i)
      else some (set_mutex k1 i (record (k1.mlocks i) { pid = (k1.pcb_at k1.current_running).pid }))

  unfoldable pub do_barrier_wait : Kernel Disk → (bar_idx : ℕ) → Option (Kernel Disk)
  do_barrier_wait k i =
      let count = (k.barriers i).current +ℤ pos 1 in
      let k1 = set_barrier k i (record (k.barriers i) { current = count }) in
      let last = unblock_all y list_fuel k1 (y.block_list i) in
      if ltb_ℤ count (k1.barriers i).goal
      then do_block bios y k1 (pcb_list k1.current_running) (y.block_list i)
      else do k2 ← last; some (set_barrier k2 i (record (k2.barriers i) { current = pos 0 }))

  -- `do_condition_wait` up to where it blocks: the task gives up the mutex and waits. When it runs
  -- again it goes on with `do_mutex_lock_acquire` of the mutex.
  unfoldable pub do_condition_wait_block :
      Kernel Disk → (cond_idx mutex_idx : ℕ) → Option (Kernel Disk)
  do_condition_wait_block k i j =
      let k1 = do_mutex_lock_release y k j in
      do_block bios y k1 (pcb_list k1.current_running) (y.wait_list i)
