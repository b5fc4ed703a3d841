-- ===== src/Process.antt =====
-- Processes and threads, the second half of kernel/sched/sched.c: threads and the end of processes;
-- Start has how processes start.
pub mod Release
pub mod Exit
pub mod Start
pub mod Exec
use ucas_os_kernel.Base.{
  ℕ, zero, suc, ◌+◌, ◌-◌, ◌*◌, ◌^◌, Bool, true, false, Option, none, some, ◌>>=◌, ◌==◌, ◌&&◌, upd,
  bit_or, find_index, if◌then◌else◌,
}
use ucas_os_kernel.Queue.{Ptr, init_list_head, list_add_tail, list_delete_entry, list_for_each_safe}
use ucas_os_kernel.Layout.{
  Layout, num_max_task, pcb_ptr, pcb_list, pcb_wait_list, pcb_entry, list_fuel,
}
use ucas_os_kernel.Mm.Pgtable.{page_size, page_exec, unset_attribute}
use ucas_os_kernel.Mm.State.{Mm, Mem, Bios}
use ucas_os_kernel.Mm.Kalloc.{kalloc}
use ucas_os_kernel.Mm.Table.{get_pte_of_uva}
use ucas_os_kernel.Mm.Swap.{alloc_page_helper, free_page_with_kva}
use ucas_os_kernel.Mm.Teardown.{free_pagetable, free_pgdir}
use ucas_os_kernel.Kernel.{
  TaskStatus, ready, exited, Pcb, Kernel, links, set_links, set_pcb, set_status,
}
use ucas_os_kernel.Strings.{strcpy}
use ucas_os_kernel.Sched.{switch_pgdir, switch_to, find_idle_task, do_block}
use ucas_os_kernel.Lock.{lock_num, do_mutex_lock_release, unblock_all}

module _ {Disk : Type 0} where
  abbrev pub with_mm : Kernel Disk → Mm Disk → Kernel Disk
  with_mm k m = record k { mm = m }

  abbrev pub clear_pid : Kernel Disk → Ptr → Kernel Disk
  clear_pid k p = set_pcb k p (record (k.pcb_at p) { pid = 0 })

  -- `do_getpid`
  abbrev pub do_getpid : Kernel Disk → ℕ
  do_getpid k = (k.pcb_at (k.runnings k.cpu)).pid

module _ {Disk : Type 0} (y : Layout) where
  -- The first task block with a process id, `none` for `NULL`; an unused block has the id 0.
  unfoldable pub find_pcb : Kernel Disk → (pid : ℕ) → Option Ptr
  find_pcb k pid = do
    i ← find_index num_max_task 0 (λ i. (k.pcb_at (pcb_ptr y i)).pid == pid)
    some (pcb_ptr y i)

  -- The loop of `release_pcb` over the locks.
  unfoldable pub release_locks : (n i : ℕ) → (pid : ℕ) → Kernel Disk → Kernel Disk
  release_locks zero i pid k = k
  release_locks (suc n) i pid k =
      release_locks n (i + 1) pid
        (if (k.mlocks i).pid == pid then do_mutex_lock_release y k i else k)

  unfoldable pub release_pcb : Kernel Disk → Ptr → Option (Kernel Disk)
  release_pcb k p =
      let pid = (k.pcb_at p).pid in
      let k1 : Kernel Disk = record (set_status k p exited) {
        threads = upd k.threads pid (k.threads pid - 1);
      } in
      let k2 = set_links k1 (list_delete_entry (links k1) (pcb_list p)) in
      unblock_all y list_fuel (release_locks lock_num 0 pid k2) (pcb_wait_list p)

  -- The end of a thread that is not the last of its process: its stack page.
  unfoldable pub free_stack : Kernel Disk → Ptr → Option (Kernel Disk)
  free_stack k p = do
    m ← free_page_with_kva y k.mm ((k.pcb_at p).user_sp - page_size)
    some (with_mm k m)

  -- The result, and the state.
  unfoldable pub do_kill : Kernel Disk → (pid : ℕ) → Option (ℕ × Kernel Disk)
  do_kill k pid = elim (find_pcb k pid) [
    | none ↦ some (0, k)
    | some p ↦ do
      k1 ← release_pcb k p
      let last =
          (free_pagetable y (k1.pcb_at p).pgdir k1.mm >>= λ m.
          some (with_mm k1 (free_pgdir y (k1.pcb_at p).pgdir m)))
      let other = free_stack k1 p
      k2 ← if k1.threads (k1.pcb_at p).pid == 0 then last else other
      some (1, clear_pid k2 p)
  ]

module _ {Disk : Type 0} (bios : Bios Disk) (y : Layout) where
  unfoldable pub do_exit : Kernel Disk → Option (Kernel Disk)
  do_exit k = do
    let p = k.current_running
    k1 ← release_pcb y k p
    let last = (do
      m ← free_pagetable y (k1.pcb_at p).pgdir k1.mm
      k2 ← find_idle_task bios y (with_mm k1 m)
      let k3 = switch_pgdir k2
      some (with_mm k3 (free_pgdir y (k3.pcb_at p).pgdir k3.mm)))
    let other = free_stack y k1 p
    k4 ← if k1.threads (k1.pcb_at p).pid == 0 then last else other
    let k5 = clear_pid k4 p
    some (switch_to k5 p k5.current_running)

  -- `do_waitpid` up to where it blocks; `false` is that there is no such process and it returns 0.
  unfoldable pub do_waitpid : Kernel Disk → (pid : ℕ) → Option (Bool × Kernel Disk)
  do_waitpid k pid = elim (find_pcb y k pid) [
    | none ↦ some (false, k)
    | some p ↦ do
      k1 ← do_block bios y k (pcb_list k.current_running) (pcb_wait_list p)
      some (true, k1)
  ]

abbrev pub user_va_sp_base : ℕ
user_va_sp_base = 0xf0000f000

abbrev pub user_va_sp : ℕ
user_va_sp = 0xf00010000

abbrev pub user_va_start : ℕ
user_va_start = 0x10000

-- `sstatus` without SR_SPP (bit 8) and with SR_SPIE (bit 5) and SR_SUM (bit 18).
abbrev pub user_sstatus : ℕ → ℕ
user_sstatus s = bit_or (bit_or (unset_attribute s 0x100) 0x20) 0x40000

-- The offsets of `regs[i]`, `sstatus` and `sepc` in a `regs_context_t`, and the sizes of both contexts.
abbrev pub reg_at : Ptr → ℕ → Ptr
reg_at pt_regs i = pt_regs + 8 * i

abbrev pub sstatus_at : Ptr → Ptr
sstatus_at pt_regs = pt_regs + 256

abbrev pub sepc_at : Ptr → Ptr
sepc_at pt_regs = pt_regs + 264

abbrev pub regs_context_size : ℕ
regs_context_size = 288

abbrev pub switchto_context_size : ℕ
switchto_context_size = 112

-- What `init_pcb_context` and `do_thread_create` write on the new kernel stack; `ret` is the address of
-- `ret_from_kernel`.
abbrev pub write_contexts : Mem → (pt_regs sp tp sepc ret : ℕ) → Mem
write_contexts mem pt_regs sp tp sepc ret =
    let pt_switchto = pt_regs - switchto_context_size in
    let m1 =
      upd (upd (upd mem (reg_at pt_regs 2) sp) (reg_at pt_regs 4) tp) (sepc_at pt_regs) sepc in
    let m2 = upd m1 (sstatus_at pt_regs) (user_sstatus (m1 (sstatus_at pt_regs))) in
    upd (upd m2 pt_switchto ret) (pt_switchto + 8) pt_regs

module _ {Disk : Type 0} (bios : Bios Disk) (y : Layout) (ret : ℕ) where
  -- The stacks and the contexts of the task at `p`, whose user stack page is at `stack`, whose stack
  -- pointer starts at `sp` and which starts at `sepc`. `none` if no page can be had.
  unfoldable pub init_pcb_context :
      Kernel Disk → (p : Ptr) → (stack sp sepc : ℕ) → Option (Kernel Disk)
  init_pcb_context k p stack sp sepc = do
    let (page, m1) = kalloc k.mm
    let pgdir = (k.pcb_at p).pgdir
    (user_page, m2) ← alloc_page_helper bios y m1 stack pgdir
    pte ← get_pte_of_uva m2.mem stack pgdir
    let m3 : Mm Disk = record m2 { mem = upd m2.mem pte (unset_attribute (m2.mem pte) page_exec) }
    let pt_regs = page + page_size - regs_context_size
    let m4 : Mm Disk = record m3 { mem = write_contexts m3.mem pt_regs sp p sepc ret }
    some (record (with_mm k m4) {
      pcb_at = upd k.pcb_at p (record (k.pcb_at p) {
        kernel_sp = pt_regs;
        user_sp = user_page + page_size;
        trapframe = pt_regs;
        switchto_context = pt_regs - switchto_context_size;
      });
    })

  -- The thread's id, 0 if no task block is unused.
  unfoldable pub do_thread_create : Kernel Disk → (start_routine arg : ℕ) → Option (ℕ × Kernel Disk)
  do_thread_create k start_routine arg = elim (find_pcb y k 0) [
    | none ↦ some (0, k)
    | some p ↦ do
      let main_thread = k.pcb_at k.current_running
      let tid = k.threads main_thread.pid + 1
      copy ← strcpy (k.pcb_at p).name main_thread.name
      let l = list_add_tail (links k) (pcb_list p) y.ready_queue
      let k1 : Kernel Disk = record (set_links k (init_list_head l (pcb_wait_list p))) {
        threads = upd k.threads main_thread.pid tid;
        pcb_at = upd k.pcb_at p (record (k.pcb_at p) {
          pid = main_thread.pid;
          tid = tid;
          status = ready;
          name = copy;
          pgdir = main_thread.pgdir;
        });
      }
      let stack = user_va_sp_base + (tid - 1) * page_size
      k2 ← init_pcb_context k1 p stack (stack + page_size) start_routine
      let m = k2.mm
      some (tid, with_mm k2 (record m { mem = upd m.mem (reg_at (k2.pcb_at p).trapframe 10) arg }))
  ]
