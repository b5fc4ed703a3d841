-- ===== src/Process/Start.antt =====
-- The start of processes in kernel/sched/sched.c: `create_pcb`, `do_exec`; `do_thread_join` and
-- `do_process_show`.
use ucas_os_kernel.Base.{
  ℕ, zero, suc, ◌+◌, ◌-◌, ◌*◌, ◌/◌, ◌%◌, ◌^◌, Bool, true, false, Option, none, some, ◌>>=◌, List,
  [], ◌∷◌, ◌==◌, ◌&&◌, upd, if◌then◌else◌,
}
use ucas_os_kernel.Base.Int.{pos, negsuc}
use ucas_os_kernel.Strings.{Bytes, strlen, strcmp, strcpy}
use ucas_os_kernel.Queue.{Ptr, init_list_head, list_add_tail, find_entry}
use ucas_os_kernel.Layout.{
  Layout, num_max_task, pcb_ptr, pcb_list, pcb_wait_list, pcb_entry, list_fuel,
}
use ucas_os_kernel.Mm.State.{Mm, Mem, Bios}
use ucas_os_kernel.Mm.Kalloc.{kalloc}
use ucas_os_kernel.Mm.Table.{share_pgtable}
use ucas_os_kernel.Kernel.{TaskStatus, ready, Kernel, links}
use ucas_os_kernel.Sched.{do_block}
use ucas_os_kernel.Loader.{TaskInfo, load_task_img}
use ucas_os_kernel.Process.{
  with_mm, find_pcb, init_pcb_context, user_va_sp_base, user_va_sp, user_va_start, reg_at,
}

abbrev pub pgdir_va : ℕ
pgdir_va = 0xffffffc051000000

-- The search of `create_pcb` for the name: all 16 places, filled or not.
unfoldable pub find_program :
    (tasks : ℕ → TaskInfo) → (n i : ℕ) → (name : Bytes) → Option (Option ℕ)
find_program tasks zero i name = some none
find_program tasks (suc n) i name =
    let rest = find_program tasks n (i + 1) name in
    (strcmp name (tasks i).name >>= λ d. (elim d [
      | pos m ↦ if m == 0 then some (some i) else rest
      | negsuc m ↦ rest
    ]))

-- A byte stored in memory that is read by words.
unfoldable pub store_byte : Mem → (a c : ℕ) → Mem
store_byte mem a c =
    let w = a - a % 8 in
    let below = 256 ^ (a % 8) in
    upd mem w (mem w % below + below * (c % 256 + 256 * (mem w / (256 * below))))

unfoldable pub store_bytes : Mem → (a n : ℕ) → Bytes → Option Mem
store_bytes mem a zero cs = some mem
store_bytes mem a (suc n) [] = none
store_bytes mem a (suc n) (c ∷ cs) = store_bytes (store_byte mem a c) (a + 1) n cs

-- The loop over the arguments: `kva` and `uva` are the stack pointers, `slot` the place of the next
-- pointer. It gives the last pointers and `slot`.
unfoldable pub push_args :
    (n : ℕ) → (argv : List Bytes) → (slot kva uva : ℕ) → Mem → Option (ℕ × ℕ × Mem)
push_args zero argv slot kva uva mem = some (slot, uva, mem)
push_args (suc n) [] slot kva uva mem = none
push_args (suc n) (arg ∷ argv) slot kva uva mem = strlen arg >>= λ l.
    store_bytes (upd mem slot (uva - (l + 1))) (kva - (l + 1)) (l + 1) arg >>= λ mem1.
    push_args n argv (slot + 8) (kva - (l + 1)) (uva - (l + 1)) mem1

module _ {Disk : Type 0} where
  -- The lines of `do_process_show`: index, name, process id and status.
  unfoldable pub do_process_show :
      (y : Layout) → (n i : ℕ) → Kernel Disk → List (ℕ × Bytes × ℕ × TaskStatus)
  do_process_show y zero i k = []
  do_process_show y (suc n) i k =
      let rest = do_process_show y n (i + 1) k in
      let p = k.pcb_at (pcb_ptr y i) in
      if p.pid == 0 then rest else (i, p.name, p.pid, p.status) ∷ rest

module _ {Disk : Type 0} (bios : Bios Disk) (y : Layout) where
  -- `do_thread_join` up to where it blocks; `false` is that the thread is not in the ready queue, and
  -- it returns at once.
  unfoldable pub do_thread_join : Kernel Disk → (thread : ℕ) → Option (Bool × Kernel Disk)
  do_thread_join k thread = do
    let me = k.pcb_at k.current_running
    found ←
        find_entry (links k)
          (λ n. (k.pcb_at (pcb_entry n)).pid == me.pid && (k.pcb_at (pcb_entry n)).tid == thread)
          list_fuel ((links k).next y.ready_queue) y.ready_queue
    elim found [
      | none ↦ some (false, k)
      | some n ↦ do
        k1 ← do_block bios y k (pcb_list k.current_running) (pcb_wait_list (pcb_entry n))
        some (true, k1)
    ]

module _ {Disk : Type 0} (bios : Bios Disk) (y : Layout) (ret : ℕ) (tasks : ℕ → TaskInfo)
    (tasks_num kernel_sectors_num : ℕ) where
  -- What `create_pcb` does with the task block `p` and program `i`.
  unfoldable pub start_program :
      Kernel Disk → (p : Ptr) → (i : ℕ) → (name : Bytes) → Option (Kernel Disk)
  start_program k p i name = do
    let pid = k.process_id
    let tid = k.threads pid + 1
    copy ← strcpy (k.pcb_at p).name name
    let l = init_list_head (list_add_tail (links k) (pcb_list p) y.ready_queue) (pcb_wait_list p)
    let m : Mm Disk = record (k.mm) { links = l }
    let (pgdir, m1) = kalloc m
    (loaded, m2) ← load_task_img bios y tasks tasks_num kernel_sectors_num (tasks i).name pgdir m1
    passed ← if loaded == 1 then some loaded else none
    let k1 : Kernel Disk = record (with_mm k (share_pgtable m2 pgdir pgdir_va)) {
      process_id = pid + 1;
      threads = upd k.threads pid tid;
      pcb_at = upd k.pcb_at p (record (k.pcb_at p) {
        pid = pid;
        tid = tid;
        status = ready;
        name = copy;
        pgdir = pgdir;
      });
    }
    init_pcb_context bios y ret k1 p user_va_sp_base user_va_sp user_va_start

  -- The inner `none` is `NULL`.
  unfoldable pub create_pcb : Kernel Disk → (name : Bytes) → Option (Option Ptr × Kernel Disk)
  create_pcb k name = elim (find_pcb y k 0) [
    | none ↦ some (none, k)
    | some p ↦ do
      found ← find_program tasks num_max_task 0 name
      elim found [
        | none ↦ some (none, k)
        | some i ↦ do k1 ← start_program k p i name; some (some p, k1)
      ]
  ]

  unfoldable pub do_exec :
      Kernel Disk → (name : Bytes) → (argc : ℕ) → (argv : List Bytes) → Option (ℕ × Kernel Disk)
  do_exec k name argc argv = do
    (created, k1) ← create_pcb k name
    elim created [
      | none ↦ some (0, k1)
      | some p ↦ do
        let task = k1.pcb_at p
        let kernel_argv_base = task.user_sp - (argc + 1) * 8
        let user_argv_base = user_va_sp - (argc + 1) * 8
        (slot, user_sp_uva, mem) ←
            push_args argc argv kernel_argv_base kernel_argv_base user_argv_base k1.mm.mem
        let mem1 = upd mem slot 0
        let sp = user_sp_uva / 128 * 128
        let trapframe = task.kernel_sp
        let mem2 =
            upd (upd (upd mem1 (reg_at trapframe 2) sp) (reg_at trapframe 10) argc)
              (reg_at trapframe 11) user_argv_base
        let m = k1.mm
        some (
          task.pid,
          record (with_mm k1 (record m { mem = mem2 })) {
            pcb_at =
                upd k1.pcb_at p
                  (record task { cwd_inum = (k1.pcb_at k1.current_running).cwd_inum });
          },
        )
    ]
