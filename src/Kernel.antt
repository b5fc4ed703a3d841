-- ===== src/Kernel.antt =====
-- The state of the kernel outside memory management: include/os/sched.h, include/os/lock.h,
-- include/os/time.h, and the globals of kernel/sched, kernel/locking and kernel/smp.
use ucas_os_kernel.Base.{ℕ, Bool, true, false, List, upd}
use ucas_os_kernel.Base.Int.{ℤ}
use ucas_os_kernel.Queue.{Ptr, Links}
use ucas_os_kernel.Mm.State.{Mm}

-- `task_status_t`
pub data TaskStatus : Type 0 where
  blocked running ready exited : TaskStatus

abbrev pub is_running : TaskStatus → Bool
is_running TaskStatus.blocked = false
is_running TaskStatus.running = true
is_running TaskStatus.ready = false
is_running TaskStatus.exited = false

-- `pcb_t` less its list nodes and the cursor. The name is its 16 bytes.
pub record Pcb : Type 0 where
  pub kernel_sp : ℕ
  pub user_sp : ℕ
  pub trapframe : Ptr
  pub switchto_context : Ptr
  pub pgdir : Ptr
  pub pid : ℕ
  pub tid : ℕ
  pub status : TaskStatus
  pub wakeup_time : ℕ
  pub cwd_inum : ℕ
  pub name : List ℕ

-- `mutex_lock_t` less its list head; `locked` is its spin lock.
pub record Mutex : Type 0 where
  pub locked : Bool
  pub key : ℤ
  pub pid : ℕ

-- `barrier_t` less its list head.
pub record Barrier : Type 0 where
  pub current : ℤ
  pub goal : ℤ
  pub key : ℤ

-- `condition_t` less its list head is its key. `mailbox_t` less its list heads.
pub record Mailbox : Type 0 where
  pub name : List ℕ
  pub buf : List ℕ
  pub mutex_id : ℤ
  pub ref : ℤ
  pub nread : ℕ
  pub nwrite : ℕ
  pub round_read : ℕ
  pub round_write : ℕ

-- The last fields are the environment at the time of a call: the processor that runs
-- (`get_current_cpu_id`), the clock that `rdtime` reads, and what the network card reports.
pub record Kernel (Disk : Type 0) : Type 0 where
  pub mm : Mm Disk
  pub pcb_at : Ptr → Pcb
  pub threads : ℕ → ℕ
  pub process_id : ℕ
  pub current_running : Ptr
  pub runnings : ℕ → Ptr
  pub satp : ℕ
  -- the task whose saved context the processor runs, as `switch_to` leaves it in `tp`
  pub tp : Ptr
  pub mlocks : ℕ → Mutex
  pub barriers : ℕ → Barrier
  pub conditions : ℕ → ℤ
  pub mailboxes : ℕ → Mailbox
  pub cpu : ℕ
  pub ticks : ℕ
  pub time_base : ℕ
  pub tx_done : Bool
  pub rx_done : Bool

module _ {Disk : Type 0} where
  abbrev pub links : Kernel Disk → Links
  links k = k.mm.links

  abbrev pub set_links : Kernel Disk → Links → Kernel Disk
  set_links k l = record k { mm = record (k.mm) { links = l } }

  abbrev pub set_pcb : Kernel Disk → Ptr → Pcb → Kernel Disk
  set_pcb k p c = record k { pcb_at = upd k.pcb_at p c }

  abbrev pub set_status : Kernel Disk → Ptr → TaskStatus → Kernel Disk
  set_status k p s = set_pcb k p (record (k.pcb_at p) { status = s })
