-- ===== src/Tests/Samples.antt =====
-- A small machine: two tasks, ready to run, of which the first runs on processor 0; one present page
-- and one swapped page; the list heads lie from address 1000 to 3999, and
-- at 5048, for those that wait for the first task.
use ucas_os_kernel.Base.{
  ℕ, suc, ◌+◌, ◌*◌, ◌≤◌, ◌<◌, ◌≡◌, refl, ◌≢◌, Bool, true, false, ◌&&◌, ◌||◌, ltb, leb, ◌==◌, List,
  [], ◌∷◌, arith, if◌then◌else◌,
}
use ucas_os_kernel.Base.Int.{pos}
use ucas_os_kernel.Queue.{Ptr, Links, list_add_tail}
use ucas_os_kernel.Queue.Rep.{View, Rep, appended, add_tail-Rep}
use ucas_os_kernel.Layout.{Layout}
use ucas_os_kernel.Mm.State.{Page, Mm, Bios, Mem}
use ucas_os_kernel.Mm.Swap.Lists.{IsPaged}
use ucas_os_kernel.Kernel.{running, ready, Pcb, Kernel}
use ucas_os_kernel.Sched.System.{TaskQueue, IsSystem}

-- A card that keeps nothing: reads fill no memory.
abbrev pub sample_bios : Bios ℕ
sample_bios = record { sdread = λ d pa n sector mem. mem; sdwrite = λ mem pa n sector d. suc d }

abbrev pub sample_layout : Layout
sample_layout = record {
  ready_queue = 1000;
  sleep_queue = 1016;
  present_pages_queue = 1032;
  swapped_pages_queue = 1048;
  send_block_queue = 1064;
  recv_block_queue = 1080;
  block_queue = λ i. 1100 + 16 * i;
  block_list = λ i. 1400 + 16 * i;
  wait_list = λ i. 1700 + 16 * i;
  send_list = λ i. 2000 + 16 * i;
  recv_list = λ i. 2300 + 16 * i;
  pid0_pcb = 4000;
  pid0_pcb2 = 4200;
  pcb = 5000;
  pages = 9000;
}

abbrev pub sample_head : Ptr → Bool
sample_head p = (leb 1000 p && ltb p 4000) || p == 5048

abbrev no_links : Links
no_links = record { next = λ p. p; prev = λ p. p }

abbrev no_view : View
no_view h = []

no_links-Rep : Rep sample_head no_links no_view
no_links-Rep = record {
  chain = λ h e. (refl, refl);
  no_dup = λ h e. refl;
  no_head = λ h k e f. refl;
  apart = λ h k n e f i j. ground (arith, i);
}

abbrev pub first_task : Ptr
first_task = 5032

abbrev pub second_task : Ptr
second_task = 5168

abbrev present_page : Ptr
present_page = 9024

abbrev swapped_page : Ptr
swapped_page = 9072

abbrev pub sample_links : Links
sample_links =
    list_add_tail
      (list_add_tail (list_add_tail (list_add_tail no_links 5032 1000) 5168 1000) 9024 1032) 9072
      1048

abbrev pub sample_view : View
sample_view =
    appended (appended (appended (appended no_view 5032 1000) 5168 1000) 9024 1032) 9072 1048

pub sample-Rep : Rep sample_head sample_links sample_view
sample-Rep =
    add_tail-Rep
      (add_tail-Rep
        (add_tail-Rep (add_tail-Rep no_links-Rep 5032 1000 refl (refl, λ h e. refl)) 5168 1000 refl
          (refl, λ h e. ground arith))
        9024 1032 refl (refl, λ h e. ground arith))
      9072 1048 refl (refl, λ h e. ground arith)

abbrev pub sample_base : ℕ
sample_base = 0xffffffc052000000

-- The page table of both tasks: one user page, at 0x10000.
abbrev pub sample_mem : Mem
sample_mem a =
    if a == sample_base
    then 0x14800401
    else if a == sample_base + 4096
    then 0x14800801
    else if a == sample_base + 8192 + 128
    then 0x14800c1f
    else 0

abbrev sample_page : Ptr → Page
sample_page p =
    if p == 9000
    then record {
      uva = 0x10000;
      kva = sample_base + 12288;
      pgdir = sample_base;
      page_id = 1;
      sector_id = 0;
    }
    else if p == 9048
    then record { uva = 0x20000; kva = 0; pgdir = sample_base; page_id = 2; sector_id = 40 }
    else record { uva = 0; kva = 0; pgdir = 0; page_id = 0; sector_id = 0 }

abbrev pub sample_mm : Mm ℕ
sample_mm = record {
  mem = sample_mem;
  freemem_list = sample_base + 16384;
  links = sample_links;
  page_at = sample_page;
  page_id = 2;
  present_pages_num = pos 1;
  share_pages = λ i. record { kva = 0; ref = 0; key = pos 0 };
  disk = 0;
  disk_sectors_startid = 100;
}

abbrev sample_pcb : Ptr → Pcb
sample_pcb p = record {
  kernel_sp = 0;
  user_sp = 0;
  trapframe = 0;
  switchto_context = 0;
  pgdir = sample_base;
  pid = if p == 5000 then 1 else 2;
  tid = 0;
  status = if p == 5000 then running else ready;
  wakeup_time = 0;
  cwd_inum = 0;
  name = [];
}

abbrev pub sample_kernel : Kernel ℕ
sample_kernel = record {
  mm = sample_mm;
  pcb_at = sample_pcb;
  threads = λ i. 0;
  process_id = 3;
  current_running = 5000;
  runnings = λ c. 5000;
  satp = 0;
  tp = 5000;
  mlocks = λ i. record { locked = false; key = pos 0; pid = 0 };
  barriers = λ i. record { current = pos 0; goal = pos 2; key = pos 0 };
  conditions = λ i. pos 0;
  mailboxes = λ i. record {
    name = [];
    buf = [];
    mutex_id = pos 0;
    ref = pos 0;
    nread = 0;
    nwrite = 0;
    round_read = 0;
    round_write = 0;
  };
  cpu = 0;
  ticks = 50;
  time_base = 10;
  tx_done = true;
  rx_done = false;
}

pub sample-IsPaged : IsPaged sample_layout sample_head sample_mm sample_view
sample-IsPaged = record {
  rep = sample-Rep;
  present_head = refl;
  swapped_head = refl;
  two = ground arith;
  present_nodes = λ n h. ground (arith, h);
  swapped_nodes = λ n h. ground (arith, h);
  count = refl;
}

abbrev pub sample_nodes : List Ptr
sample_nodes = 5032 ∷ 5168 ∷ 9024 ∷ 9072 ∷ []

-- Every list head lies within the bounds.
pub task_queue :
    (h : Ptr) → sample_head h ≡ true → h ≢ 1032 → h ≢ 1048 → TaskQueue sample_layout sample_head h
task_queue h e n m = record { head = e; not_present = n; not_swapped = m }

pub ready-TaskQueue : TaskQueue sample_layout sample_head 1000
ready-TaskQueue = task_queue 1000 refl (ground arith) (ground arith)

pub sleep-TaskQueue : TaskQueue sample_layout sample_head 1016
sleep-TaskQueue = task_queue 1016 refl (ground arith) (ground arith)

pub send-TaskQueue : TaskQueue sample_layout sample_head 1064
send-TaskQueue = task_queue 1064 refl (ground arith) (ground arith)

pub recv-TaskQueue : TaskQueue sample_layout sample_head 1080
recv-TaskQueue = task_queue 1080 refl (ground arith) (ground arith)

-- The queue of any lock, barrier, condition or mailbox of the first few.
pub low-TaskQueue : (h : Ptr) → 1100 ≤ h → h < 4000 → TaskQueue sample_layout sample_head h
low-TaskQueue h a b = task_queue h (ground arith) (ground arith) (ground arith)

pub sample-IsSystem : IsSystem sample_layout sample_head sample_nodes sample_mm sample_view
sample-IsSystem = record {
  paged = sample-IsPaged;
  ready = ready-TaskQueue;
  tasks = λ h n t i. ground (arith, i, t.not_present, t.not_swapped);
  known = λ h n e i. ground (arith, i);
  few = omega arith;
  room = omega arith;
}
