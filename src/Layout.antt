-- ===== src/Layout.antt =====
-- Where the linker puts the kernel's objects, and what lies at fixed offsets inside them
-- (include/os/sched.h, include/os/mm.h, include/os/lock.h, include/os/list.h). Every address that
-- the code takes of a global is a field here; the model holds for any such layout.
use ucas_os_kernel.Base.{ℕ, ◌+◌, ◌-◌, ◌*◌}
use ucas_os_kernel.Queue.{Ptr}

pub record Layout : Type 0 where
  pub ready_queue : Ptr
  pub sleep_queue : Ptr
  pub present_pages_queue : Ptr
  pub swapped_pages_queue : Ptr
  pub send_block_queue : Ptr
  pub recv_block_queue : Ptr
  -- `&mlocks[i].block_queue`, `&barriers[i].block_list`, `&conditions[i].wait_list`
  pub block_queue : ℕ → Ptr
  pub block_list : ℕ → Ptr
  pub wait_list : ℕ → Ptr
  -- `&mailboxes[i].send_list`, `&mailboxes[i].recv_list`
  pub send_list : ℕ → Ptr
  pub recv_list : ℕ → Ptr
  pub pid0_pcb : Ptr
  pub pid0_pcb2 : Ptr
  -- the arrays `pcb` and `pages`
  pub pcb : Ptr
  pub pages : Ptr

abbrev pub num_max_task : ℕ
num_max_task = 16

-- `sizeof(pcb_t)`: 16 words and the name
abbrev pub pcb_size : ℕ
pcb_size = 136

-- `&pcb[i]`
abbrev pub pcb_ptr : Layout → ℕ → Ptr
pcb_ptr y i = y.pcb + pcb_size * i

-- `&p->list` and `&p->wait_list` of a `pcb_t`, and `list_entry(n, pcb_t)`
abbrev pub pcb_list : Ptr → Ptr
pcb_list p = p + 32

abbrev pub pcb_wait_list : Ptr → Ptr
pcb_wait_list p = p + 48

abbrev pub pcb_entry : Ptr → Ptr
pcb_entry n = n - 32

abbrev pub page_t_size : ℕ
page_t_size = 48

abbrev pub page_ptr : Layout → ℕ → Ptr
page_ptr y i = y.pages + page_t_size * i

-- `&page->list` of a `page_t`, and `list_entry(n, page_t)`
abbrev pub page_list : Ptr → Ptr
page_list p = p + 24

abbrev pub page_entry : Ptr → Ptr
page_entry n = n - 24

-- Fuel for a loop over a list: more than the 16 tasks, 2 idle tasks and 512 pages there are.
abbrev pub list_fuel : ℕ
list_fuel = 600
