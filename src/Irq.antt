-- ===== src/Irq.antt =====
-- Entry into the kernel: kernel/irq/irq.c.
use ucas_os_kernel.Base.{ℕ, ◌*◌, ◌/◌, ◌%◌, ◌^◌, Option, some, ◌>>=◌, ◌==◌, leb, upd, if◌then◌else◌}
use ucas_os_kernel.Base.Int.{pos, ltb_ℤ}
use ucas_os_kernel.Layout.{Layout, page_entry}
use ucas_os_kernel.Mm.Pgtable.{page_accessed, page_dirty, set_attribute}
use ucas_os_kernel.Mm.State.{Mm, Bios}
use ucas_os_kernel.Mm.Table.{get_pte_of_uva, get_kva_of_uva}
use ucas_os_kernel.Mm.Swap.{
  max_present_pfn, find_page_with_uva, swap_out, swap_in, alloc_page_helper,
}
use ucas_os_kernel.Kernel.{Kernel}
use ucas_os_kernel.Sched.{do_scheduler}

-- The handlers that the two tables hold.
pub data Handler : Type 0 where
  to_syscall to_page_fault to_irq_timer to_other : Handler

abbrev pub excc_syscall : ℕ
excc_syscall = 8

abbrev pub excc_inst_page_fault : ℕ
excc_inst_page_fault = 12

abbrev pub excc_load_page_fault : ℕ
excc_load_page_fault = 13

abbrev pub excc_store_page_fault : ℕ
excc_store_page_fault = 15

abbrev pub irqc_s_timer : ℕ
irqc_s_timer = 5

-- The tables as `init_exception` leaves them.
abbrev pub exc_table : ℕ → Handler
exc_table code =
    if code == excc_syscall
    then to_syscall
    else if code == excc_inst_page_fault
    then to_page_fault
    else if code == excc_load_page_fault
    then to_page_fault
    else if code == excc_store_page_fault
    then to_page_fault
    else to_other

abbrev pub irq_table : ℕ → Handler
irq_table code = if code == irqc_s_timer then to_irq_timer else to_other

module _ {Disk : Type 0} where
  -- Up to the call of the handler, whose code is the cause without the interrupt bit.
  unfoldable pub interrupt_helper : Kernel Disk → (scause : ℕ) → Handler × ℕ × Kernel Disk
  interrupt_helper k scause =
      let k1 : Kernel Disk = record k { current_running = k.runnings k.cpu } in
      if leb (2 ^ 63) scause
      then (irq_table (scause % 2 ^ 63), scause % 2 ^ 63, k1)
      else (exc_table scause, scause, k1)

module _ {Disk : Type 0} (bios : Bios Disk) (y : Layout) where
  -- The page of the address comes back, or is new. `none` is an assertion that fails, or a mapped
  -- page that is not among the swapped ones.
  unfoldable pub bring_in : Mm Disk → (fault_addr_uva pgdir : ℕ) → Option (Mm Disk)
  bring_in m uva pgdir =
      let fresh = (alloc_page_helper bios y m uva pgdir >>= λ r. some r.1) in
      let back = do
        found ← find_page_with_uva m uva pgdir y.swapped_pages_queue
        n ← found
        m1 ← if ltb_ℤ m.present_pages_num (pos max_present_pfn) then some m else swap_out bios y m
        some (swap_in bios y m1 (page_entry n))
      in if get_kva_of_uva m.mem uva pgdir == 0 then fresh else back

  unfoldable pub page_fault : Mm Disk → (pgdir stval scause : ℕ) → Option (Mm Disk)
  page_fault m pgdir stval scause = do
    let uva = stval / 2 ^ 12 * 2 ^ 12
    m1 ← bring_in m uva pgdir
    pte ← get_pte_of_uva m1.mem uva pgdir
    let e = set_attribute (m1.mem pte) page_accessed
    let dirty = if scause == excc_store_page_fault then set_attribute e page_dirty else e
    some (record m1 { mem = upd m1.mem pte dirty })

  -- The timer is set again, which is the device's part.
  unfoldable pub irq_timer : Kernel Disk → Option (Kernel Disk)
  irq_timer k = do_scheduler bios y k
