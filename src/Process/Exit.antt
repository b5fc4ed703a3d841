-- ===== src/Process/Exit.antt =====
-- The end of a thread that is not the last of its process.
use ucas_os_kernel.Base.{◌-◌, ◌≤◌, ◌≡◌, refl, ◌≢◌, Bool, true, false, some, arith, ◌==◌, List, has}
use ucas_os_kernel.Queue.{Ptr}
use ucas_os_kernel.Queue.Rep.{View}
use ucas_os_kernel.Queue.Iterate.{find, find_entry-Chain}
use ucas_os_kernel.Layout.{Layout, pcb_list, pcb_wait_list, page_entry, list_fuel}
use ucas_os_kernel.Mm.State.{Mm, Bios}
use ucas_os_kernel.Mm.Pgtable.{page_size}
use ucas_os_kernel.Mm.Swap.{free_page_with_kva, find_page_with_kva, free_found}
use ucas_os_kernel.Kernel.{Kernel, links}
use ucas_os_kernel.Sched.System.{TaskQueue, IsSystem, length-lt}
use ucas_os_kernel.Process.{with_mm, free_stack, do_exit}
use ucas_os_kernel.Process.Release.{LockQueues, release_pcb_lem}

module _ {Disk : Type 0} (y : Layout) {is_head : Ptr → Bool} {nodes : List Ptr} where
  free_stack_lem :
      (k : Kernel Disk) (q : View) (p n : Ptr)
      → IsSystem y is_head nodes k.mm q
      → find
          (λ m. (k.mm.page_at (page_entry m)).kva == (k.pcb_at p).user_sp - page_size)
          (q y.present_pages_queue)
        ≡ some n
      → (m : Mm Disk) × (free_stack y k p ≡ some (with_mm k m))
  unfolding free_stack free_page_with_kva find_page_with_kva free_found
  free_stack_lem k q p n s e =
      let eh = s.paged.present_head in
      let r = s.paged.rep in
      let search =
        find_entry-Chain (links k)
          (λ m. (k.mm.page_at (page_entry m)).kva == (k.pcb_at p).user_sp - page_size) list_fuel
          y.present_pages_queue y.present_pages_queue (q y.present_pages_queue)
          (r.chain y.present_pages_queue eh)
          (r.no_head y.present_pages_queue y.present_pages_queue eh eh)
          (length-lt s y.present_pages_queue eh) in
      rw (search, e) (_, refl)

  -- In a well-formed kernel, where the running task is in the ready queue, those that wait for
  -- it and for the mutexes are in task queues of their own, nobody waits for a free mutex, its
  -- process has two threads or more, and its stack page is present, do_exit ends without a
  -- fault, with the exited task still the running one, whose context is resumed, though its task
  -- block is free.
  pub do_exit-thread :
      (bios : Bios Disk) (k : Kernel Disk) (q : View) (n : Ptr)
      → IsSystem y is_head nodes k.mm q
      → LockQueues y is_head k q
      → has (pcb_list k.current_running) (q y.ready_queue) ≡ true
      → TaskQueue y is_head (pcb_wait_list k.current_running)
      → y.ready_queue ≢ pcb_wait_list k.current_running
      → find
          (λ m.
            (k.mm.page_at (page_entry m)).kva == (k.pcb_at k.current_running).user_sp - page_size)
          (q y.present_pages_queue)
        ≡ some n
      → 2 ≤ k.threads (k.pcb_at k.current_running).pid
      → (k' : Kernel Disk) × (do_exit bios y k ≡ some k')
        × (k'.current_running ≡ k.current_running)
        × (k'.tp ≡ k.current_running)
        × ((k'.pcb_at k.current_running).pid ≡ 0)
  unfolding do_exit
  do_exit-thread bios k q n s ls here t ne e h =
      let p = k.current_running in
      let r = release_pcb_lem y k q s ls p here t ne in
      let k1 = r.0 in
      let stack : find
            (λ m. (k1.mm.page_at (page_entry m)).kva == (k1.pcb_at p).user_sp - page_size)
            (r.1 y.present_pages_queue)
          ≡ some n =
        rw (r.8, r.9, r.4) e in
      let f = free_stack_lem k1 r.1 p n r.3 stack in
      let others : (k1.threads (k1.pcb_at p).pid == 0) ≡ false = rw (r.7, r.6) (ground arith) in
      let self : (p == p) ≡ true = ground arith in
      rw (r.2, others, f.1) (_, refl, r.5, r.5, rw self refl)
