-- ===== src/Lock/Waking.antt =====
-- The loops that empty a queue.
use ucas_os_kernel.Base.{
  ℕ, zero, suc, ◌<◌, ◌≡◌, refl, ◌≢◌, Bool, true, false, List, [], ◌∷◌, some, arith, ap, subst, ◌∙◌,
  has, is_nil, length,
}
use ucas_os_kernel.Queue.{Ptr, is_queue_empty}
use ucas_os_kernel.Queue.Rep.{View, moved, is_queue_empty-Rep, next-Rep}
use ucas_os_kernel.Layout.{Layout, pcb_list, pcb_entry, list_fuel}
use ucas_os_kernel.Kernel.{Kernel, links}
use ucas_os_kernel.Sched.{do_unblock}
use ucas_os_kernel.Sched.System.{TaskQueue, IsSystem, length-lt}
use ucas_os_kernel.Sched.Wake.{Waking, Waking-step, Waking-start, Woken, Woken-end}
use ucas_os_kernel.Lock.{unblock_all}

module _ {Disk : Type 0} (y : Layout) (is_head : Ptr → Bool) (nodes : List Ptr) (head : Ptr)
    (k0 : Kernel Disk) (q0 : View) (t : TaskQueue y is_head head) (ne : y.ready_queue ≢ head) where
  unblock_loop :
      (fuel : ℕ) (k : Kernel Disk) (q : View) (xs : List Ptr)
      → Waking y is_head nodes head k0 q0 (λ n. true) k q [] xs
      → length xs < fuel
      → (k' : Kernel Disk) × (q' : View) × (unblock_all y fuel k head ≡ some k')
        × Waking y is_head nodes head k0 q0 (λ n. true) k' q' [] []
  unfolding unblock_all
  unblock_loop zero k q xs w h = absurd (omega arith)
  unblock_loop (suc fuel) k q [] w h =
      let empty : is_queue_empty (links k) head ≡ true =
        is_queue_empty-Rep w.system.paged.rep head t.head ∙ ap is_nil w.here in
      rw empty (k, q, refl, w)
  unblock_loop (suc fuel) k q (n ∷ xs) w h =
      let more : is_queue_empty (links k) head ≡ false =
        is_queue_empty-Rep w.system.paged.rep head t.head ∙ ap is_nil w.here in
      let first = next-Rep w.system.paged.rep head n xs t.head w.here in
      let inside : has n (q head) ≡ true = rw (w.here) (ground arith) in
      let back : pcb_list (pcb_entry n) ≡ n = omega (arith, w.system.tasks head n t inside) in
      let step = Waking-step y is_head nodes head k0 q0 (λ n. true) n k q [] xs t ne w refl in
      let next : Waking y is_head nodes head k0 q0 (λ n. true) (do_unblock y k n)
          (moved q n head y.ready_queue) [] xs =
        subst
          (λ (m : ℕ).
            Waking y is_head nodes head k0 q0 (λ n. true) (do_unblock y k m)
              (moved q n head y.ready_queue) [] xs)
          back step in
      let r =
        unblock_loop fuel (do_unblock y k n) (moved q n head y.ready_queue) xs next (omega arith) in
      rw (more, first) r

  pub unblock_all_lem :
      IsSystem y is_head nodes k0.mm q0
      → (k' : Kernel Disk) × (q' : View) × (unblock_all y list_fuel k0 head ≡ some k')
        × Woken y is_head nodes head k0 q0 (λ n. true) k' q'
  unblock_all_lem s =
      let r =
        unblock_loop list_fuel k0 q0 (q0 head)
          (Waking-start y is_head nodes head k0 q0 (λ n. true) s) (length-lt s head t.head) in
      (r.0, r.1, r.2, Woken-end y is_head nodes head k0 q0 (λ n. true) r.0 r.1 [] r.3)
