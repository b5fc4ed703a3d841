-- ===== src/Sched/Net.antt =====
-- `check_net_send` and `check_net_recv` of kernel/net/net.c.
use ucas_os_kernel.Base.{
  keep-all, keep-none, ◌≡◌, refl, ◌≢◌, Bool, true, false, List, [], ◌++◌, sym, ◌∙◌, subst,
  if◌then◌else◌, some, append-nil,
}
use ucas_os_kernel.Queue.{Ptr, list_for_each_safe}
use ucas_os_kernel.Queue.Rep.{View, moved}
use ucas_os_kernel.Queue.Iterate.{list_for_each_safe_lem}
use ucas_os_kernel.Layout.{Layout, pcb_list, pcb_entry, list_fuel}
use ucas_os_kernel.Kernel.{Kernel, links}
use ucas_os_kernel.Sched.{do_unblock, unblock_one, check_net_send, check_net_recv}
use ucas_os_kernel.Sched.System.{TaskQueue, IsSystem, length-lt}
use ucas_os_kernel.Sched.Wake.{
  Waking, Waking-step, Waking-start, Woken, Woken-end, Woken-status, status_after,
}

module _ {Disk : Type 0} (y : Layout) {is_head : Ptr → Bool} {nodes : List Ptr} (k0 : Kernel Disk)
    (q0 : View) (s : IsSystem y is_head nodes k0.mm q0) where
  -- The loop of both checks unblocks all of a queue.
  unblock_all_lem :
      (head : Ptr)
      → TaskQueue y is_head head
      → y.ready_queue ≢ head
      → (k : Kernel Disk) × (q : View) × (list_for_each_safe links (unblock_one y) head list_fuel k0
          ≡ some k)
        × Woken y is_head nodes head k0 q0 (λ n. true) k q
  unfolding unblock_one
  unblock_all_lem head t ne =
      let r =
        list_for_each_safe_lem links (unblock_one y) head t.head
          (Waking y is_head nodes head k0 q0 (λ n. true))
          (λ k q pre xs w. (w.system.paged.rep, w.here))
          (λ n k q pre xs w. (
            do_unblock y k (pcb_list (pcb_entry n)),
            moved q n head y.ready_queue,
            pre,
            refl,
            Waking-step y is_head nodes head k0 q0 (λ n. true) n k q pre xs t ne w refl,
          ))
          list_fuel k0 q0 (Waking-start y is_head nodes head k0 q0 (λ n. true) s)
          (length-lt s head t.head) in
      (r.0, r.1, r.3, Woken-end y is_head nodes head k0 q0 (λ n. true) r.0 r.1 r.2 r.4)

  -- A check with the card's report `done`: all waiting tasks become ready, or nothing happens.
  pub record Checked (done : Bool) (head : Ptr) (k : Kernel Disk) (q : View) : Type 0 where
    pub system : IsSystem y is_head nodes k.mm q
    pub ready_list : q y.ready_queue ≡ q0 y.ready_queue ++ (if done then q0 head else [])
    pub left : q head ≡ (if done then [] else q0 head)
    pub others : (h : Ptr) → h ≢ y.ready_queue → h ≢ head → q h ≡ q0 h
    pub state : k ≡ record k0 { mm = k.mm; pcb_at = k.pcb_at }
    pub statuses :
        (p : Ptr) → (k.pcb_at p).status ≡ status_after k0 (if done then q0 head else []) p

  net_check_lem :
      (done : Bool) (head : Ptr)
      → TaskQueue y is_head head
      → y.ready_queue ≢ head
      → (k : Kernel Disk) × (q : View) × ((if done
            then list_for_each_safe links (unblock_one y) head list_fuel k0
            else some k0)
          ≡ some k)
        × Checked done head k q
  net_check_lem true head t ne =
      let w = unblock_all_lem head t ne in
      (
        w.0,
        w.1,
        w.2,
        record {
          system = w.3.system;
          ready_list = rw keep-all at w.3.woken;
          left = w.3.asleep ∙ keep-none (q0 head);
          others = w.3.others;
          state = w.3.state;
          statuses = λ p.
              subst (λ (ns : List Ptr). (w.0.pcb_at p).status ≡ status_after k0 ns p)
                (keep-all (q0 head))
                (Woken-status y is_head nodes head k0 q0 (λ n. true) w.0 w.1 p w.3);
        },
      )
  net_check_lem false head t ne = (
    k0,
    q0,
    refl,
    record {
      system = s;
      ready_list = sym (append-nil (q0 y.ready_queue));
      left = refl;
      others = λ h nr nh. refl;
      state = refl;
      statuses = λ p. refl;
    },
  )

  pub check_net_send_lem :
      TaskQueue y is_head y.send_block_queue
      → y.ready_queue ≢ y.send_block_queue
      → (k : Kernel Disk) × (q : View) × (check_net_send y k0 ≡ some k)
        × Checked k0.tx_done y.send_block_queue k q
  unfolding check_net_send
  check_net_send_lem t ne = net_check_lem k0.tx_done y.send_block_queue t ne

  pub check_net_recv_lem :
      TaskQueue y is_head y.recv_block_queue
      → y.ready_queue ≢ y.recv_block_queue
      → (k : Kernel Disk) × (q : View) × (check_net_recv y k0 ≡ some k)
        × Checked k0.rx_done y.recv_block_queue k q
  unfolding check_net_recv
  check_net_recv_lem t ne = net_check_lem k0.rx_done y.recv_block_queue t ne
