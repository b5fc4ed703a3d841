-- ===== src/Sched/Schedule.antt =====
-- The whole of `do_scheduler`.
use ucas_os_kernel.Base.{
  ℕ, ◌≡◌, refl, ◌≢◌, ◌⊎◌, Bool, true, not, ◌||◌, ◌==◌, List, [], ◌∷◌, ◌++◌, arith, sym, ◌∙◌, ap,
  fun_ext, append_assoc, has, keep, remove, if◌then◌else◌, Bool-cases, inl, inr, some, has-append,
}
use ucas_os_kernel.Queue.{Ptr}
use ucas_os_kernel.Queue.Rep.{View, moved}
use ucas_os_kernel.Layout.{Layout, pcb_list}
use ucas_os_kernel.Mm.State.{Bios}
use ucas_os_kernel.Kernel.{TaskStatus, ready, Kernel}
use ucas_os_kernel.Sched.{
  check_sleeping, check_net_send, check_net_recv, rotate, reschedule, do_scheduler,
}
use ucas_os_kernel.Sched.System.{TaskQueue, IsSystem, IsSystem-moved}
use ucas_os_kernel.Sched.Idle.{next_of, next_task, resumed, reschedule_lem}
use ucas_os_kernel.Sched.Wake.{Woken-status, status_after, due, check_sleeping_lem}
use ucas_os_kernel.Sched.Net.{check_net_send_lem, check_net_recv_lem}

cpu-rotate : {Disk : Type 0} (y : Layout) (k : Kernel Disk) → (rotate y k).cpu ≡ k.cpu
unfolding rotate
cpu-rotate y k = ground arith

status-rotate :
    {Disk : Type 0} (y : Layout) (k : Kernel Disk) (p : Ptr)
    → ((rotate y k).pcb_at p).status
      ≡ (if p == k.current_running then ready else (k.pcb_at p).status)
unfolding rotate
status-rotate y k p = ground arith

abbrev pub is_idle : {Disk : Type 0} → Layout → Kernel Disk → Bool
is_idle y k = (k.current_running == y.pid0_pcb) || (k.current_running == y.pid0_pcb2)

module _ {Disk : Type 0} (y : Layout) {is_head : Ptr → Bool} {nodes : List Ptr} (k0 : Kernel Disk)
    (q0 : View) (s : IsSystem y is_head nodes k0.mm q0) where
  -- The running task goes to the end of the ready tasks, an idle task does not.
  rotate_lem :
      (is_idle y k0 ≡ true) ⊎ (has (pcb_list k0.current_running) (q0 y.ready_queue) ≡ true)
      → (q : View) × IsSystem y is_head nodes (rotate y k0).mm q
        × (q y.ready_queue ≡ (
            if is_idle y k0
            then q0 y.ready_queue
            else remove (pcb_list k0.current_running) (q0 y.ready_queue)
              ++ (pcb_list k0.current_running ∷ [])))
        × ((h : Ptr) → h ≢ y.ready_queue → q h ≡ q0 h)
  unfolding rotate
  rotate_lem h = elim (Bool-cases (is_idle y k0)) [
    | inl e ↦ rw e (q0, s, refl, λ h n. refl)
    | inr e ↦
        let i : has (pcb_list k0.current_running) (q0 y.ready_queue) ≡ true = ground arith in
        let n = pcb_list k0.current_running in
        rw e (
          moved q0 n y.ready_queue y.ready_queue,
          IsSystem-moved s n y.ready_queue y.ready_queue s.ready s.ready i,
          ground arith,
          λ h n. ground arith,
        )
  ]

-- The lists that `do_scheduler` works on.
module _ (y : Layout) (is_head : Ptr → Bool) where
  pub record Queues : Type 0 where
    pub sleep : TaskQueue y is_head y.sleep_queue
    pub send : TaskQueue y is_head y.send_block_queue
    pub recv : TaskQueue y is_head y.recv_block_queue
    pub ready_sleep : y.ready_queue ≢ y.sleep_queue
    pub ready_send : y.ready_queue ≢ y.send_block_queue
    pub ready_recv : y.ready_queue ≢ y.recv_block_queue
    pub sleep_send : y.sleep_queue ≢ y.send_block_queue
    pub sleep_recv : y.sleep_queue ≢ y.recv_block_queue
    pub send_recv : y.send_block_queue ≢ y.recv_block_queue

module _ {Disk : Type 0} (y : Layout) where
  -- The tasks that can go on: the sleepers that are due, those that wait to send, those that wait
  -- to receive.
  abbrev pub woken_nodes : Kernel Disk → View → List Ptr
  woken_nodes k q =
      (keep (due k) (q y.sleep_queue) ++ (if k.tx_done then q y.send_block_queue else []))
      ++ (if k.rx_done then q y.recv_block_queue else [])

  -- The ready tasks once these were woken.
  abbrev pub woken_list : Kernel Disk → View → List Ptr
  woken_list k q = q y.ready_queue ++ woken_nodes k q

  -- The states of the tasks when the next one is chosen.
  abbrev pub turn_status : Kernel Disk → View → Ptr → TaskStatus
  turn_status k q p = if p == k.current_running then ready else status_after k (woken_nodes k q) p

  -- The same with the running task sent to the end.
  abbrev pub rotated_list : Kernel Disk → List Ptr → List Ptr
  rotated_list k tasks =
      if is_idle y k
      then tasks
      else remove (pcb_list k.current_running) tasks ++ (pcb_list k.current_running ∷ [])

module _ {Disk : Type 0} (y : Layout) (is_head : Ptr → Bool) where
  pub record Scheduled (nodes : List Ptr) (k0 : Kernel Disk) (q0 : View) (k' : Kernel Disk)
      (q : View) : Type 0 where
    pub system : IsSystem y is_head nodes k'.mm q
    pub ready_list : q y.ready_queue ≡ rotated_list y k0 (woken_list y k0 q0)
    pub asleep : q y.sleep_queue ≡ keep (λ n. not (due k0 n)) (q0 y.sleep_queue)
    pub sending : q y.send_block_queue ≡ (if k0.tx_done then [] else q0 y.send_block_queue)
    pub receiving : q y.recv_block_queue ≡ (if k0.rx_done then [] else q0 y.recv_block_queue)
    pub runs :
        k'.current_running
        ≡ next_of y k0.cpu (turn_status y k0 q0) (rotated_list y k0 (woken_list y k0 q0))
    pub context : k'.tp ≡ k'.current_running
    pub on_cpu : k'.runnings k0.cpu ≡ k'.current_running

  -- What the three checks make of the lists.
  record Checks (nodes : List Ptr) (k0 : Kernel Disk) (q0 : View) (k : Kernel Disk) (q : View)
      : Type 0 where
    system : IsSystem y is_head nodes k.mm q
    ready_list : q y.ready_queue ≡ woken_list y k0 q0
    asleep : q y.sleep_queue ≡ keep (λ n. not (due k0 n)) (q0 y.sleep_queue)
    sending : q y.send_block_queue ≡ (if k0.tx_done then [] else q0 y.send_block_queue)
    receiving : q y.recv_block_queue ≡ (if k0.rx_done then [] else q0 y.recv_block_queue)
    state : k ≡ record k0 { mm = k.mm; pcb_at = k.pcb_at }
    statuses : (p : Ptr) → (k.pcb_at p).status ≡ status_after k0 (woken_nodes y k0 q0) p

module _ {Disk : Type 0} (y : Layout) {is_head : Ptr → Bool} {nodes : List Ptr} (k0 : Kernel Disk)
    (q0 : View) (s : IsSystem y is_head nodes k0.mm q0) (u : Queues y is_head) where
  checks_lem :
      (k1 k2 k3 : Kernel Disk) × (q : View) × (check_sleeping y k0 ≡ some k1)
      × (check_net_send y k1 ≡ some k2)
      × (check_net_recv y k2 ≡ some k3)
      × Checks y is_head nodes k0 q0 k3 q
  checks_lem =
      let a = check_sleeping_lem y k0 q0 s u.sleep u.ready_sleep in
      let k1 = a.0 in
      let q1 = a.1 in
      let b = check_net_send_lem y k1 q1 a.3.system u.send u.ready_send in
      let k2 = b.0 in
      let q2 = b.1 in
      let c = check_net_recv_lem y k2 q2 b.3.system u.recv u.ready_recv in
      let k3 = c.0 in
      let q3 = c.1 in
      let tx : k1.tx_done ≡ k0.tx_done = ap {A = Kernel Disk} (λ k. k.tx_done) a.3.state in
      let rx : k2.rx_done ≡ k0.rx_done =
        ap {A = Kernel Disk} (λ k. k.rx_done) b.3.state
        ∙ ap {A = Kernel Disk} (λ k. k.rx_done) a.3.state in
      let ne = λ (m n : ℕ) (p : m ≢ n) (e : n ≡ m). p (sym e) in
      let send1 : q1 y.send_block_queue ≡ q0 y.send_block_queue =
        a.3.others y.send_block_queue (ne _ _ u.ready_send) (ne _ _ u.sleep_send) in
      let recv2 : q2 y.recv_block_queue ≡ q0 y.recv_block_queue =
        b.3.others y.recv_block_queue (ne _ _ u.ready_recv) (ne _ _ u.send_recv)
        ∙ a.3.others y.recv_block_queue (ne _ _ u.ready_recv) (ne _ _ u.sleep_recv) in
      let woke = keep (due k0) (q0 y.sleep_queue) in
      let sent = if k0.tx_done then q0 y.send_block_queue else [] in
      let received = if k0.rx_done then q0 y.recv_block_queue else [] in
      (
        k1,
        k2,
        k3,
        q3,
        a.2,
        b.2,
        c.2,
        record {
          system = c.3.system;
          ready_list =
              c.3.ready_list
              ∙ rw (b.3.ready_list, a.3.woken, tx, send1, rx, recv2)
                  (ap (λ (ns : List Ptr). ns ++ received)
                      (append_assoc (q0 y.ready_queue) woke sent)
                    ∙ append_assoc (q0 y.ready_queue) (woke ++ sent) received);
          asleep =
              c.3.others y.sleep_queue (ne _ _ u.ready_sleep) u.sleep_recv
              ∙ b.3.others y.sleep_queue (ne _ _ u.ready_sleep) u.sleep_send
              ∙ a.3.asleep;
          sending =
              c.3.others y.send_block_queue (ne _ _ u.ready_send) u.send_recv
              ∙ b.3.left
              ∙ rw (tx, send1);
          receiving = c.3.left ∙ rw (rx, recv2);
          state =
              c.3.state
              ∙ ap {A = Kernel Disk} (λ j. record j { mm = k3.mm; pcb_at = k3.pcb_at }) b.3.state
              ∙ ap {A = Kernel Disk} (λ j. record j { mm = k3.mm; pcb_at = k3.pcb_at }) a.3.state;
          statuses = λ p. ground (
            arith,
            c.3.statuses p,
            b.3.statuses p,
            Woken-status y is_head nodes y.sleep_queue k0 q0 (due k0) k1 q1 p a.3,
            tx,
            rx,
            send1,
            recv2,
            has-append (pcb_list p) woke sent,
            has-append (pcb_list p) (woke ++ sent) received,
          );
        },
      )

module _ {Disk : Type 0} (bios : Bios Disk) (y : Layout) {is_head : Ptr → Bool} {nodes : List Ptr}
    (k0 : Kernel Disk) (q0 : View) (u : Queues y is_head) where
  -- The rest of `do_scheduler`, from the state that the checks leave.
  reschedule_rotated :
      (k3 : Kernel Disk) (q3 : View)
      → Checks y is_head nodes k0 q0 k3 q3
      → (is_idle y k0 ≡ true) ⊎ (has (pcb_list k0.current_running) (q0 y.ready_queue) ≡ true)
      → (k' : Kernel Disk) × (q : View) × (reschedule bios y (rotate y k3) k3.current_running
          ≡ some k')
        × Scheduled y is_head nodes k0 q0 k' q
  reschedule_rotated k3 q3 c h =
      let s = c.system in
      let cur : k3.current_running ≡ k0.current_running =
        ap {A = Kernel Disk} (λ k. k.current_running) c.state in
      let cpu : k3.cpu ≡ k0.cpu = ap {A = Kernel Disk} (λ k. k.cpu) c.state in
      let d = rotate_lem y k3 q3 s (rw (cur, c.ready_list) (still_ready h)) in
      let k = rotate y k3 in
      let e = reschedule_lem bios y k d.0 k3.current_running d.1 in
      let rotated : d.0 y.ready_queue ≡ rotated_list y k0 (woken_list y k0 q0) =
        d.2 ∙ rw (cur, c.ready_list) in
      let ne = λ (m n : ℕ) (p : m ≢ n) (e : n ≡ m). p (sym e) in
      let tasks = rotated_list y k0 (woken_list y k0 q0) in
      let same : (p : Ptr) → (k.pcb_at p).status ≡ turn_status y k0 q0 p =
        λ p. ground (arith, status-rotate y k3 p, c.statuses p, cur) in
      let on : k.cpu ≡ k0.cpu = cpu-rotate y k3 ∙ cpu in
      (
        resumed k (next_task y k (d.0 y.ready_queue)) e.0,
        e.1,
        e.2,
        record {
          system = e.3;
          ready_list = e.4 y.ready_queue s.ready.not_present s.ready.not_swapped ∙ rotated;
          asleep =
              e.4 y.sleep_queue u.sleep.not_present u.sleep.not_swapped
              ∙ d.3 y.sleep_queue (ne _ _ u.ready_sleep)
              ∙ c.asleep;
          sending =
              e.4 y.send_block_queue u.send.not_present u.send.not_swapped
              ∙ d.3 y.send_block_queue (ne _ _ u.ready_send)
              ∙ c.sending;
          receiving =
              e.4 y.recv_block_queue u.recv.not_present u.recv.not_swapped
              ∙ d.3 y.recv_block_queue (ne _ _ u.ready_recv)
              ∙ c.receiving;
          runs =
              ap (next_task y k) rotated
              ∙ ap (λ (c : ℕ). next_of y c (λ p. (k.pcb_at p).status) tasks) on
              ∙ ap (λ (st : Ptr → TaskStatus). next_of y k0.cpu st tasks) (fun_ext same);
          context = refl;
          on_cpu = ground (arith, on);
        },
      )
    where
      still_ready :
          (is_idle y k0 ≡ true) ⊎ (has (pcb_list k0.current_running) (q0 y.ready_queue) ≡ true)
          → (is_idle y k0 ≡ true) ⊎ (has (pcb_list k0.current_running) (woken_list y k0 q0) ≡ true)
      still_ready (inl i) = inl i
      still_ready (inr i) = inr (grind (arith, has-append))

  -- In a well-formed kernel whose queues are distinct, whose running task is an idle task or in
  -- the ready queue, do_scheduler ends without a fault in a well-formed kernel: the ready queue
  -- is the old one followed by the sleepers that are due, the waiting senders if the card can
  -- send and the waiting receivers if it has received, each in order, with the running task
  -- (unless idle) moved to the end; the other queues keep what is left; with the states that the
  -- tasks then have (the running one and the woken ones ready), the task chosen is the first
  -- ready one that is not running, else the idle task of the processor, and it is the one that
  -- is recorded for the processor and resumed.
  pub do_scheduler_lem :
      IsSystem y is_head nodes k0.mm q0
      → (is_idle y k0 ≡ true) ⊎ (has (pcb_list k0.current_running) (q0 y.ready_queue) ≡ true)
      → (k' : Kernel Disk) × (q : View) × (do_scheduler bios y k0 ≡ some k')
        × Scheduled y is_head nodes k0 q0 k' q
  unfolding do_scheduler
  do_scheduler_lem s h =
      let c = checks_lem y k0 q0 s u in
      let r = reschedule_rotated c.2 c.3 c.7 h in (r.0, r.1, rw (c.4, c.5, c.6) r.2, r.3)
