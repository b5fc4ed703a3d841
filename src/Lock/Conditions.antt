-- ===== src/Lock/Conditions.antt =====
-- Condition variables.
use ucas_os_kernel.Base.{
  ℕ, ◌≡◌, ◌≢◌, Bool, true, false, List, [], ◌∷◌, ◌++◌, some, arith, ap, ◌∙◌, sym, has, is_nil,
  keep-all, keep-none,
}
use ucas_os_kernel.Queue.{Ptr, is_queue_empty}
use ucas_os_kernel.Queue.Rep.{
  View, moved, moved-to, moved-from, moved-other, is_queue_empty-Rep, next-Rep,
}
use ucas_os_kernel.Layout.{Layout, pcb_list, pcb_entry}
use ucas_os_kernel.Mm.State.{Bios}
use ucas_os_kernel.Kernel.{ready, Kernel, links}
use ucas_os_kernel.Sched.{do_block}
use ucas_os_kernel.Sched.System.{TaskQueue, IsSystem}
use ucas_os_kernel.Sched.Block.{do_block_lem, do_unblock_lem}
use ucas_os_kernel.Lock.{
  do_mutex_lock_release, do_condition_signal, do_condition_broadcast, do_condition_wait_block,
}
use ucas_os_kernel.Lock.Handover.{lock_view, release_view, IsHeld, release_lem}
use ucas_os_kernel.Lock.Waking.{unblock_all_lem}

module _ {Disk : Type 0} (y : Layout) (is_head : Ptr → Bool) (nodes : List Ptr) (k : Kernel Disk)
    (q : View) (i : ℕ) where
  -- The waiters `gone`, in order, are ready; `left` still wait.
  pub record Signalled (gone left : List Ptr) (k' : Kernel Disk) (q' : View) : Type 0 where
    pub system : IsSystem y is_head nodes k'.mm q'
    pub left_waiting : q' (y.wait_list i) ≡ left
    pub woken : q' y.ready_queue ≡ q y.ready_queue ++ gone
    pub set_ready : (n : Ptr) → has n gone ≡ true → (k'.pcb_at (pcb_entry n)).status ≡ ready
    pub others : (h : Ptr) → h ≢ y.ready_queue → h ≢ y.wait_list i → q' h ≡ q h
    pub running : k'.current_running ≡ k.current_running

module _ {Disk : Type 0} (y : Layout) {is_head : Ptr → Bool} {nodes : List Ptr} (k : Kernel Disk)
    (q : View) (i : ℕ) (s : IsSystem y is_head nodes k.mm q)
    (t : TaskQueue y is_head (y.wait_list i)) (ne : y.ready_queue ≢ y.wait_list i) where
  -- In a well-formed kernel, do_condition_signal of a condition whose first waiter is n moves n,
  -- and no other, to the end of the ready queue, and sets its task ready.
  pub do_condition_signal_lem :
      (n : Ptr) (xs : List Ptr)
      → q (y.wait_list i) ≡ n ∷ xs
      → (q' : View) × Signalled y is_head nodes k q i (n ∷ []) xs (do_condition_signal y k i) q'
  unfolding do_condition_signal
  do_condition_signal_lem n xs e =
      let some_wait : is_queue_empty (links k) (y.wait_list i) ≡ false =
        is_queue_empty-Rep s.paged.rep (y.wait_list i) t.head ∙ ap is_nil e in
      let first = next-Rep s.paged.rep (y.wait_list i) n xs t.head e in
      let inside : has n (q (y.wait_list i)) ≡ true = rw e (ground arith) in
      let u = do_unblock_lem y k q n (y.wait_list i) s t inside in
      let ne' : y.wait_list i ≢ y.ready_queue = λ z. ne (sym z) in
      rw (some_wait, first)
        (
          moved q n (y.wait_list i) y.ready_queue,
          record {
            system = u.0;
            left_waiting = moved-from q n (y.wait_list i) y.ready_queue ne' ∙ rw e (ground arith);
            woken = moved-to q n (y.wait_list i) y.ready_queue ne';
            set_ready = λ m h. (let same : m ≡ n = ground arith in rw same (u.1));
            others = λ h nr nh. moved-other q n (y.wait_list i) y.ready_queue h nh nr;
            running = u.3;
          },
        )

  -- In a well-formed kernel, the loop of do_condition_broadcast ends, with all waiters moved to
  -- the ready queue in order and set ready, and nothing else moved.
  pub do_condition_broadcast_lem :
      (k' : Kernel Disk) × (q' : View) × (do_condition_broadcast y k i ≡ some k')
      × Signalled y is_head nodes k q i (q (y.wait_list i)) [] k' q'
  unfolding do_condition_broadcast
  do_condition_broadcast_lem =
      let r = unblock_all_lem y is_head nodes (y.wait_list i) k q t ne s in
      (
        r.0,
        r.1,
        r.2,
        record {
          system = r.3.system;
          left_waiting = r.3.asleep ∙ keep-none (q (y.wait_list i));
          woken = r.3.woken ∙ ap (λ ns. q y.ready_queue ++ ns) (keep-all (q (y.wait_list i)));
          set_ready = λ m h. r.3.set_ready m (rw keep-all h);
          others = r.3.others;
          running = ap {A = Kernel Disk} (λ k. k.current_running) r.3.state;
        },
      )

module _ {Disk : Type 0} (bios : Bios Disk) (y : Layout) {is_head : Ptr → Bool} {nodes : List Ptr}
    (k : Kernel Disk) (q : View) (i j : ℕ) (s : IsSystem y is_head nodes k.mm q)
    (t : TaskQueue y is_head (y.wait_list i)) (l : TaskQueue y is_head (y.block_queue j)) where
  -- In a well-formed kernel whose running task is in the ready queue, do_condition_wait up to
  -- where it blocks ends without a fault, gives the mutex on as a release does and has the task
  -- at the end of the condition's waiters.
  pub do_condition_wait_lem :
      y.ready_queue ≢ y.wait_list i
      → y.block_queue j ≢ y.wait_list i
      → y.block_queue j ≢ y.ready_queue
      → has (pcb_list k.current_running) (q y.ready_queue) ≡ true
      → IsHeld y k q j
      → (k' : Kernel Disk) × (q' : View) × (do_condition_wait_block bios y k i j ≡ some k')
        × IsSystem y is_head nodes k'.mm q'
        × (lock_view y k' q' j
            ≡ release_view (λ n. (k.pcb_at (pcb_entry n)).pid) (lock_view y k q j))
        × (q' (y.wait_list i) ≡ q (y.wait_list i) ++ (pcb_list k.current_running ∷ []))
  unfolding do_condition_wait_block
  do_condition_wait_lem rw_ne bw_ne br_ne here h =
      let r = release_lem y k q j s l br_ne h in
      let k1 = do_mutex_lock_release y k j in
      let n = pcb_list k.current_running in
      let here1 = r.1.stays_ready n here in
      let b =
        do_block_lem bios y k1 r.0 n y.ready_queue (y.wait_list i) r.1.system s.ready t here1 in
      let cur = r.1.running in
      let wait_ne : y.wait_list i ≢ y.block_queue j = λ z. bw_ne (sym z) in
      let block : b.1 (y.block_queue j) ≡ r.0 (y.block_queue j) =
        b.4 (y.block_queue j) l.not_present l.not_swapped
        ∙ moved-other r.0 n y.ready_queue (y.wait_list i) (y.block_queue j) br_ne bw_ne in
      (
        _,
        b.1,
        ap (λ (p : ℕ). do_block bios y k1 (pcb_list p) (y.wait_list i)) cur ∙ b.2,
        b.3,
        rw block r.1.view,
        b.4 (y.wait_list i) t.not_present t.not_swapped
            ∙ moved-to r.0 n y.ready_queue (y.wait_list i) rw_ne
            ∙ ap (λ ns. ns ++ (n ∷ [])) (r.1.lists (y.wait_list i) wait_ne (λ z. rw_ne (sym z))),
      )
