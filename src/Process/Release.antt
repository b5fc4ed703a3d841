-- ===== src/Process/Release.antt =====
-- What `release_pcb` does: the task leaves its queue, the mutexes of its process are given on, and
-- those that wait for it wake up.
use ucas_os_kernel.Base.{
  ℕ, zero, suc, ◌+◌, ◌-◌, ◌≤◌, ◌<◌, ◌≡◌, refl, ◌≢◌, Bool, true, some, arith, ap, sym, ◌∙◌, ◌==◌,
  List, has, upd, Bool-cases, inl, inr,
}
use ucas_os_kernel.Queue.{Ptr, is_queue_empty, list_delete_entry}
use ucas_os_kernel.Queue.Rep.{View, removed}
use ucas_os_kernel.Layout.{Layout, pcb_list, pcb_wait_list, list_fuel}
use ucas_os_kernel.Kernel.{exited, Mutex, Kernel, links, set_links, set_status}
use ucas_os_kernel.Sched.{do_unblock}
use ucas_os_kernel.Sched.System.{TaskQueue, IsSystem, IsSystem-removed}
use ucas_os_kernel.Lock.{lock_num, do_mutex_lock_release, unblock_all}
use ucas_os_kernel.Lock.Handover.{IsHeld, release_lem}
use ucas_os_kernel.Lock.Waking.{unblock_all_lem}
use ucas_os_kernel.Process.{release_locks, release_pcb}

-- What releasing a task's resources leaves.
pub record Steady {Disk : Type 0} (k k' : Kernel Disk) : Type 0 where
  pub running : k'.current_running ≡ k.current_running
  pub threads : k'.threads ≡ k.threads
  pub pids : (p : Ptr) → (k'.pcb_at p).pid ≡ (k.pcb_at p).pid
  pub stacks : (p : Ptr) → (k'.pcb_at p).user_sp ≡ (k.pcb_at p).user_sp
  pub pages : k'.mm.page_at ≡ k.mm.page_at

module _ {Disk : Type 0} where
  Steady-trans : {k k1 k2 : Kernel Disk} → Steady k k1 → Steady k1 k2 → Steady k k2
  Steady-trans a b = record {
    running = b.running ∙ a.running;
    threads = b.threads ∙ a.threads;
    pids = λ p. b.pids p ∙ a.pids p;
    stacks = λ p. b.stacks p ∙ a.stacks p;
    pages = b.pages ∙ a.pages;
  }

  do_unblock-Steady : (y : Layout) (k : Kernel Disk) (n : Ptr) → Steady k (do_unblock y k n)
  unfolding do_unblock
  do_unblock-Steady y k n = record {
    running = refl;
    threads = refl;
    pids = λ p. ground arith;
    stacks = λ p. ground arith;
    pages = refl;
  }

  release-Steady : (y : Layout) (k : Kernel Disk) (i : ℕ) → Steady k (do_mutex_lock_release y k i)
  unfolding do_mutex_lock_release
  release-Steady y k i = elim (Bool-cases (is_queue_empty (links k) (y.block_queue i))) [
    | inl e ↦ rw e (record {
      running = refl;
      threads = refl;
      pids = λ p. refl;
      stacks = λ p. refl;
      pages = refl;
    })
    | inr e ↦ rw e (
        let u = do_unblock-Steady y _ ((links k).next (y.block_queue i)) in
        record {
          running = u.running;
          threads = u.threads;
          pids = u.pids;
          stacks = u.stacks;
          pages = u.pages;
        })
  ]

  unblock_all-Steady :
      (y : Layout) (fuel : ℕ) (k k' : Kernel Disk) (head : Ptr)
      → unblock_all y fuel k head ≡ some k'
      → Steady k k'
  unfolding unblock_all
  unblock_all-Steady y zero k k' head e = absurd (ground arith)
  unblock_all-Steady y (suc fuel) k k' head e = elim (Bool-cases (is_queue_empty (links k) head)) [
    | inl z ↦
        let same : k ≡ k' = ground (arith, z) in
        rw (← same) (record {
          running = refl;
          threads = refl;
          pids = λ p. refl;
          stacks = λ p. refl;
          pages = refl;
        })
    | inr z ↦
        let n = (links k).next head in
        let more : unblock_all y fuel (do_unblock y k n) head ≡ some k' = (rw z at e) in
        Steady-trans (do_unblock-Steady y k n)
          (unblock_all-Steady y fuel (do_unblock y k n) k' head more)
  ]

  release_locks-Steady :
      (y : Layout) (n i pid : ℕ) (k : Kernel Disk) → Steady k (release_locks y n i pid k)
  unfolding release_locks
  release_locks-Steady y zero i pid k = record {
    running = refl;
    threads = refl;
    pids = λ p. refl;
    stacks = λ p. refl;
    pages = refl;
  }
  release_locks-Steady y (suc n) i pid k = elim (Bool-cases ((k.mlocks i).pid == pid)) [
    | inl e ↦ rw e (
        Steady-trans (release-Steady y k i)
          (release_locks-Steady y n (i + 1) pid (do_mutex_lock_release y k i)))
    | inr e ↦ rw e (release_locks-Steady y n (i + 1) pid k)
  ]

-- The mutexes' queues are task queues of their own, and nobody waits for a free mutex.
pub record LockQueues {Disk : Type 0} (y : Layout) (is_head : Ptr → Bool) (k : Kernel Disk)
    (q : View) : Type 0 where
  pub queues : (j : ℕ) → j < lock_num → TaskQueue y is_head (y.block_queue j)
  pub not_ready : (j : ℕ) → j < lock_num → y.block_queue j ≢ y.ready_queue
  pub own : (j l : ℕ) → j < lock_num → l < lock_num → j ≢ l → y.block_queue j ≢ y.block_queue l
  pub held : (j : ℕ) → j < lock_num → IsHeld y k q j

module _ {Disk : Type 0} (y : Layout) {is_head : Ptr → Bool} {nodes : List Ptr} where
  -- Releasing the mutexes of a process keeps the system and the page queues.
  release_locks-IsSystem :
      (n i pid : ℕ) (k : Kernel Disk) (q : View)
      → i + n ≤ lock_num
      → IsSystem y is_head nodes k.mm q
      → LockQueues y is_head k q
      → (q' : View) × IsSystem y is_head nodes (release_locks y n i pid k).mm q'
        × (q' y.present_pages_queue ≡ q y.present_pages_queue)
  unfolding release_locks
  release_locks-IsSystem zero i pid k q b s ls = (q, s, refl)
  release_locks-IsSystem (suc n) i pid k q b s ls = elim (Bool-cases ((k.mlocks i).pid == pid)) [
    | inr e ↦ rw (release_locks, e) (release_locks-IsSystem n (i + 1) pid k q (omega arith) s ls)
    | inl e ↦
        let t = ls.queues i (omega arith) in
        let ne = ls.not_ready i (omega arith) in
        let r = release_lem y k q i s t ne (ls.held i (omega arith)) in
        let next =
          release_locks-IsSystem n (i + 1) pid (do_mutex_lock_release y k i) r.0 (omega arith)
            r.1.system
            (record {
              queues = ls.queues;
              not_ready = ls.not_ready;
              own = ls.own;
              held = λ j h. elim (Bool-cases (j == i)) [
                | inl z ↦ let same : j ≡ i = ground arith in rw same r.1.held
                | inr z ↦
                    let apart : j ≢ i = ground arith in
                    let list =
                      r.1.lists (y.block_queue j) (ls.own j i h (omega arith) apart)
                        (ls.not_ready j h) in
                    λ free.
                      list
                      ∙ ls.held j h (ap (λ (m : Mutex). m.locked) (sym (r.1.others j apart)) ∙ free)
              ];
            }) in
        let present =
          r.1.lists y.present_pages_queue (λ z. t.not_present (sym z))
            (λ z. s.ready.not_present (sym z)) in
        rw (release_locks, e) (next.0, next.1, next.2 ∙ present)
  ]

  -- The end of the running task, which is in the ready queue, and its stack page.
  pub release_pcb_lem :
      (k : Kernel Disk) (q : View)
      → IsSystem y is_head nodes k.mm q
      → LockQueues y is_head k q
      → (p : Ptr) → has (pcb_list p) (q y.ready_queue) ≡ true
      → TaskQueue y is_head (pcb_wait_list p)
      → y.ready_queue ≢ pcb_wait_list p
      → (k1 : Kernel Disk) × (q1 : View) × (release_pcb y k p ≡ some k1)
        × IsSystem y is_head nodes k1.mm q1
        × (q1 y.present_pages_queue ≡ q y.present_pages_queue)
        × (k1.current_running ≡ k.current_running)
        × (k1.threads (k.pcb_at p).pid ≡ k.threads (k.pcb_at p).pid - 1)
        × ((k1.pcb_at p).pid ≡ (k.pcb_at p).pid)
        × ((k1.pcb_at p).user_sp ≡ (k.pcb_at p).user_sp)
        × (k1.mm.page_at ≡ k.mm.page_at)
  unfolding release_pcb
  release_pcb_lem k q s ls p here t ne =
      let pid = (k.pcb_at p).pid in
      let k1 : Kernel Disk = record (set_status k p exited) {
        threads = upd k.threads pid (k.threads pid - 1);
      } in
      let k2 = set_links k1 (list_delete_entry (links k1) (pcb_list p)) in
      let s2 = IsSystem-removed s (pcb_list p) y.ready_queue s.ready here in
      let queue : (j : ℕ)
          → j < lock_num
          → removed q (pcb_list p) y.ready_queue (y.block_queue j) ≡ q (y.block_queue j) =
        λ j h. ground (arith, ls.not_ready j h) in
      let l =
        release_locks-IsSystem lock_num 0 pid k2 (removed q (pcb_list p) y.ready_queue)
          (omega arith) s2
          (record {
            queues = ls.queues;
            not_ready = ls.not_ready;
            own = ls.own;
            held = λ j h free. queue j h ∙ ls.held j h free;
          }) in
      let k3 = release_locks y lock_num 0 pid k2 in
      let u = unblock_all_lem y is_head nodes (pcb_wait_list p) k3 l.0 t ne l.1 in
      let st =
        Steady-trans (release_locks-Steady y lock_num 0 pid k2)
          (unblock_all-Steady y list_fuel k3 u.0 (pcb_wait_list p) u.2) in
      let same : (pid == pid) ≡ true = ground arith in
      let self : (p == p) ≡ true = ground arith in
      let present : removed q (pcb_list p) y.ready_queue y.present_pages_queue
          ≡ q y.present_pages_queue =
        ground (arith, s.ready.not_present) in
      (
        u.0,
        u.1,
        u.2,
        u.3.system,
        u.3.others y.present_pages_queue (λ z. s.ready.not_present (sym z))
              (λ z. t.not_present (sym z))
            ∙ l.2
            ∙ present,
        st.running,
        ap (λ (f : ℕ → ℕ). f pid) st.threads ∙ rw same refl,
        st.pids p ∙ rw self refl,
        st.stacks p ∙ rw self refl,
        st.pages,
      )
