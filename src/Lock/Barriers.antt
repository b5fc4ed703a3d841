-- ===== src/Lock/Barriers.antt =====
-- Barriers and conditions.
use ucas_os_kernel.Base.{
  ℕ, ◌+◌, ◌≡◌, refl, ◌≢◌, Bool, true, false, List, [], ◌∷◌, ◌++◌, some, arith, ap, ◌∙◌, has, length,
  length-append, keep-all, keep-none, ◌==◌, Bool-cases, inl, inr,
}
use ucas_os_kernel.Base.Int.{pos, ◌+ℤ◌, ltb_ℤ}
use ucas_os_kernel.Queue.{Ptr}
use ucas_os_kernel.Queue.Rep.{View, moved-to}
use ucas_os_kernel.Layout.{Layout, pcb_list, pcb_entry}
use ucas_os_kernel.Mm.State.{Bios}
use ucas_os_kernel.Kernel.{ready, Kernel, Barrier}
use ucas_os_kernel.Sched.System.{TaskQueue, IsSystem}
use ucas_os_kernel.Sched.Block.{do_block_lem}
use ucas_os_kernel.Lock.{set_barrier, do_barrier_wait}
use ucas_os_kernel.Lock.Waking.{unblock_all_lem}

-- The barrier's count is the number of tasks that wait at it.
pub record IsBarrier (b : Barrier) (waiters : List Ptr) : Type 0 where
  pub count : b.current ≡ pos (length waiters)

pos-+ℤ-one : (n : ℕ) → pos n +ℤ pos 1 ≡ pos (n + 1)
unfolding ◌+ℤ◌
pos-+ℤ-one n = ground arith

module _ {Disk : Type 0} (y : Layout) (k : Kernel Disk) (q : View) (i : ℕ) where
  -- Whether a task that arrives has to wait.
  abbrev pub must_wait : Bool
  must_wait = ltb_ℤ (pos (length (q (y.block_list i)) + 1)) (k.barriers i).goal

module _ {Disk : Type 0} (y : Layout) (is_head : Ptr → Bool) (nodes : List Ptr) (k : Kernel Disk)
    (q : View) (i : ℕ) where
  pub record Arrived (k' : Kernel Disk) (q' : View) : Type 0 where
    pub system : IsSystem y is_head nodes k'.mm q'
    pub counted : IsBarrier (k'.barriers i) (q' (y.block_list i))
    pub goal : (k'.barriers i).goal ≡ (k.barriers i).goal
    pub blocks :
        must_wait y k q i ≡ true
        → q' (y.block_list i) ≡ q (y.block_list i) ++ (pcb_list k.current_running ∷ [])
    pub opens :
        must_wait y k q i ≡ false
        → (q' (y.block_list i) ≡ [])
          × (q' y.ready_queue ≡ q y.ready_queue ++ q (y.block_list i))
          × ((n : Ptr)
              → has n (q (y.block_list i)) ≡ true
              → (k'.pcb_at (pcb_entry n)).status ≡ ready)
          × (k'.current_running ≡ k.current_running)

module _ {Disk : Type 0} (bios : Bios Disk) (y : Layout) {is_head : Ptr → Bool} {nodes : List Ptr}
    (k : Kernel Disk) (q : View) (i : ℕ) (s : IsSystem y is_head nodes k.mm q)
    (t : TaskQueue y is_head (y.block_list i)) where
  -- In a well-formed kernel whose running task is in a task queue other than the barrier's, for
  -- a barrier whose count is the number of tasks that wait at it, do_barrier_wait ends without a
  -- fault and keeps the count right and the goal: if with this task fewer than the goal have
  -- come, it is appended to the waiters; else all waiters become ready in order of arrival,
  -- nobody waits any more, and the task goes on.
  pub do_barrier_wait_lem :
      (from : Ptr)
      → TaskQueue y is_head from
      → from ≢ y.block_list i
      → y.ready_queue ≢ y.block_list i
      → has (pcb_list k.current_running) (q from) ≡ true
      → IsBarrier (k.barriers i) (q (y.block_list i))
      → (k' : Kernel Disk) × (q' : View) × (do_barrier_wait bios y k i ≡ some k')
        × Arrived y is_head nodes k q i k' q'
  unfolding do_barrier_wait
  do_barrier_wait_lem from f ne nr here b =
      let ws = q (y.block_list i) in
      let n = pcb_list k.current_running in
      let arrive : (k.barriers i).current +ℤ pos 1 ≡ pos (length ws + 1) =
        rw (b.count) (pos-+ℤ-one (length ws)) in
      let self : (i == i) ≡ true = ground arith in
      let k1 = set_barrier k i (record (k.barriers i) { current = pos (length ws + 1) }) in
      elim (Bool-cases (must_wait y k q i)) [
        | inl w ↦
            let r = do_block_lem bios y k1 q n from (y.block_list i) s f t here in
            let queue : r.1 (y.block_list i) ≡ ws ++ (n ∷ []) =
              r.4 (y.block_list i) t.not_present t.not_swapped
              ∙ moved-to q n from (y.block_list i) ne in
            rw (arrive, self, w)
              (
                _,
                r.1,
                r.2,
                record {
                  system = r.3;
                  counted = record { count = rw (self, queue, length-append) refl };
                  goal = rw self refl;
                  blocks = λ z. queue;
                  opens = λ z. absurd (ground (arith, z, w));
                },
              )
        | inr w ↦
            let r = unblock_all_lem y is_head nodes (y.block_list i) k1 q t nr s in
            let left : r.1 (y.block_list i) ≡ [] = r.3.asleep ∙ keep-none ws in
            let same : r.0.barriers ≡ k1.barriers =
              ap {A = Kernel Disk} (λ k. k.barriers) r.3.state in
            rw (arrive, self, w, r.2)
              (
                _,
                r.1,
                refl,
                record {
                  system = r.3.system;
                  counted = record { count = rw (self, left) refl };
                  goal = rw (self, same, self) refl;
                  blocks = λ z. absurd (ground (arith, z, w));
                  opens = λ z. (
                    left,
                    r.3.woken ∙ ap (λ ns. q y.ready_queue ++ ns) (keep-all ws),
                    λ m im. r.3.set_ready m (rw keep-all im),
                    ap {A = Kernel Disk} (λ k. k.current_running) r.3.state,
                  );
                },
              )
      ]
