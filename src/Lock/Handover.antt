-- ===== src/Lock/Handover.antt =====
-- Mutexes against their specification: an owner, and the tasks that wait in order of arrival.
use ucas_os_kernel.Base.{
  ℕ, ◌≡◌, refl, ◌≢◌, Bool, true, false, List, [], ◌∷◌, ◌++◌, Option, none, some, arith, ◌∙◌, ap,
  has, has-append, is_nil, ◌==◌, if◌then◌else◌, Bool-cases, inl, inr,
}
use ucas_os_kernel.Queue.{Ptr, is_queue_empty}
use ucas_os_kernel.Queue.Rep.{
  View, moved, moved-to, moved-from, moved-other, is_queue_empty-Rep, next-Rep,
}
use ucas_os_kernel.Layout.{Layout, pcb_list, pcb_entry}
use ucas_os_kernel.Mm.State.{Bios}
use ucas_os_kernel.Kernel.{ready, Kernel, links}
use ucas_os_kernel.Sched.{do_unblock}
use ucas_os_kernel.Sched.System.{TaskQueue, IsSystem}
use ucas_os_kernel.Sched.Block.{do_block_lem, do_unblock_lem}
use ucas_os_kernel.Lock.{set_mutex, do_mutex_lock_acquire, do_mutex_lock_release}

-- The specification: the owner's process id if there is one, and the nodes of those that wait.
pub record LockView : Type 0 where
  pub owner : Option ℕ
  pub waiters : List Ptr

abbrev pub acquire_view : (pid : ℕ) (node : Ptr) → LockView → LockView
acquire_view pid node v = elim (v.owner) [
  | none ↦ record { owner = some pid; waiters = v.waiters }
  | some o ↦ record { owner = some o; waiters = v.waiters ++ (node ∷ []) }
]

abbrev pub release_view : (pid_of : Ptr → ℕ) → LockView → LockView
release_view pid_of v = elim (v.waiters) [
  | [] ↦ record { owner = none; waiters = [] }
  | x ∷ xs ↦ record { owner = some (pid_of x); waiters = xs }
]

module _ {Disk : Type 0} (y : Layout) where
  abbrev pub lock_view : Kernel Disk → View → ℕ → LockView
  lock_view k q i = record {
    owner = if (k.mlocks i).locked then some (k.mlocks i).pid else none;
    waiters = q (y.block_queue i);
  }

  -- Nobody waits for a free lock.
  abbrev pub IsHeld : Kernel Disk → View → ℕ → Type 0
  IsHeld k q i = (k.mlocks i).locked ≡ false → q (y.block_queue i) ≡ []

module _ {Disk : Type 0} (y : Layout) (is_head : Ptr → Bool) (nodes : List Ptr) (k : Kernel Disk)
    (q : View) (i : ℕ) where
  -- What a release leaves.
  pub record Released (k' : Kernel Disk) (q' : View) : Type 0 where
    pub system : IsSystem y is_head nodes k'.mm q'
    pub view :
        lock_view y k' q' i ≡ release_view (λ n. (k.pcb_at (pcb_entry n)).pid) (lock_view y k q i)
    pub held : IsHeld y k' q' i
    pub others : (j : ℕ) → j ≢ i → k'.mlocks j ≡ k.mlocks j
    pub lists : (h : Ptr) → h ≢ y.block_queue i → h ≢ y.ready_queue → q' h ≡ q h
    pub stays_ready : (m : Ptr) → has m (q y.ready_queue) ≡ true → has m (q' y.ready_queue) ≡ true
    pub running : k'.current_running ≡ k.current_running
    pub next_ready :
        (n : Ptr) (xs : List Ptr)
        → q (y.block_queue i) ≡ n ∷ xs
        → (q' y.ready_queue ≡ q y.ready_queue ++ (n ∷ []))
          × ((k'.pcb_at (pcb_entry n)).status ≡ ready)

  -- What an acquisition leaves.
  pub record Acquired (k' : Kernel Disk) (q' : View) : Type 0 where
    pub system : IsSystem y is_head nodes k'.mm q'
    pub view :
        lock_view y k' q' i
        ≡ acquire_view
            (k.pcb_at k.current_running).pid
            (pcb_list k.current_running)
            (lock_view y k q i)
    pub held : IsHeld y k' q' i
    pub others : (j : ℕ) → j ≢ i → k'.mlocks j ≡ k.mlocks j
    pub runs_on : (k.mlocks i).locked ≡ false → k'.current_running ≡ k.current_running

pub release-mailboxes :
    {Disk : Type 0} (y : Layout) (k : Kernel Disk) (i : ℕ)
    → (do_mutex_lock_release y k i).mailboxes ≡ k.mailboxes
unfolding do_mutex_lock_release do_unblock
release-mailboxes y k i = elim (Bool-cases (is_queue_empty (links k) (y.block_queue i))) [
  | inl e ↦ rw e refl
  | inr e ↦ rw e refl
]

do_unblock-mlocks :
    {Disk : Type 0} (y : Layout) (k : Kernel Disk) (n : Ptr) → (do_unblock y k n).mlocks ≡ k.mlocks
unfolding do_unblock
do_unblock-mlocks y k n = refl

module _ {Disk : Type 0} (y : Layout) {is_head : Ptr → Bool} {nodes : List Ptr} (k : Kernel Disk)
    (q : View) (i : ℕ) (s : IsSystem y is_head nodes k.mm q)
    (t : TaskQueue y is_head (y.block_queue i)) (ne : y.block_queue i ≢ y.ready_queue) where
  released :
      (xs : List Ptr)
      → q (y.block_queue i) ≡ xs
      → IsHeld y k q i
      → (q' : View) × Released y is_head nodes k q i (do_mutex_lock_release y k i) q'
  unfolding do_mutex_lock_release
  released [] e h =
      let empty : is_queue_empty (links k) (y.block_queue i) ≡ true =
        is_queue_empty-Rep s.paged.rep (y.block_queue i) t.head ∙ ap is_nil e in
      let self : (i == i) ≡ true = ground arith in
      rw empty (
        q,
        record {
          system = s;
          view = rw (self, e) refl;
          held = λ z. e;
          others = λ j nj. ground arith;
          lists = λ j a b. refl;
          stays_ready = λ m a. a;
          running = refl;
          next_ready = λ n xs e'. absurd (ground (arith, e, e'));
        },
      )
  released (n ∷ xs) e h =
      let some_wait : is_queue_empty (links k) (y.block_queue i) ≡ false =
        is_queue_empty-Rep s.paged.rep (y.block_queue i) t.head ∙ ap is_nil e in
      let first = next-Rep s.paged.rep (y.block_queue i) n xs t.head e in
      let self : (i == i) ≡ true = ground arith in
      let inside : has n (q (y.block_queue i)) ≡ true = rw e (ground arith) in
      let k1 = set_mutex k i (record (k.mlocks i) { pid = (k.pcb_at (pcb_entry n)).pid }) in
      let u = do_unblock_lem y k1 q n (y.block_queue i) s t inside in
      let locked : (k.mlocks i).locked ≡ true =
        ground (arith, h, e, Bool-cases (k.mlocks i).locked) in
      let locks = do_unblock-mlocks y k1 n in
      let gone : moved q n (y.block_queue i) y.ready_queue (y.block_queue i) ≡ xs =
        moved-from q n (y.block_queue i) y.ready_queue ne ∙ rw e (ground arith) in
      rw (some_wait, first)
        (
          moved q n (y.block_queue i) y.ready_queue,
          record {
            system = u.0;
            view = rw (locks, self, locked, gone, e) refl;
            held = λ z. absurd (ground (arith, locks, locked, z));
            others = λ j nj. rw locks (ground arith);
            lists = λ j a b. moved-other q n (y.block_queue i) y.ready_queue j a b;
            stays_ready = λ m a. ground (
              arith,
              moved-to q n (y.block_queue i) y.ready_queue ne,
              has-append m (q y.ready_queue) (n ∷ []),
            );
            running = u.3;
            next_ready = λ m ys e'.
                (let same : m ≡ n = ground (arith, e, e') in
                  rw same (moved-to q n (y.block_queue i) y.ready_queue ne, u.1));
          },
        )

  -- In a well-formed kernel, for a mutex whose queue is a task queue other than the ready queue
  -- and that nobody waits for while it is free, do_mutex_lock_release does what the
  -- specification of a lock with an owner and waiters does: the first waiter becomes the owner
  -- and is appended to the ready queue, ready, or the lock becomes free if nobody waits; again
  -- nobody waits for it while it is free, and other mutexes and lists stay.
  pub release_lem :
      IsHeld y k q i → (q' : View) × Released y is_head nodes k q i (do_mutex_lock_release y k i) q'
  release_lem h = released (q (y.block_queue i)) refl h

module _ {Disk : Type 0} (bios : Bios Disk) (y : Layout) {is_head : Ptr → Bool} {nodes : List Ptr}
    (k : Kernel Disk) (q : View) (i : ℕ) (s : IsSystem y is_head nodes k.mm q)
    (t : TaskQueue y is_head (y.block_queue i)) where
  -- In a well-formed kernel whose running task is in a task queue other than the mutex's, for a
  -- mutex that nobody waits for while it is free, do_mutex_lock_acquire ends without a fault and
  -- does what the specification does: the running task becomes the owner of a free lock and goes
  -- on, or is appended to the waiters of a held one, whose owner stays; again nobody waits for
  -- the lock while it is free, and other mutexes stay.
  pub acquire_lem :
      (from : Ptr)
      → TaskQueue y is_head from
      → from ≢ y.block_queue i
      → has (pcb_list k.current_running) (q from) ≡ true
      → IsHeld y k q i
      → (k' : Kernel Disk) × (q' : View) × (do_mutex_lock_acquire bios y k i ≡ some k')
        × Acquired y is_head nodes k q i k' q'
  unfolding do_mutex_lock_acquire
  acquire_lem from f ne here h = elim (Bool-cases (k.mlocks i).locked) [
    | inl l ↦
        let self : (i == i) ≡ true = ground arith in
        let n = pcb_list k.current_running in
        let k1 = set_mutex k i (record (k.mlocks i) { locked = true }) in
        let b = do_block_lem bios y k1 q n from (y.block_queue i) s f t here in
        let queue =
          b.4 (y.block_queue i) t.not_present t.not_swapped
          ∙ moved-to q n from (y.block_queue i) ne in
        rw l (
          _,
          b.1,
          b.2,
          record {
            system = b.3;
            view = rw (self, l, queue) refl;
            held = λ z. absurd (ground (arith, z));
            others = λ j nj. ground arith;
            runs_on = λ z. absurd (ground (arith, z));
          },
        )
    | inr l ↦
        let self : (i == i) ≡ true = ground arith in
        rw (l, self)
          (
            _,
            q,
            refl,
            record {
              system = s;
              view = rw (self, l) refl;
              held = λ z. absurd (ground (arith, z));
              others = λ j nj. ground arith;
              runs_on = λ z. refl;
            },
          )
  ]
