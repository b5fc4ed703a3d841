-- ===== src/Sched/Wake.antt =====
-- The loops of `check_sleeping`, `check_net_send` and `check_net_recv`, and `do_scheduler`.
use ucas_os_kernel.Base.{
  ℕ, ◌≡◌, refl, ◌≢◌, Bool, true, false, not, List, [], ◌∷◌, ◌++◌, arith, sym, ◌∙◌, ap, subst, has,
  keep, has-keep, keep-has, distinct, remove, leb, ◌==◌, Bool-cases, inl, inr, some, append_assoc,
  append-nil, has_middle, remove_middle, if◌then◌else◌,
}
use ucas_os_kernel.Queue.{Ptr}
use ucas_os_kernel.Queue.Rep.{View, moved, moved-to, moved-from, moved-other}
use ucas_os_kernel.Queue.Iterate.{list_for_each_safe_lem}
use ucas_os_kernel.Layout.{Layout, pcb_list, pcb_entry, list_fuel}
use ucas_os_kernel.Mm.State.{Mm}
use ucas_os_kernel.Kernel.{TaskStatus, Pcb, ready, Kernel, links}
use ucas_os_kernel.Sched.{do_unblock, wake_one, check_sleeping, get_timer}
use ucas_os_kernel.Sched.System.{TaskQueue, IsSystem, length-lt}
use ucas_os_kernel.Sched.Block.{do_unblock_lem}

module _ {Disk : Type 0} (y : Layout) (k : Kernel Disk) (n : Ptr) where
  do_unblock-state :
      do_unblock y k n ≡ record k { mm = (do_unblock y k n).mm; pcb_at = (do_unblock y k n).pcb_at }
  unfolding do_unblock
  do_unblock-state = refl

  do_unblock-times :
      (p : Ptr) → ((do_unblock y k n).pcb_at p).wakeup_time ≡ (k.pcb_at p).wakeup_time
  unfolding do_unblock
  do_unblock-times p = ground arith

  do_unblock-pids : (p : Ptr) → ((do_unblock y k n).pcb_at p).pid ≡ (k.pcb_at p).pid
  unfolding do_unblock
  do_unblock-pids p = ground arith

  do_unblock-memory : (do_unblock y k n).mm ≡ record (k.mm) { links = (do_unblock y k n).mm.links }
  unfolding do_unblock
  do_unblock-memory = refl

  do_unblock-blocks :
      (p : Ptr)
      → (do_unblock y k n).pcb_at p
        ≡ record (k.pcb_at p) { status = ((do_unblock y k n).pcb_at p).status }
  unfolding do_unblock
  do_unblock-blocks p = elim (Bool-cases (p == pcb_entry n)) [
    | inl e ↦ let same : p ≡ pcb_entry n = ground arith in rw (e, same) refl
    | inr e ↦ rw e refl
  ]

module _ {Disk : Type 0} (y : Layout) (is_head : Ptr → Bool) (nodes : List Ptr) (head : Ptr)
    (k0 : Kernel Disk) (q0 : View) (test : Ptr → Bool) where
  -- The loop over the list of `head` that started in `k0` has `xs` before it: the nodes so far at
  -- which `test` holds went to the ready queue in order, the others stayed.
  pub record Waking (k : Kernel Disk) (q : View) (pre xs : List Ptr) : Type 0 where
    pub system : IsSystem y is_head nodes k.mm q
    pub here : q head ≡ pre ++ xs
    pub woken : q y.ready_queue ++ keep test xs ≡ q0 y.ready_queue ++ keep test (q0 head)
    pub asleep : pre ++ keep (λ n. not (test n)) xs ≡ keep (λ n. not (test n)) (q0 head)
    pub others : (h : Ptr) → h ≢ y.ready_queue → h ≢ head → q h ≡ q0 h
    pub state : k ≡ record k0 { mm = k.mm; pcb_at = k.pcb_at }
    pub memory : k.mm ≡ record (k0.mm) { links = k.mm.links }
    pub blocks : (p : Ptr) → k.pcb_at p ≡ record (k0.pcb_at p) { status = (k.pcb_at p).status }
    pub times : (p : Ptr) → (k.pcb_at p).wakeup_time ≡ (k0.pcb_at p).wakeup_time
    pub pids : (p : Ptr) → (k.pcb_at p).pid ≡ (k0.pcb_at p).pid
    pub set_ready :
        (n : Ptr)
        → has n (keep test (q0 head)) ≡ true
        → has n xs ≡ false
        → (k.pcb_at (pcb_entry n)).status ≡ ready
    pub inside : (j : Ptr) → has j xs ≡ true → has j (q0 head) ≡ true
    pub kept : (p : Ptr) → has (pcb_list p) (keep test (q0 head)) ≡ false → k.pcb_at p ≡ k0.pcb_at p

  pub Waking-step :
      (n : Ptr) (k : Kernel Disk) (q : View) (pre xs : List Ptr)
      → TaskQueue y is_head head
      → y.ready_queue ≢ head
      → Waking k q pre (n ∷ xs)
      → test n ≡ true
      → Waking (do_unblock y k (pcb_list (pcb_entry n))) (moved q n head y.ready_queue) pre xs
  Waking-step n k q pre xs t ne w hit =
      let i : has n (q head) ≡ true = rw w.here (has_middle n pre xs) in
      let back : pcb_list (pcb_entry n) ≡ n = omega (arith, w.system.tasks head n t i) in
      let u = do_unblock_lem y k q n head w.system t i in
      let unique =
        subst (λ (zs : List Ptr). distinct zs ≡ true) w.here
          (w.system.paged.rep.no_dup head t.head) in
      let ne' : head ≢ y.ready_queue = λ e. ne (sym e) in
      rw back (record {
        system = u.0;
        here =
            moved-from q n head y.ready_queue ne'
            ∙ ap (remove n) w.here
            ∙ remove_middle n pre xs unique;
        woken = rw (moved-to q n head y.ready_queue ne', append_assoc) (rw hit at w.woken);
        asleep = rw hit at w.asleep;
        others = λ h nr nh. moved-other q n head y.ready_queue h nh nr ∙ w.others h nr nh;
        state =
            do_unblock-state y k n
            ∙ ap {A = Kernel Disk}
                (λ k'. record k' { mm = (do_unblock y k n).mm; pcb_at = (do_unblock y k n).pcb_at })
                w.state;
        memory =
            do_unblock-memory y k n
            ∙ ap {A = Mm Disk} (λ m. record m { links = (do_unblock y k n).mm.links }) w.memory;
        blocks = λ p.
            do_unblock-blocks y k n p
            ∙ ap {A = Pcb} (λ c. record c { status = ((do_unblock y k n).pcb_at p).status })
                (w.blocks p);
        times = λ p. do_unblock-times y k n p ∙ w.times p;
        pids = λ p. do_unblock-pids y k n p ∙ w.pids p;
        set_ready = λ j hj nj. ground (arith, u.1, u.2 (pcb_entry j), w.set_ready j);
        inside = λ j h. w.inside j (ground arith);
        kept = λ p h.
            (let picked : has n (keep test (q0 head)) ≡ true =
                keep-has test (q0 head) n (w.inside n (ground arith)) hit in
              let ne : p ≢ pcb_entry n = λ e. ground (arith, ap pcb_list e, back) in
              u.2 p ne ∙ w.kept p h);
      })

  Waking-skip :
      (n : Ptr) (k : Kernel Disk) (q : View) (pre xs : List Ptr)
      → Waking k q pre (n ∷ xs)
      → test n ≡ false
      → Waking k q (pre ++ (n ∷ [])) xs
  Waking-skip n k q pre xs w miss =
      let no : (j : Ptr) → test j ≡ true → j ≢ n = λ j tj e. ground (arith, ap test e) in
      record {
        system = w.system;
        here = w.here ∙ sym (append_assoc pre (n ∷ []) xs);
        woken = rw miss at w.woken;
        asleep = rw append_assoc (rw miss at w.asleep);
        others = w.others;
        state = w.state;
        memory = w.memory;
        blocks = w.blocks;
        times = w.times;
        pids = w.pids;
        set_ready =
            λ j hj nj. w.set_ready j hj (ground (arith, has-keep test (q0 head) j hj, no j));
        inside = λ j h. w.inside j (ground arith);
        kept = w.kept;
      }

  -- What such a loop leaves when it ends.
  pub record Woken (k : Kernel Disk) (q : View) : Type 0 where
    pub system : IsSystem y is_head nodes k.mm q
    pub woken : q y.ready_queue ≡ q0 y.ready_queue ++ keep test (q0 head)
    pub asleep : q head ≡ keep (λ n. not (test n)) (q0 head)
    pub others : (h : Ptr) → h ≢ y.ready_queue → h ≢ head → q h ≡ q0 h
    pub state : k ≡ record k0 { mm = k.mm; pcb_at = k.pcb_at }
    pub memory : k.mm ≡ record (k0.mm) { links = k.mm.links }
    pub blocks : (p : Ptr) → k.pcb_at p ≡ record (k0.pcb_at p) { status = (k.pcb_at p).status }
    pub set_ready :
        (n : Ptr) → has n (keep test (q0 head)) ≡ true → (k.pcb_at (pcb_entry n)).status ≡ ready
    pub pids : (p : Ptr) → (k.pcb_at p).pid ≡ (k0.pcb_at p).pid
    pub kept : (p : Ptr) → has (pcb_list p) (keep test (q0 head)) ≡ false → k.pcb_at p ≡ k0.pcb_at p

  pub Woken-end : (k : Kernel Disk) (q : View) (pre : List Ptr) → Waking k q pre [] → Woken k q
  Woken-end k q pre w = record {
    system = w.system;
    woken = sym (append-nil (q y.ready_queue)) ∙ w.woken;
    asleep = w.here ∙ w.asleep;
    others = w.others;
    state = w.state;
    memory = w.memory;
    blocks = w.blocks;
    set_ready = λ n h. w.set_ready n h refl;
    pids = w.pids;
    kept = w.kept;
  }

  pub Waking-start : IsSystem y is_head nodes k0.mm q0 → Waking k0 q0 [] (q0 head)
  Waking-start s = record {
    system = s;
    here = refl;
    woken = refl;
    asleep = refl;
    others = λ h nr nh. refl;
    state = refl;
    memory = refl;
    blocks = λ p. refl;
    times = λ p. refl;
    pids = λ p. refl;
    set_ready = λ n i o. ground (arith, has-keep test (q0 head) n i);
    inside = λ j h. h;
    kept = λ p h. refl;
  }

-- The state of the task at `p` once the tasks of `nodes` were set ready.
abbrev pub status_after : {Disk : Type 0} → Kernel Disk → (nodes : List Ptr) → Ptr → TaskStatus
status_after k nodes p = if has (pcb_list p) nodes then ready else (k.pcb_at p).status

pub Woken-status :
    {Disk : Type 0} (y : Layout) (is_head : Ptr → Bool) (nodes : List Ptr) (head : Ptr)
    (k0 : Kernel Disk) (q0 : View) (test : Ptr → Bool) (k : Kernel Disk) (q : View) (p : Ptr)
    → Woken y is_head nodes head k0 q0 test k q
    → (k.pcb_at p).status ≡ status_after k0 (keep test (q0 head)) p
Woken-status y is_head nodes head k0 q0 test k q p w =
    elim (Bool-cases (has (pcb_list p) (keep test (q0 head)))) [
      | inl i ↦
          let back : pcb_entry (pcb_list p) ≡ p = omega arith in
          rw i (subst (λ (r : ℕ). (k.pcb_at r).status ≡ ready) back (w.set_ready (pcb_list p) i))
      | inr o ↦ rw o (ap (λ (c : Pcb). c.status) (w.kept p o))
    ]

-- Whether the task of node `n` is to wake up.
abbrev pub due : {Disk : Type 0} → Kernel Disk → Ptr → Bool
due k n = leb (k.pcb_at (pcb_entry n)).wakeup_time (get_timer k)

module _ {Disk : Type 0} (y : Layout) {is_head : Ptr → Bool} {nodes : List Ptr} (k0 : Kernel Disk)
    (q0 : View) (s : IsSystem y is_head nodes k0.mm q0) where
  wake_one-Waking :
      (n : Ptr) (k : Kernel Disk) (q : View) (pre xs : List Ptr)
      → TaskQueue y is_head y.sleep_queue
      → y.ready_queue ≢ y.sleep_queue
      → Waking y is_head nodes y.sleep_queue k0 q0 (due k0) k q pre (n ∷ xs)
      → (k' : Kernel Disk) × (q' : View) × (pre' : List Ptr) × (wake_one y n k ≡ some k')
        × Waking y is_head nodes y.sleep_queue k0 q0 (due k0) k' q' pre' xs
  unfolding wake_one
  wake_one-Waking n k q pre xs t ne w =
      let now : get_timer k ≡ get_timer k0 = ap {A = Kernel Disk} (λ k'. get_timer k') w.state in
      let same : due k n ≡ due k0 n = rw (w.times, now) in
      elim (Bool-cases (due k0 n)) [
        | inl d ↦ (
          do_unblock y k (pcb_list (pcb_entry n)),
          moved q n y.sleep_queue y.ready_queue,
          pre,
          rw (same, d),
          Waking-step y is_head nodes y.sleep_queue k0 q0 (due k0) n k q pre xs t ne w d,
        )
        | inr d ↦ (
          k,
          q,
          pre ++ (n ∷ []),
          rw (same, d),
          Waking-skip y is_head nodes y.sleep_queue k0 q0 (due k0) n k q pre xs w d,
        )
      ]

  -- In a well-formed kernel, check_sleeping ends without a fault and moves exactly the sleepers
  -- whose wake-up time has come to the end of the ready queue, in order, and sets them ready,
  -- while the others stay asleep in order, the other queues keep their tasks, and nothing of the
  -- kernel changes but the links of lists and the status of the tasks woken.
  pub check_sleeping_lem :
      TaskQueue y is_head y.sleep_queue
      → y.ready_queue ≢ y.sleep_queue
      → (k : Kernel Disk) × (q : View) × (check_sleeping y k0 ≡ some k)
        × Woken y is_head nodes y.sleep_queue k0 q0 (due k0) k q
  unfolding check_sleeping
  check_sleeping_lem t ne =
      let r =
        list_for_each_safe_lem links (wake_one y) y.sleep_queue t.head
          (Waking y is_head nodes y.sleep_queue k0 q0 (due k0))
          (λ k q pre xs w. (w.system.paged.rep, w.here))
          (λ n k q pre xs w. wake_one-Waking n k q pre xs t ne w) list_fuel k0 q0
          (Waking-start y is_head nodes y.sleep_queue k0 q0 (due k0) s)
          (length-lt s y.sleep_queue t.head) in
      (r.0, r.1, r.3, Woken-end y is_head nodes y.sleep_queue k0 q0 (due k0) r.0 r.1 r.2 r.4)
