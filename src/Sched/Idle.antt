-- ===== src/Sched/Idle.antt =====
-- `find_idle_task` and what calls it at the end: which task runs next.
use ucas_os_kernel.Base.{
  ℕ, ◌+◌, ◌-◌, ◌<◌, ◌≡◌, refl, ◌≢◌, Bool, true, not, ◌==◌, List, [], ◌∷◌, arith, sym, ap, upd,
  is_nil, length, if◌then◌else◌, inl, inr, Option-cases, Bool-cases, keep, append-nil, ◌⊎◌, ◌∙◌,
  false, some, none, ◌>>=◌,
}
use ucas_os_kernel.Queue.{Ptr}
use ucas_os_kernel.Queue.Rep.{View, is_queue_empty-Rep}
use ucas_os_kernel.Queue.Iterate.{find, has-find, find_entry-Chain}
use ucas_os_kernel.Layout.{Layout, pcb_entry, list_fuel}
use ucas_os_kernel.Mm.State.{Mm, Bios}
use ucas_os_kernel.Mm.Swap.{max_present_pfn}
use ucas_os_kernel.Mm.Swap.All.{SameElsewhere, is_of, swap_in_all_lem}
use ucas_os_kernel.Kernel.{TaskStatus, running, is_running, Kernel, links, set_status}
use ucas_os_kernel.Sched.{
  idle_pcb, choose_task, find_idle_task, switch_pgdir, switch_to, reschedule,
}
use ucas_os_kernel.Sched.System.{IsSystem, IsSystem-paged, length-lt}

-- The task that processor `cpu` is to run, given the states of the tasks and the ready ones: the
-- first that does not run already, or the processor's own idle task.
abbrev pub next_of : Layout → (cpu : ℕ) → (Ptr → TaskStatus) → List Ptr → Ptr
next_of y cpu status tasks = elim (find (λ n. not (is_running (status (pcb_entry n)))) tasks) [
  | none ↦ if cpu == 0 then y.pid0_pcb else y.pid0_pcb2
  | some n ↦ pcb_entry n
]

abbrev pub next_task : {Disk : Type 0} → Layout → Kernel Disk → List Ptr → Ptr
next_task y k tasks = next_of y k.cpu (λ p. (k.pcb_at p).status) tasks

-- What `find_idle_task` leaves: the chosen task `p` runs on this processor, and `m` is the memory.
abbrev pub chosen : {Disk : Type 0} → Kernel Disk → Ptr → Mm Disk → Kernel Disk
chosen k p m =
    let k1 = set_status (record k { current_running = p }) p running in
    record k1 { runnings = upd k1.runnings k1.cpu p; mm = m }

module _ {Disk : Type 0} (y : Layout) where
  choose-cases :
      (k : Kernel Disk) (test : Ptr → Bool) (tasks : List Ptr)
      → (if is_nil tasks
          then some (idle_pcb y k)
          else (some (find test tasks) >>= λ found. elim found [
            | none ↦ some (idle_pcb y k)
            | some n ↦ some (pcb_entry n)
          ]))
        ≡ some (elim (find test tasks) [ none ↦ idle_pcb y k | some n ↦ pcb_entry n ])
  choose-cases k test [] = refl
  choose-cases k test (x ∷ xs) = ground arith

module _ {Disk : Type 0} (bios : Bios Disk) (y : Layout) {is_head : Ptr → Bool}
    {nodes : List Ptr} where
  choose_task_lem :
      (k : Kernel Disk) (q : View)
      → IsSystem y is_head nodes k.mm q
      → choose_task y k ≡ some (next_task y k (q y.ready_queue))
  unfolding choose_task
  choose_task_lem k q s =
      let r = s.paged.rep in
      let eh = s.ready.head in
      let test : Ptr → Bool = λ n. not (is_running (k.pcb_at (pcb_entry n)).status) in
      let empty = is_queue_empty-Rep r y.ready_queue eh in
      let search =
        find_entry-Chain (links k) test list_fuel y.ready_queue y.ready_queue (q y.ready_queue)
          (r.chain y.ready_queue eh) (r.no_head y.ready_queue y.ready_queue eh eh)
          (length-lt s y.ready_queue eh) in
      rw (empty, search) (choose-cases y k test (q y.ready_queue))

  -- In a well-formed kernel find_idle_task ends without a fault: the task chosen is the first
  -- ready one that no processor runs, else this processor's idle task; it is marked running and
  -- recorded for the processor, no page of its page table stays swapped out unless as many pages
  -- are present as may be, and no task queue changes.
  pub find_idle_task_lem :
      (k : Kernel Disk) (q : View)
      → IsSystem y is_head nodes k.mm q
      → (m : Mm Disk) × (q' : View) × (find_idle_task bios y k
          ≡ some (chosen k (next_task y k (q y.ready_queue)) m))
        × IsSystem y is_head nodes m q'
        × SameElsewhere y q q'
        × ((keep
                (is_of m (k.pcb_at (next_task y k (q y.ready_queue))).pgdir)
                (q' y.swapped_pages_queue)
              ≡ [])
            ⊎ (length (q' y.present_pages_queue) ≡ max_present_pfn))
  unfolding find_idle_task
  find_idle_task_lem k q s =
      let p = next_task y k (q y.ready_queue) in
      let pages = length (q y.present_pages_queue) + length (q y.swapped_pages_queue) in
      let self : (p == p) ≡ true = ground arith in
      let w =
        swap_in_all_lem bios y is_head q (k.pcb_at p).pgdir pages k.mm s.paged refl s.room
          (length-lt s y.swapped_pages_queue s.paged.swapped_head) in
      (
        w.0,
        w.1,
        rw (choose_task_lem k q s, self, w.3),
        IsSystem-paged s w.0 w.1 w.4.0 w.4.1 w.4.3 w.4.5,
        w.4.1,
        elim (w.4.6) [
          | inl e ↦ inl (ap (keep (is_of w.0 (k.pcb_at p).pgdir)) (w.4.4 ∙ append-nil w.2) ∙ e)
          | inr full ↦ inr full
        ],
      )

-- What `do_block` and `do_scheduler` leave: the chosen task, its page table and its context.
abbrev pub resumed : {Disk : Type 0} → Kernel Disk → Ptr → Mm Disk → Kernel Disk
resumed k p m = switch_to (switch_pgdir (chosen k p m)) k.current_running p

module _ {Disk : Type 0} (bios : Bios Disk) (y : Layout) {is_head : Ptr → Bool}
    {nodes : List Ptr} where
  pub reschedule_lem :
      (k : Kernel Disk) (q : View) (before : Ptr)
      → IsSystem y is_head nodes k.mm q
      → (m : Mm Disk) × (q' : View) × (reschedule bios y k before
          ≡ some (resumed k (next_task y k (q y.ready_queue)) m))
        × IsSystem y is_head nodes m q'
        × SameElsewhere y q q'
  unfolding reschedule
  reschedule_lem k q before s =
      let f = find_idle_task_lem bios y k q s in (f.0, f.1, rw f.2, f.3, f.4)

-- Each other processor runs a task that is marked as running and is not this one's idle task.
abbrev pub OthersRun : {Disk : Type 0} → Layout → Kernel Disk → Type 0
OthersRun y k =
    (c : ℕ)
    → c ≢ k.cpu
    → (is_running (k.pcb_at (k.runnings c)).status ≡ true) × (k.runnings c ≢ idle_pcb y k)

-- The processor that does not run the code, of the two that there are.
abbrev pub other_cpu : {Disk : Type 0} → Kernel Disk → ℕ
other_cpu k = 1 - k.cpu

next_task-apart :
    {Disk : Type 0} (y : Layout) (k : Kernel Disk) (tasks : List Ptr) (r : Ptr)
    → is_running (k.pcb_at r).status ≡ true
    → r ≢ idle_pcb y k
    → next_task y k tasks ≢ r
next_task-apart y k tasks r run not_idle =
    elim (Option-cases (find (λ n. not (is_running (k.pcb_at (pcb_entry n)).status)) tasks)) [
      | inl e ↦ rw (e, next_task, next_of) (λ z. not_idle (sym z))
      | inr f ↦
          let idle =
            (has-find (λ n. not (is_running (k.pcb_at (pcb_entry n)).status)) tasks f.0 f.1).1 in
          rw (f.1, next_task, next_of)
            (λ z. ground (arith, idle, run, ap (λ p. is_running (k.pcb_at p).status) z))
    ]

-- The two tasks that the processors then run, whichever of them this is.
chosen-exclusive :
    {Disk : Type 0} (k : Kernel Disk) (p : Ptr) (m : Mm Disk)
    → k.cpu < 2
    → is_running (k.pcb_at (k.runnings (other_cpu k))).status ≡ true
    → p ≢ k.runnings (other_cpu k)
    → (is_running ((chosen k p m).pcb_at ((chosen k p m).runnings 0)).status ≡ true)
      × (is_running ((chosen k p m).pcb_at ((chosen k p m).runnings 1)).status ≡ true)
      × ((chosen k p m).runnings 0 ≢ (chosen k p m).runnings 1)
chosen-exclusive k p m two run ne =
    let self : (p == p) ≡ true = ground arith in
    elim (Bool-cases (k.cpu == 0)) [
      | inl e ↦
          let other : 1 - k.cpu ≡ 1 = ground (arith, e) in
          let not_one : (1 == k.cpu) ≡ false = ground (arith, e) in
          let here : (0 == k.cpu) ≡ true = ground (arith, e) in
          let runs =
            ap (λ (c : ℕ). is_running (k.pcb_at (k.runnings c)).status) (sym other) ∙ run in
          let ne1 : p ≢ k.runnings 1 = λ z. ne (z ∙ ap k.runnings (sym other)) in
          let apart : (k.runnings 1 == p) ≡ false = ground (arith, ne1) in
          rw (here, not_one, self, apart) (refl, runs, ne1)
      | inr e ↦
          let other : 1 - k.cpu ≡ 0 = ground (arith, e, two) in
          let not_zero : (0 == k.cpu) ≡ false = ground (arith, e) in
          let here : (1 == k.cpu) ≡ true = ground (arith, e, two) in
          let runs =
            ap (λ (c : ℕ). is_running (k.pcb_at (k.runnings c)).status) (sym other) ∙ run in
          let ne0 : p ≢ k.runnings 0 = λ z. ne (z ∙ ap k.runnings (sym other)) in
          let apart : (k.runnings 0 == p) ≡ false = ground (arith, ne0) in
          rw (here, not_zero, self, apart) (runs, refl, λ z. ne0 (sym z))
    ]

-- In a well-formed kernel with two processors, where the task of the other processor is marked
-- running and is not this one's idle task, find_idle_task ends without a fault, and both
-- processors then have tasks that are marked running and are not the same.
pub find_idle_task-exclusive :
    {Disk : Type 0} (bios : Bios Disk) (y : Layout) {is_head : Ptr → Bool} {nodes : List Ptr}
    (k : Kernel Disk) (q : View)
    → IsSystem y is_head nodes k.mm q
    → k.cpu < 2
    → is_running (k.pcb_at (k.runnings (other_cpu k))).status ≡ true
    → k.runnings (other_cpu k) ≢ idle_pcb y k
    → (k' : Kernel Disk) × (find_idle_task bios y k ≡ some k')
      × (is_running (k'.pcb_at (k'.runnings 0)).status ≡ true)
      × (is_running (k'.pcb_at (k'.runnings 1)).status ≡ true)
      × (k'.runnings 0 ≢ k'.runnings 1)
find_idle_task-exclusive bios y k q s two run not_idle =
    let f = find_idle_task_lem bios y k q s in
    let p = next_task y k (q y.ready_queue) in
    let apart = next_task-apart y k (q y.ready_queue) (k.runnings (other_cpu k)) run not_idle in
    let e = chosen-exclusive k p f.0 two run apart in (chosen k p f.0, f.2, e.0, e.1, e.2)
