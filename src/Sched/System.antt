-- ===== src/Sched/System.antt =====
-- The lists of the whole kernel: page queues and task queues in one memory of nodes.
use ucas_os_kernel.Base.{
  ◌<◌, ◌≤◌, ◌≡◌, ◌≢◌, Bool, true, ◌||◌, ◌==◌, List, [], ◌∷◌, arith, sym, has, remove, length,
  Bool-cases, inl, inr, has-append, has-remove_ne, length-le_distinct,
}
use ucas_os_kernel.Queue.{Ptr, list_add_tail, list_delete_entry}
use ucas_os_kernel.Queue.Rep.{View, moved, removed, move-Rep, delete-Rep, moved-other}
use ucas_os_kernel.Layout.{Layout, list_fuel}
use ucas_os_kernel.Mm.State.{Mm}
use ucas_os_kernel.Mm.Swap.{max_present_pfn}
use ucas_os_kernel.Mm.Swap.Lists.{IsPaged}
use ucas_os_kernel.Mm.Swap.All.{SameElsewhere}

module _ (y : Layout) (is_head : Ptr → Bool) where
  -- A list head whose nodes are those of tasks.
  pub record TaskQueue (h : Ptr) : Type 0 where
    pub head : is_head h ≡ true
    pub not_present : h ≢ y.present_pages_queue
    pub not_swapped : h ≢ y.swapped_pages_queue

  -- `nodes` are all nodes that there are.
  pub record IsSystem {Disk : Type 0} (nodes : List Ptr) (m : Mm Disk) (q : View) : Type 0 where
    pub paged : IsPaged y is_head m q
    pub ready : TaskQueue y.ready_queue
    pub tasks : (h n : Ptr) → TaskQueue h → has n (q h) ≡ true → 32 ≤ n
    pub known : (h n : Ptr) → is_head h ≡ true → has n (q h) ≡ true → has n nodes ≡ true
    pub few : length nodes < list_fuel
    pub room : length (q y.present_pages_queue) ≤ max_present_pfn

module _ {y : Layout} {is_head : Ptr → Bool} {Disk : Type 0} {nodes : List Ptr} {m : Mm Disk}
    {q : View} (s : IsSystem y is_head nodes m q) where
  -- Each list is short.
  pub length-lt : (h : Ptr) → is_head h ≡ true → length (q h) < list_fuel
  length-lt h eh =
      let b = length-le_distinct (q h) nodes (s.paged.rep.no_dup h eh) (λ n i. s.known h n eh i) in
      omega (arith, b, s.few)

  -- Moving a task's node between task queues keeps the system.
  pub IsSystem-moved :
      (n from to : Ptr)
      → TaskQueue y is_head from
      → TaskQueue y is_head to
      → has n (q from) ≡ true
      → IsSystem y is_head nodes
          (record m { links = list_add_tail (list_delete_entry m.links n) n to })
          (moved q n from to)
  IsSystem-moved n from to f t i =
      let p = s.paged in
      let low = s.tasks from n f i in
      let present : moved q n from to y.present_pages_queue ≡ q y.present_pages_queue =
        moved-other q n from to y.present_pages_queue (λ e. f.not_present (sym e))
          (λ e. t.not_present (sym e)) in
      let swapped : moved q n from to y.swapped_pages_queue ≡ q y.swapped_pages_queue =
        moved-other q n from to y.swapped_pages_queue (λ e. f.not_swapped (sym e))
          (λ e. t.not_swapped (sym e)) in
      record {
        paged = record {
          rep = move-Rep n from to p.rep f.head t.head i;
          present_head = p.present_head;
          swapped_head = p.swapped_head;
          two = p.two;
          present_nodes = λ k h. p.present_nodes k (rw present at h);
          swapped_nodes = λ k h. p.swapped_nodes k (rw swapped at h);
          count = rw present p.count;
        };
        ready = s.ready;
        tasks = λ h k th hk. ground (
          arith,
          s.tasks h k th,
          s.tasks from k f,
          s.tasks to k t,
          low,
          has-append k (q to) (n ∷ []),
          has-append k (q from) (n ∷ []),
          has-append k (remove n (q from)) (n ∷ []),
          has-remove_ne k n (q from),
        );
        known = λ h k eh hk. ground (
          arith,
          s.known h k eh,
          s.known from k f.head,
          s.known to k t.head,
          s.known from n f.head,
          has-append k (q to) (n ∷ []),
          has-append k (q from) (n ∷ []),
          has-append k (remove n (q from)) (n ∷ []),
          has-remove_ne k n (q from),
        );
        few = s.few;
        room = rw present s.room;
      }

  -- Taking a task's node out of its queue keeps the system.
  pub IsSystem-removed :
      (n from : Ptr)
      → TaskQueue y is_head from
      → has n (q from) ≡ true
      → IsSystem y is_head nodes
          (record m { links = list_delete_entry m.links n })
          (removed q n from)
  IsSystem-removed n from f i =
      let p = s.paged in
      let present : removed q n from y.present_pages_queue ≡ q y.present_pages_queue =
        ground (arith, f.not_present) in
      let swapped : removed q n from y.swapped_pages_queue ≡ q y.swapped_pages_queue =
        ground (arith, f.not_swapped) in
      record {
        paged = record {
          rep = delete-Rep p.rep n from f.head i;
          present_head = p.present_head;
          swapped_head = p.swapped_head;
          two = p.two;
          present_nodes = λ k h. p.present_nodes k (rw present at h);
          swapped_nodes = λ k h. p.swapped_nodes k (rw swapped at h);
          count = rw present p.count;
        };
        ready = s.ready;
        tasks = λ h k th hk.
            ground (arith, s.tasks h k th, s.tasks from k f, has-remove_ne k n (q from));
        known = λ h k eh hk.
            ground (arith, s.known h k eh, s.known from k f.head, has-remove_ne k n (q from));
        few = s.few;
        room = rw present s.room;
      }

  -- Moving pages between the page queues keeps the system.
  pub IsSystem-paged :
      (m' : Mm Disk) (q' : View)
      → IsPaged y is_head m' q'
      → SameElsewhere y q q'
      → length (q' y.present_pages_queue) ≤ max_present_pfn
      → ((n : Ptr)
          → (has n (q' y.present_pages_queue) || has n (q' y.swapped_pages_queue)) ≡ true
          → (has n (q y.present_pages_queue) || has n (q y.swapped_pages_queue)) ≡ true)
      → IsSystem y is_head nodes m' q'
  IsSystem-paged m' q' p same room old = record {
    paged = p;
    ready = s.ready;
    tasks = λ h n th i. s.tasks h n th (rw (same h th.not_present th.not_swapped) at i);
    known = λ h n eh i. elim (Bool-cases (h == y.present_pages_queue)) [
      | inl e ↦ let is : h ≡ y.present_pages_queue = ground arith in page n (old n (ground arith))
      | inr e ↦ elim (Bool-cases (h == y.swapped_pages_queue)) [
        | inl e' ↦
            let is : h ≡ y.swapped_pages_queue = ground arith in page n (old n (ground arith))
        | inr e' ↦ s.known h n eh (rw (same h (ground arith) (ground arith)) at i)
      ]
    ];
    few = s.few;
    room = room;
  }
    where
      page :
          (n : Ptr)
          → (has n (q y.present_pages_queue) || has n (q y.swapped_pages_queue)) ≡ true
          → has n nodes ≡ true
      page n i = ground (
        arith,
        s.known y.present_pages_queue n s.paged.present_head,
        s.known y.swapped_pages_queue n s.paged.swapped_head,
      )
