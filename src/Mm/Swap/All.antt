-- ===== src/Mm/Swap/All.antt =====
-- `swap_in_all_pages` and `add_new_pre_page` of kernel/mm/mm.c, on the page queues.
use ucas_os_kernel.Base.{
  ℕ, ◌+◌, ◌<◌, ◌≤◌, ◌≡◌, refl, ◌≢◌, Bool, true, false, ◌||◌, ◌&&◌, ◌==◌, List, [], ◌∷◌, ◌++◌, arith,
  sym, ◌∙◌, ap, subst, has, keep, fun_ext, ◌⊎◌, distinct, remove, length, Bool-cases, inl, inr,
  some, length-append, remove_middle, has_middle, has-remove_ne, has-append, append_assoc, IsFirst,
  find_index_hit,
}
use ucas_os_kernel.Base.Int.{pos, ◌+ℤ◌, ltb_ℤ}
use ucas_os_kernel.Queue.{Ptr, list_add_tail}
use ucas_os_kernel.Queue.Rep.{
  View, IsFree, appended, moved, moved-to, moved-from, moved-other, add_tail-Rep,
}
use ucas_os_kernel.Queue.Iterate.{list_for_each_safe_lem}
use ucas_os_kernel.Layout.{Layout, page_ptr, page_list, page_entry, list_fuel}
use ucas_os_kernel.Mm.State.{Mm, Bios}
use ucas_os_kernel.Mm.Swap.{
  max_pfn, max_present_pfn, swap_in, swap_in_one, swap_in_all_pages, add_new_pre_page, set_page,
}
use ucas_os_kernel.Mm.Swap.Lists.{IsPaged, swap_in-IsPaged, swap_in-pgdirs}

-- Two views agree but for the page queues.
abbrev pub SameElsewhere : Layout → View → View → Type 0
SameElsewhere y q q' =
    (h : Ptr) → h ≢ y.present_pages_queue → h ≢ y.swapped_pages_queue → q' h ≡ q h

-- Whether a node is that of a page of the page table.
abbrev pub is_of : {Disk : Type 0} → Mm Disk → (pgdir : ℕ) → Ptr → Bool
is_of m pgdir n = (m.page_at (page_entry n)).pgdir == pgdir

keep-snoc :
    (f : Ptr → Bool) (xs : List Ptr) (n : Ptr)
    → keep f xs ≡ []
    → f n ≡ false
    → keep f (xs ++ (n ∷ [])) ≡ []
keep-snoc f [] n e h = ground arith
keep-snoc f (x ∷ xs) n e h = ground (arith, keep-snoc f xs n)

module _ {Disk : Type 0} (bios : Bios Disk) (y : Layout) (is_head : Ptr → Bool) (q0 : View)
    (pgdir total : ℕ) where
  abbrev pages_of : View → ℕ
  pages_of q = length (q y.present_pages_queue) + length (q y.swapped_pages_queue)

  -- Whether a node is that of a page in either queue.
  abbrev is_page : View → Ptr → Bool
  is_page q n = has n (q y.present_pages_queue) || has n (q y.swapped_pages_queue)

  -- What holds before and after each round.
  abbrev pub Swapping : Mm Disk → View → (pre xs : List Ptr) → Type 0
  Swapping m q pre xs =
      IsPaged y is_head m q
      × SameElsewhere y q0 q
      × (pages_of q ≡ total)
      × (length (q y.present_pages_queue) ≤ max_present_pfn)
      × (q y.swapped_pages_queue ≡ pre ++ xs)
      × ((k : Ptr) → is_page q k ≡ true → is_page q0 k ≡ true)
      × ((keep (is_of m pgdir) pre ≡ []) ⊎ (length (q y.present_pages_queue) ≡ max_present_pfn))

  swap_in_one-Swapping :
      (n : Ptr) (m : Mm Disk) (q : View) (pre xs : List Ptr)
      → Swapping m q pre (n ∷ xs)
      → (m' : Mm Disk) × (q' : View) × (pre' : List Ptr) × (swap_in_one bios y pgdir n m ≡ some m')
        × Swapping m' q' pre' xs
  unfolding swap_in_one
  swap_in_one-Swapping n m q pre xs s =
      let e = s.4 in
      let p = s.0 in
      let i : has n (q y.swapped_pages_queue) ≡ true = rw e (has_middle n pre xs) in
      let back : page_list (page_entry n) ≡ n = omega (arith, p.swapped_nodes n i) in
      let ne : y.swapped_pages_queue ≢ y.present_pages_queue = λ z. p.two (sym z) in
      let q' = moved q n y.swapped_pages_queue y.present_pages_queue in
      let next = swap_in-IsPaged bios y is_head m q (page_entry n) p (rw back i) in
      let next' : IsPaged y is_head (swap_in bios y m (page_entry n)) q' = rw back at next in
      let unique =
        subst (λ (zs : List Ptr). distinct zs ≡ true) e
          (p.rep.no_dup y.swapped_pages_queue p.swapped_head) in
      let left : q' y.swapped_pages_queue ≡ pre ++ xs =
        moved-from q n y.swapped_pages_queue y.present_pages_queue ne
        ∙ ap (remove n) e
        ∙ remove_middle n pre xs unique in
      let grown = moved-to q n y.swapped_pages_queue y.present_pages_queue ne in
      elim (Bool-cases (
        (m.page_at (page_entry n)).pgdir == pgdir
        && ltb_ℤ m.present_pages_num (pos max_present_pfn))) [
          | inl t ↦
              let room : length (q' y.present_pages_queue) ≤ max_present_pfn = ground (
                arith,
                p.count,
                ap length grown,
                length-append (q y.present_pages_queue) (n ∷ []),
              ) in
              let same : is_of (swap_in bios y m (page_entry n)) pgdir ≡ is_of m pgdir =
                fun_ext (λ k.
                  ap (λ (d : ℕ). d == pgdir)
                    (swap_in-pgdirs bios y is_head m (page_entry n) (page_entry k))) in
              let later : (keep (is_of (swap_in bios y m (page_entry n)) pgdir) pre ≡ [])
                  ⊎ (length (q' y.present_pages_queue) ≡ max_present_pfn) =
                elim (s.6) [
                  | inl none_left ↦ inl (rw same none_left)
                  | inr full ↦ absurd (ground (arith, p.count, full))
                ] in
              (
                swap_in bios y m (page_entry n),
                q',
                pre,
                rw t,
                (
                  next',
                  λ h np ns.
                      moved-other q n y.swapped_pages_queue y.present_pages_queue h ns np
                      ∙ s.1 h np ns,
                  omega (
                    arith,
                    s.2,
                    ap length grown,
                    ap length left,
                    ap length e,
                    length-append (q y.present_pages_queue) (n ∷ []),
                    length-append pre xs,
                    length-append pre (n ∷ xs),
                  ),
                  room,
                  left,
                  λ k h. ground (
                    arith,
                    s.5 k,
                    i,
                    grown,
                    moved-from q n y.swapped_pages_queue y.present_pages_queue ne,
                    has-append k (q y.present_pages_queue) (n ∷ []),
                    has-remove_ne k n (q y.swapped_pages_queue),
                  ),
                  later,
                ),
              )
          | inr t ↦ (
            m,
            q,
            pre ++ (n ∷ []),
            rw t,
            (
              s.0,
              s.1,
              s.2,
              s.3,
              e ∙ sym (append_assoc pre (n ∷ []) xs),
              s.5,
              elim (Bool-cases (is_of m pgdir n)) [
                | inl of ↦ inr (ground (arith, p.count, s.3))
                | inr other ↦ elim (s.6) [
                  | inl none_left ↦ inl (keep-snoc (is_of m pgdir) pre n none_left other)
                  | inr full ↦ inr full
                ]
              ],
            ),
          )
        ]

  -- With well-formed page queues, no more present pages than MAX_PRESENT_PFN and fewer swapped
  -- pages than the fuel, swap_in_all_pages ends without a fault, keeps the queues well-formed,
  -- the number of pages and the bound on present pages, and touches no other list; no page of
  -- the page table stays swapped out unless the present pages have reached the bound.
  pub swap_in_all_lem :
      (m : Mm Disk)
      → IsPaged y is_head m q0
      → pages_of q0 ≡ total
      → length (q0 y.present_pages_queue) ≤ max_present_pfn
      → length (q0 y.swapped_pages_queue) < list_fuel
      → (m' : Mm Disk) × (q' : View) × (left : List Ptr) × (swap_in_all_pages bios y m pgdir
          ≡ some m')
        × Swapping m' q' left []
  unfolding swap_in_all_pages
  swap_in_all_lem m p t b h =
      list_for_each_safe_lem (λ (s : Mm Disk). s.links) (swap_in_one bios y pgdir)
        y.swapped_pages_queue p.swapped_head Swapping (λ s q pre xs i. (i.0.rep, i.4))
        swap_in_one-Swapping list_fuel m q0 (p, λ k np ns. refl, t, b, refl, λ k i. i, inl refl) h

module _ {Disk : Type 0} (y : Layout) (is_head : Ptr → Bool) where
  -- With well-formed page queues, where i is the first unused page_t and its node is in no list,
  -- add_new_pre_page fills that page_t with a new id, puts it behind the present pages and
  -- counts it.
  pub add_new_pre_page-IsPaged :
      (m : Mm Disk) (q : View) (uva kva pgdir i : ℕ)
      → IsPaged y is_head m q
      → IsFirst max_pfn 0 (λ i. (m.page_at (page_ptr y i)).page_id == 0) i
      → IsFree is_head q (page_list (page_ptr y i))
      → (m' : Mm Disk) × (add_new_pre_page y m uva kva pgdir ≡ some m')
        × IsPaged y is_head m' (appended q (page_list (page_ptr y i)) y.present_pages_queue)
        × (m'.page_at (page_ptr y i) ≡ record (m.page_at (page_ptr y i)) {
          uva = uva;
          kva = kva;
          page_id = m.page_id + 1;
          pgdir = pgdir;
        })
  unfolding add_new_pre_page ◌+ℤ◌
  add_new_pre_page-IsPaged m q uva kva pgdir i p first free =
      let hit = find_index_hit max_pfn 0 (λ i. (m.page_at (page_ptr y i)).page_id == 0) i first in
      let self : (page_ptr y i == page_ptr y i) ≡ true = ground arith in
      let n = page_list (page_ptr y i) in
      let same : (y.present_pages_queue == y.present_pages_queue) ≡ true = ground arith in
      let other : (y.swapped_pages_queue == y.present_pages_queue) ≡ false =
        ground (arith, p.two) in
      rw hit (
        record (set_page m (page_ptr y i) (record (m.page_at (page_ptr y i)) {
          uva = uva;
          kva = kva;
          page_id = m.page_id + 1;
          pgdir = pgdir;
        })) {
          page_id = m.page_id + 1;
          links = list_add_tail m.links n y.present_pages_queue;
          present_pages_num = m.present_pages_num +ℤ pos 1;
        },
        refl,
        record {
          rep = add_tail-Rep p.rep n y.present_pages_queue p.present_head free;
          present_head = p.present_head;
          swapped_head = p.swapped_head;
          two = p.two;
          present_nodes = λ k h.
              ground (arith, p.present_nodes k, has-append k (q y.present_pages_queue) (n ∷ []));
          swapped_nodes = λ k h. ground (arith, p.swapped_nodes k);
          count = rw (p.count, same, length-append) (ground arith);
        },
        rw self,
      )
