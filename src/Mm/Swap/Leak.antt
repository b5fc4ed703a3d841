-- ===== src/Mm/Swap/Leak.antt =====
-- `free_page_with_uva` of kernel/mm/mm.c, which clears the `kva` of the `page_t` before `kfree` reads it.
use ucas_os_kernel.Base.{
  ℕ, ◌<◌, ◌≡◌, refl, Bool, true, false, ◌&&◌, ◌==◌, arith, length, some, Option, has-remove_ne,
}
use ucas_os_kernel.Base.Int.{◌-ℤ◌}
use ucas_os_kernel.Queue.{Ptr, list_delete_entry}
use ucas_os_kernel.Queue.Rep.{View, Rep, removed, delete-Rep}
use ucas_os_kernel.Queue.Iterate.{find, has-find, find_entry-Chain}
use ucas_os_kernel.Layout.{Layout, page_list, page_entry, list_fuel}
use ucas_os_kernel.Mm.State.{Mm}
use ucas_os_kernel.Mm.Kalloc.{kfree}
use ucas_os_kernel.Mm.Swap.{
  set_links, reset_page_info, drop_page, free_found, dec_present, find_page_with_uva,
  free_page_with_uva,
}
use ucas_os_kernel.Mm.Swap.Lists.{IsPaged, length-remove}

module _ {Disk : Type 0} where
  -- `kfree(0)` does nothing.
  drop_page-eq :
      (m : Mm Disk) (n : Ptr)
      → drop_page m n
        ≡ set_links
            (reset_page_info m (page_entry n))
            (list_delete_entry m.links (page_list (page_entry n)))
  unfolding drop_page kfree
  drop_page-eq m n = let self : (page_entry n == page_entry n) ≡ true = ground arith in rw self

  drop_page-memory :
      (m : Mm Disk) (n : Ptr)
      → ((drop_page m n).mem ≡ m.mem) × ((drop_page m n).freemem_list ≡ m.freemem_list)
  unfolding reset_page_info
  drop_page-memory m n = rw (drop_page-eq m n) (refl, refl)

  drop_page-lists :
      (m : Mm Disk) (n : Ptr)
      → ((drop_page m n).links ≡ list_delete_entry m.links (page_list (page_entry n)))
        × ((drop_page m n).present_pages_num ≡ m.present_pages_num)
        × (((drop_page m n).page_at (page_entry n)).page_id ≡ 0)
  unfolding reset_page_info
  drop_page-lists m n =
      let self : (page_entry n == page_entry n) ≡ true = ground arith in
      rw (drop_page-eq m n, self) (refl, refl, refl)

  free_found-present :
      (m : Mm Disk) (n : Ptr) (swapped : Option (Option Ptr))
      → free_found m (some (some n)) swapped ≡ some (dec_present (drop_page m n))
  unfolding free_found
  free_found-present m n swapped = refl

module _ {Disk : Type 0} (y : Layout) where
  -- The search of a page queue.
  find_page_lem :
      (is_head : Ptr → Bool) (m : Mm Disk) (q : View) (uva pgdir queue : ℕ)
      → Rep is_head m.links q
      → is_head queue ≡ true
      → length (q queue) < list_fuel
      → find_page_with_uva m uva pgdir queue
        ≡ some (
            find
              (λ n.
                (m.page_at (page_entry n)).uva == uva && (m.page_at (page_entry n)).pgdir == pgdir)
              (q queue))
  unfolding find_page_with_uva
  find_page_lem is_head m q uva pgdir queue r eh f =
      find_entry-Chain m.links _ list_fuel queue queue (q queue) (r.chain queue eh)
        (r.no_head queue queue eh eh) f

  -- With well-formed page queues and n the first present page of the address and page table,
  -- free_page_with_uva ends without a fault, takes n out of the present pages, counts it off and
  -- marks its page_t unused, while the free list and every word of memory stay as they were: the
  -- page's memory is not given back.
  pub free_page_with_uva-present :
      (is_head : Ptr → Bool) (m : Mm Disk) (q : View) (uva pgdir : ℕ) (n : Ptr)
      → IsPaged y is_head m q
      → length (q y.present_pages_queue) < list_fuel
      → find
          (λ n. (m.page_at (page_entry n)).uva == uva && (m.page_at (page_entry n)).pgdir == pgdir)
          (q y.present_pages_queue)
        ≡ some n
      → (m' : Mm Disk) × (free_page_with_uva y m uva pgdir ≡ some m')
        × IsPaged y is_head m' (removed q n y.present_pages_queue)
        × ((m'.page_at (page_entry n)).page_id ≡ 0)
        × (m'.freemem_list ≡ m.freemem_list)
        × (m'.mem ≡ m.mem)
  unfolding free_page_with_uva ◌-ℤ◌
  free_page_with_uva-present is_head m q uva pgdir n p f e =
      let found =
        find_page_lem is_head m q uva pgdir y.present_pages_queue p.rep p.present_head f in
      let i = (has-find _ (q y.present_pages_queue) n e).0 in
      let back : page_list (page_entry n) ≡ n = omega (arith, p.present_nodes n i) in
      let d = drop_page-lists m n in
      let kept = drop_page-memory m n in
      let same : (y.present_pages_queue == y.present_pages_queue) ≡ true = ground arith in
      let other : (y.swapped_pages_queue == y.present_pages_queue) ≡ false =
        ground (arith, p.two) in
      (
        dec_present (drop_page m n),
        rw (found, e) (free_found-present m n _),
        record {
          rep = rw (d.0, back) (delete-Rep p.rep n y.present_pages_queue p.present_head i);
          present_head = p.present_head;
          swapped_head = p.swapped_head;
          two = p.two;
          present_nodes =
              λ k h. ground (arith, p.present_nodes k, has-remove_ne k n (q y.present_pages_queue));
          swapped_nodes = λ k h. ground (arith, p.swapped_nodes k);
          count =
              rw (d.1, p.count, same) (ground (arith, length-remove n (q y.present_pages_queue) i));
        },
        d.2,
        kept.1,
        kept.0,
      )
