-- ===== src/Mm/Swap/Lists.antt =====
-- The page queues: what each operation does to them, and the count of present pages.
use ucas_os_kernel.Base.{
  ℕ, ◌+◌, ◌≤◌, ◌≡◌, refl, ap, ltb, false, if◌then◌else◌, ◌≢◌, Bool, true, ◌==◌, List, [], ◌∷◌,
  arith, sym, upd, has, remove, length, some, length-append, has-remove_ne, has-append,
}
use ucas_os_kernel.Base.Int.{pos, ◌+ℤ◌, ◌-ℤ◌}
use ucas_os_kernel.Queue.{Ptr, list_add_tail, list_delete_entry}
use ucas_os_kernel.Queue.Rep.{View, Rep, moved, move-Rep, moved-to, moved-from, next-Rep}
use ucas_os_kernel.Layout.{Layout, page_list, page_entry}
use ucas_os_kernel.Mm.Pgtable.{kva2pa, unset_attribute, page_present}
use ucas_os_kernel.Mm.State.{Mm, Bios}
use ucas_os_kernel.Mm.Kalloc.{freemem_kernel, kalloc, kfree}
use ucas_os_kernel.Mm.Table.{alloc_table, map_uva_to_kva, get_pte_of_uva}
use ucas_os_kernel.Mm.Swap.{sectors_per_page, dec_present, swap_out, swap_in}

-- The parts of the state that the free list and the page tables do not touch.
pub record Keeps {Disk : Type 0} (m m' : Mm Disk) : Type 0 where
  pub links : m'.links ≡ m.links
  pub page_at : m'.page_at ≡ m.page_at
  pub page_id : m'.page_id ≡ m.page_id
  pub present_pages_num : m'.present_pages_num ≡ m.present_pages_num
  pub startid : m'.disk_sectors_startid ≡ m.disk_sectors_startid

module _ {Disk : Type 0} where
  pub kalloc-Keeps : (m : Mm Disk) → Keeps m (kalloc m).1
  unfolding kalloc
  kalloc-Keeps m = ground arith

  pub kfree-Keeps : (m : Mm Disk) (a : ℕ) → Keeps m (kfree m a)
  unfolding kfree
  kfree-Keeps m a = ground arith

  kfree_lem :
      (m : Mm Disk) (a : ℕ)
      → freemem_kernel ≤ a
      → ((kfree m a).disk ≡ m.disk)
        × ((kfree m a).freemem_list ≡ a)
        × ((kfree m a).mem ≡ upd m.mem a m.freemem_list)
  unfolding kfree
  kfree_lem m a big =
      let high : ltb a freemem_kernel ≡ false = ground arith in rw high (refl, refl, refl)

  pub alloc_table-Keeps : (m : Mm Disk) (slot : ℕ) → Keeps m (alloc_table m slot)
  unfolding alloc_table
  alloc_table-Keeps m slot = ground (arith, kalloc-Keeps m)

  pub map-Keeps : (m : Mm Disk) (uva kva pgdir : ℕ) → Keeps m (map_uva_to_kva m uva kva pgdir)
  unfolding map_uva_to_kva
  map-Keeps m uva kva pgdir = grind (arith, alloc_table-Keeps)

-- The lists of the memory, with the two page queues among them, and the count of present pages.
pub record IsPaged {Disk : Type 0} (y : Layout) (is_head : Ptr → Bool) (m : Mm Disk) (q : View)
    : Type 0 where
  pub rep : Rep is_head m.links q
  pub present_head : is_head y.present_pages_queue ≡ true
  pub swapped_head : is_head y.swapped_pages_queue ≡ true
  pub two : y.present_pages_queue ≢ y.swapped_pages_queue
  pub present_nodes : (n : Ptr) → has n (q y.present_pages_queue) ≡ true → 24 ≤ n
  pub swapped_nodes : (n : Ptr) → has n (q y.swapped_pages_queue) ≡ true → 24 ≤ n
  pub count : m.present_pages_num ≡ pos (length (q y.present_pages_queue))

pub length-remove : (n : ℕ) (xs : List ℕ) → has n xs ≡ true → length (remove n xs) + 1 ≡ length xs
length-remove n [] h = absurd (ground arith)
length-remove n (x ∷ xs) h = ground (arith, length-remove n xs)

module _ {Disk : Type 0} (bios : Bios Disk) (y : Layout) (is_head : Ptr → Bool) where
  swap_in-links :
      (m : Mm Disk) (page : Ptr)
      → ((swap_in bios y m page).links
          ≡ list_add_tail
              (list_delete_entry m.links (page_list page))
              (page_list page)
              y.present_pages_queue)
        × ((swap_in bios y m page).present_pages_num ≡ m.present_pages_num +ℤ pos 1)
  unfolding swap_in
  swap_in-links m page = grind (arith, map-Keeps, kalloc-Keeps)

  pub swap_in-pgdirs :
      (m : Mm Disk) (page r : Ptr) → ((swap_in bios y m page).page_at r).pgdir ≡ (m.page_at r).pgdir
  unfolding swap_in
  swap_in-pgdirs m page r = grind (arith, map-Keeps, kalloc-Keeps)

  -- With well-formed page queues, swap_in of a swapped page moves it to the end of the present
  -- pages and keeps the queues and the count of present pages right.
  pub swap_in-IsPaged :
      (m : Mm Disk) (q : View) (page : Ptr)
      → IsPaged y is_head m q
      → has (page_list page) (q y.swapped_pages_queue) ≡ true
      → IsPaged y is_head
          (swap_in bios y m page)
          (moved q (page_list page) y.swapped_pages_queue y.present_pages_queue)
  unfolding ◌+ℤ◌
  swap_in-IsPaged m q page p i =
      let e = swap_in-links m page in
      record {
        rep = rw e.0 (
            move-Rep (page_list page) y.swapped_pages_queue y.present_pages_queue p.rep
              p.swapped_head p.present_head i);
        present_head = p.present_head;
        swapped_head = p.swapped_head;
        two = p.two;
        present_nodes = λ n h. ground (
          arith,
          p.present_nodes n,
          p.swapped_nodes (page_list page),
          moved-to q (page_list page) y.swapped_pages_queue y.present_pages_queue ne,
          has-append n (q y.present_pages_queue) (page_list page ∷ []),
        );
        swapped_nodes = λ n h. ground (
          arith,
          p.swapped_nodes n,
          moved-from q (page_list page) y.swapped_pages_queue y.present_pages_queue ne,
          has-remove_ne n (page_list page) (q y.swapped_pages_queue),
        );
        count =
            rw
              (
                e.1,
                p.count,
                moved-to q (page_list page) y.swapped_pages_queue y.present_pages_queue ne,
                length-append,
              )
              (ground arith);
      }
    where
      ne : y.swapped_pages_queue ≢ y.present_pages_queue
      ne z = p.two (sym z)

  -- The state in which `swap_out` ends, for the page of node `n` and its entry at `pte`.
  abbrev unmapped : Mm Disk → (n pte : Ptr) → Mm Disk
  unmapped m n pte =
      let p = page_entry n in
      record m {
        links =
            list_add_tail (list_delete_entry m.links (page_list p)) (page_list p)
              y.swapped_pages_queue;
        disk =
            bios.sdwrite m.mem (kva2pa (m.page_at p).kva) sectors_per_page m.disk_sectors_startid
              m.disk;
        page_at = upd m.page_at p (record (m.page_at p) { sector_id = m.disk_sectors_startid });
        disk_sectors_startid = m.disk_sectors_startid + sectors_per_page;
        mem = upd m.mem pte (unset_attribute (m.mem pte) page_present);
      }

  abbrev swapped_out : Mm Disk → (n pte : Ptr) → Mm Disk
  swapped_out m n pte = dec_present (kfree (unmapped m n pte) (m.page_at (page_entry n)).kva)

  swap_out-eq :
      (m : Mm Disk) (n pte : Ptr)
      → m.links.next y.present_pages_queue ≡ n
      → get_pte_of_uva m.mem (m.page_at (page_entry n)).uva (m.page_at (page_entry n)).pgdir
        ≡ some pte
      → swap_out bios y m ≡ some (swapped_out m n pte)
  unfolding swap_out
  swap_out-eq m n pte e f =
      let self : (page_entry n == page_entry n) ≡ true = ground arith in rw (e, self, f)

  -- With well-formed page queues, and a page n of the kernel's free memory at the head of the
  -- present pages, whose entry is found, swap_out ends without a fault: n is at the end of the
  -- swapped pages, the count of present pages is again the length of their queue, the card is
  -- the old one with the page written at the next free sector, which is noted for the page and
  -- moves on by 8, the page is the first of the free list, and the only words of memory that
  -- change are the entry, which loses PRESENT, and the page's first word, the link of the free
  -- list.
  pub swap_out-IsPaged :
      (m : Mm Disk) (q : View) (n pte : Ptr) (xs : List Ptr)
      → IsPaged y is_head m q
      → q y.present_pages_queue ≡ n ∷ xs
      → get_pte_of_uva m.mem (m.page_at (page_entry n)).uva (m.page_at (page_entry n)).pgdir
        ≡ some pte
      → freemem_kernel ≤ (m.page_at (page_entry n)).kva
      → (m' : Mm Disk) × (swap_out bios y m ≡ some m')
        × IsPaged y is_head m' (moved q n y.present_pages_queue y.swapped_pages_queue)
        × ((m'.page_at (page_entry n)).sector_id ≡ m.disk_sectors_startid)
        × (m'.disk_sectors_startid ≡ m.disk_sectors_startid + sectors_per_page)
        × (m'.disk
            ≡ bios.sdwrite m.mem
                (kva2pa (m.page_at (page_entry n)).kva)
                sectors_per_page
                m.disk_sectors_startid
                m.disk)
        × (m'.freemem_list ≡ (m.page_at (page_entry n)).kva)
        × ((a : ℕ)
            → m'.mem a ≡ (
                if a == (m.page_at (page_entry n)).kva
                then m.freemem_list
                else if a == pte
                then unset_attribute (m.mem pte) page_present
                else m.mem a))
  unfolding ◌-ℤ◌
  swap_out-IsPaged m q n pte xs p e f big =
      let head = next-Rep p.rep y.present_pages_queue n xs p.present_head e in
      let i : has n (q y.present_pages_queue) ≡ true = rw e (ground arith) in
      let back : page_list (page_entry n) ≡ n = omega (arith, p.present_nodes n i) in
      let self : (page_entry n == page_entry n) ≡ true = ground arith in
      let k = kfree-Keeps (unmapped m n pte) (m.page_at (page_entry n)).kva in
      let freed = kfree_lem (unmapped m n pte) (m.page_at (page_entry n)).kva big in
      let gone : remove n (q y.present_pages_queue) ≡ xs = rw e (ground arith) in
      (
        swapped_out m n pte,
        swap_out-eq m n pte head f,
        record {
          rep =
              rw (k.links, back)
                (move-Rep n y.present_pages_queue y.swapped_pages_queue p.rep p.present_head
                  p.swapped_head i);
          present_head = p.present_head;
          swapped_head = p.swapped_head;
          two = p.two;
          present_nodes = λ k h. ground (
            arith,
            p.present_nodes k,
            moved-from q n y.present_pages_queue y.swapped_pages_queue p.two,
            has-remove_ne k n (q y.present_pages_queue),
          );
          swapped_nodes = λ k h. ground (
            arith,
            p.swapped_nodes k,
            p.present_nodes n,
            moved-to q n y.present_pages_queue y.swapped_pages_queue p.two,
            has-append k (q y.swapped_pages_queue) (n ∷ []),
          );
          count =
              rw
                (
                  k.present_pages_num,
                  p.count,
                  moved-from q n y.present_pages_queue y.swapped_pages_queue p.two,
                  e,
                )
                (ground arith);
        },
        rw (k.page_at, self),
        k.startid,
        freed.0,
        freed.1,
        λ a. ap (λ (f : ℕ → ℕ). f a) freed.2,
      )
