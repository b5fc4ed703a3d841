-- ===== src/Mm/Swap.antt =====
-- The `page_t` bookkeeping of kernel/mm/mm.c: present and swapped pages, and freeing them.
-- `none` is a failed assertion, a null entry that is followed, or fuel run out.
pub mod Lists
pub mod All
pub mod Leak
use ucas_os_kernel.Base.{
  ℕ, zero, suc, ◌+◌, ◌*◌, ◌-◌, Bool, true, false, not, ◌&&◌, Option, none, some, ◌>>=◌, ◌==◌, upd,
  find_index, if◌then◌else◌,
}
use ucas_os_kernel.Base.Int.{ℤ, pos, ◌+ℤ◌, ◌-ℤ◌, ltb_ℤ}
use ucas_os_kernel.Queue.{
  Ptr, Links, list_add_tail, list_delete_entry, list_for_each_safe, find_entry,
}
use ucas_os_kernel.Layout.{Layout, page_ptr, page_list, page_entry, list_fuel}
use ucas_os_kernel.Mm.Pgtable.{kva2pa, unset_attribute, page_present}
use ucas_os_kernel.Mm.State.{Page, Mm, Bios}
use ucas_os_kernel.Mm.Kalloc.{kalloc, kfree}
use ucas_os_kernel.Mm.Table.{get_pte_of_uva, map_uva_to_kva}

abbrev pub max_pfn : ℕ
max_pfn = 512

abbrev pub max_present_pfn : ℕ
max_present_pfn = 512

abbrev pub sectors_per_page : ℕ
sectors_per_page = 8

module _ {Disk : Type 0} where
  abbrev pub set_page : Mm Disk → Ptr → Page → Mm Disk
  set_page m p c = record m { page_at = upd m.page_at p c }

  abbrev pub set_links : Mm Disk → Links → Mm Disk
  set_links m l = record m { links = l }

  unfoldable pub reset_page_info : Mm Disk → Ptr → Mm Disk
  reset_page_info m page =
      set_page m page (record (m.page_at page) { page_id = 0; sector_id = 0; uva = 0; kva = 0 })

  -- The two searches: `some none` is `NULL`, else the node of the page.
  unfoldable pub find_page_with_uva :
      Mm Disk → (uva : ℕ) → (pgdir queue : Ptr) → Option (Option Ptr)
  find_page_with_uva m uva pgdir queue =
      find_entry m.links
        (λ n. (m.page_at (page_entry n)).uva == uva && (m.page_at (page_entry n)).pgdir == pgdir)
        list_fuel (m.links.next queue) queue

  unfoldable pub find_page_with_kva : Mm Disk → (kva : ℕ) → (queue : Ptr) → Option (Option Ptr)
  find_page_with_kva m kva queue =
      find_entry m.links (λ n. (m.page_at (page_entry n)).kva == kva) list_fuel (m.links.next queue)
        queue

  -- What both functions do with the page of node `n`: `kfree` is given the `kva` after the reset.
  unfoldable pub drop_page : Mm Disk → Ptr → Mm Disk
  unfolding reset_page_info
  drop_page m n =
      let page = page_entry n in
      let m1 = reset_page_info m page in
      let m2 = set_links m1 (list_delete_entry m1.links (page_list page)) in
      kfree m2 (m2.page_at page).kva

  abbrev pub dec_present : Mm Disk → Mm Disk
  dec_present m = record m { present_pages_num = m.present_pages_num -ℤ pos 1 }

  -- The common tail of the two functions below, on what their two searches find; `assert(0)` where
  -- neither finds a page.
  unfoldable pub free_found : Mm Disk → (present swapped : Option (Option Ptr)) → Option (Mm Disk)
  free_found m present swapped = do
    found ← present
    elim found [
      | some n ↦ some (dec_present (drop_page m n))
      | none ↦ do other ← swapped; n ← other; some (drop_page m n)
    ]

module _ {Disk : Type 0} (y : Layout) where
  unfoldable pub add_new_pre_page : Mm Disk → (uva kva pgdir : ℕ) → Option (Mm Disk)
  add_new_pre_page m uva kva pgdir = do
    i ← find_index max_pfn 0 (λ i. (m.page_at (page_ptr y i)).page_id == 0)
    let p = page_ptr y i
    let id = m.page_id + 1
    let m1 =
        set_page m p (record (m.page_at p) { uva = uva; kva = kva; page_id = id; pgdir = pgdir })
    some (record m1 {
      page_id = id;
      links = list_add_tail m1.links (page_list p) y.present_pages_queue;
      present_pages_num = m1.present_pages_num +ℤ pos 1;
    })

  unfoldable pub free_page_with_uva : Mm Disk → (uva pgdir : ℕ) → Option (Mm Disk)
  free_page_with_uva m uva pgdir =
      free_found m (find_page_with_uva m uva pgdir y.present_pages_queue)
        (find_page_with_uva m uva pgdir y.swapped_pages_queue)

  unfoldable pub free_page_with_kva : Mm Disk → (kva : ℕ) → Option (Mm Disk)
  free_page_with_kva m kva =
      free_found m (find_page_with_kva m kva y.present_pages_queue)
        (find_page_with_kva m kva y.swapped_pages_queue)

module _ {Disk : Type 0} (bios : Bios Disk) (y : Layout) where
  -- FIFO: the page that has been present longest.
  unfoldable pub swap_out : Mm Disk → Option (Mm Disk)
  swap_out m =
      let n = m.links.next y.present_pages_queue in
      let p = page_entry n in
      let start = m.disk_sectors_startid in
      let kva = (m.page_at p).kva in
      let l = list_delete_entry m.links (page_list p) in
      let m1 : Mm Disk = record m {
        links = list_add_tail l (page_list p) y.swapped_pages_queue;
        disk = bios.sdwrite m.mem (kva2pa kva) sectors_per_page start m.disk;
        page_at = upd m.page_at p (record (m.page_at p) { sector_id = start });
        disk_sectors_startid = start + sectors_per_page;
      } in
      get_pte_of_uva m1.mem (m1.page_at p).uva (m1.page_at p).pgdir >>= λ pte.
      (let m2 : Mm Disk = record m1 {
        mem = upd m1.mem pte (unset_attribute (m1.mem pte) page_present);
      } in
        some (dec_present (kfree m2 kva)))

  unfoldable pub swap_in : Mm Disk → Ptr → Mm Disk
  swap_in m page =
      let l = list_delete_entry m.links (page_list page) in
      let m1 = set_links m (list_add_tail l (page_list page) y.present_pages_queue) in
      let (kva, m2) = kalloc m1 in
      let m3 = set_page m2 page (record (m2.page_at page) { kva = kva }) in
      let m4 = map_uva_to_kva m3 (m3.page_at page).uva kva (m3.page_at page).pgdir in
      record m4 {
        mem = bios.sdread m4.disk (kva2pa kva) sectors_per_page (m4.page_at page).sector_id m4.mem;
        page_at = upd m4.page_at page (record (m4.page_at page) { sector_id = 0 });
        present_pages_num = m4.present_pages_num +ℤ pos 1;
      }

  -- The body of the loop of `swap_in_all_pages`, at a node.
  unfoldable pub swap_in_one : (pgdir : ℕ) → Ptr → Mm Disk → Option (Mm Disk)
  swap_in_one pgdir n m =
      if (m.page_at (page_entry n)).pgdir == pgdir
        && ltb_ℤ m.present_pages_num (pos max_present_pfn)
      then some (swap_in m (page_entry n))
      else some m

  unfoldable pub swap_in_all_pages : Mm Disk → (pgdir : ℕ) → Option (Mm Disk)
  swap_in_all_pages m pgdir =
      list_for_each_safe (λ (s : Mm Disk). s.links) (swap_in_one pgdir) y.swapped_pages_queue
        list_fuel m

  -- The page's address, and the state if no assertion fails.
  unfoldable pub alloc_page_helper : Mm Disk → (uva pgdir : ℕ) → Option (ℕ × Mm Disk)
  unfolding swap_out
  alloc_page_helper m uva pgdir =
      let (kva, m1) = kalloc m in
      let m2 = map_uva_to_kva m1 uva kva pgdir in
      (if ltb_ℤ m2.present_pages_num (pos max_present_pfn) then some m2 else swap_out m2) >>= λ m3.
      add_new_pre_page y m3 uva kva pgdir >>= λ m4. some (kva, m4)
