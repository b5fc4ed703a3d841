-- ===== src/Mm/Teardown.antt =====
-- `free_pagetable` and `free_pgdir` of kernel/mm/mm.c.
use ucas_os_kernel.Base.{ℕ, zero, suc, ◌+◌, ◌||◌, Option, some, ◌>>=◌, ◌==◌, upd, if◌then◌else◌}
use ucas_os_kernel.Layout.{Layout}
use ucas_os_kernel.Mm.Pgtable.{num_pte_entry, page_size, get_uva_from_vpns}
use ucas_os_kernel.Mm.State.{zero_range, Mm}
use ucas_os_kernel.Mm.Kalloc.{kfree}
use ucas_os_kernel.Mm.Table.{entry_at, table_of}
use ucas_os_kernel.Mm.Swap.{free_page_with_uva}

abbrev pub kernel_va_vpn2 : ℕ
kernel_va_vpn2 = 0x101

abbrev pub io_remap_va_vpn2 : ℕ
io_remap_va_vpn2 = 0x180

module _ {Disk : Type 0} (y : Layout) (pgdir : ℕ) where
  -- The loop over the entries of a last-level table, with `n` left from entry `i` on. `none` is an
  -- assertion that fails: a mapped page that is in neither page queue.
  unfoldable pub free_ptes : (n i vpn2 vpn1 pte : ℕ) → Mm Disk → Option (Mm Disk)
  free_ptes zero i vpn2 vpn1 pte m = some m
  free_ptes (suc n) i vpn2 vpn1 pte m =
      let next = free_ptes n (i + 1) vpn2 vpn1 pte m in
      let freed = do
        m1 ← free_page_with_uva y m (get_uva_from_vpns vpn2 vpn1 i) pgdir
        free_ptes n (i + 1) vpn2 vpn1 pte (record m1 { mem = upd m1.mem (entry_at pte i) 0 })
      in if m.mem (entry_at pte i) == 0 then next else freed

  -- The loop over a middle table.
  unfoldable pub free_pmd : (n i vpn2 pmd : ℕ) → Mm Disk → Option (Mm Disk)
  free_pmd zero i vpn2 pmd m = some m
  free_pmd (suc n) i vpn2 pmd m =
      let next = free_pmd n (i + 1) vpn2 pmd m in
      let pte = table_of (m.mem (entry_at pmd i)) in
      let freed = do
        m1 ← free_ptes num_pte_entry 0 vpn2 i pte m
        free_pmd n (i + 1) vpn2 pmd (kfree m1 pte)
      in if m.mem (entry_at pmd i) == 0 then next else freed

  -- The loop over the directory, which leaves the kernel's entries.
  unfoldable pub free_tables : (n i : ℕ) → Mm Disk → Option (Mm Disk)
  free_tables zero i m = some m
  free_tables (suc n) i m =
      let next = free_tables n (i + 1) m in
      let pmd = table_of (m.mem (entry_at pgdir i)) in
      let freed = do
        m1 ← free_pmd num_pte_entry 0 i pmd m
        free_tables n (i + 1) (kfree (record m1 { mem = zero_range m1.mem pmd page_size }) pmd)
      in if (m.mem (entry_at pgdir i) == 0) || (i == kernel_va_vpn2) || (i == io_remap_va_vpn2)
        then next
        else freed

  unfoldable pub free_pagetable : Mm Disk → Option (Mm Disk)
  free_pagetable m = free_tables num_pte_entry 0 m

  unfoldable pub free_pgdir : Mm Disk → Mm Disk
  free_pgdir m = kfree (record m { mem = zero_range m.mem pgdir page_size }) pgdir
