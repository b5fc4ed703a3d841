-- ===== src/Mm/Table.antt =====
-- The three-level page tables of kernel/mm/mm.c: lookup, mapping, sharing.
pub mod Grow
pub mod Walk
pub mod Mapping
use ucas_os_kernel.Base.{
  ℕ, zero, suc, ◌+◌, ◌-◌, ◌*◌, ◌/◌, ◌^◌, Option, none, some, bit_or, ◌==◌, upd, if◌then◌else◌,
}
use ucas_os_kernel.Mm.Pgtable.{
  kva2pa, pa2kva, get_pa, set_pfn, set_attribute, vpn2_of, vpn1_of, vpn0_of, page_offset, page_size,
  page_present, page_user_attrs, num_pte_entry,
}
use ucas_os_kernel.Mm.State.{Mem, zero_range, Mm}
use ucas_os_kernel.Mm.Kalloc.{kalloc}

-- `&table[i]`
abbrev pub entry_at : ℕ → ℕ → ℕ
entry_at table i = table + 8 * i

-- The table that an entry points to, `pa2kva(get_pa(entry))`.
unfoldable pub table_of : ℕ → ℕ
unfolding pa2kva get_pa
table_of entry = pa2kva (get_pa entry)

-- The address of the entry, `none` for `NULL`.
unfoldable pub get_pte_of_uva : Mem → (uva pgdir : ℕ) → Option ℕ
get_pte_of_uva mem uva pgdir =
    let pmd = table_of (mem (entry_at pgdir (vpn2_of uva))) in
    let pte = table_of (mem (entry_at pmd (vpn1_of uva))) in
    if mem (entry_at pgdir (vpn2_of uva)) == 0
    then none
    else if mem (entry_at pmd (vpn1_of uva)) == 0
    then none
    else if mem (entry_at pte (vpn0_of uva)) == 0
    then none
    else some (entry_at pte (vpn0_of uva))

unfoldable pub get_kva_of_uva : Mem → (uva pgdir : ℕ) → ℕ
get_kva_of_uva mem uva pgdir = elim (get_pte_of_uva mem uva pgdir) [
  | none ↦ 0
  | some pte ↦ pa2kva (bit_or (get_pa (mem pte)) (page_offset uva))
]

-- `clear_pgdir`: 512 entries of 8 bytes.
unfoldable pub clear_pgdir : Mem → ℕ → Mem
clear_pgdir mem pgdir_addr = zero_range mem pgdir_addr (8 * num_pte_entry)

-- `share_pgtable`, from entry `i` on with `n` rounds left.
unfoldable pub share_entries : (n i : ℕ) → (dest src : ℕ) → Mem → Mem
share_entries zero i dest src mem = mem
share_entries (suc n) i dest src mem =
    share_entries n (i + 1) dest src
      (if mem (entry_at src i) == 0 then mem else upd mem (entry_at dest i) (mem (entry_at src i)))

module _ {Disk : Type 0} where
  -- The step by which `map_uva_to_kva` allocates a missing table for the entry at `slot`.
  unfoldable pub alloc_table : Mm Disk → (slot : ℕ) → Mm Disk
  unfolding clear_pgdir
  alloc_table m slot =
      if m.mem slot == 0
      then (let (page, m1) = kalloc m in
          let e = set_attribute (set_pfn (kva2pa page / 2 ^ 12)) page_present in
          record m1 { mem = clear_pgdir (upd m1.mem slot e) (table_of e) })
      else m

  unfoldable pub map_uva_to_kva : Mm Disk → (uva kva pgdir : ℕ) → Mm Disk
  map_uva_to_kva m uva kva pgdir =
      let m1 = alloc_table m (entry_at pgdir (vpn2_of uva)) in
      let pmd = table_of (m1.mem (entry_at pgdir (vpn2_of uva))) in
      let m2 = alloc_table m1 (entry_at pmd (vpn1_of uva)) in
      let pte = table_of (m2.mem (entry_at pmd (vpn1_of uva))) in
      record m2 {
        mem =
            upd m2.mem (entry_at pte (vpn0_of uva))
              (set_attribute (set_pfn (kva2pa kva / 2 ^ 12)) page_user_attrs);
      }

  unfoldable pub share_pgtable : Mm Disk → (dest_pgdir src_pgdir : ℕ) → Mm Disk
  unfolding share_entries
  share_pgtable m dest_pgdir src_pgdir = record m {
    mem = share_entries num_pte_entry 0 dest_pgdir src_pgdir m.mem;
  }
