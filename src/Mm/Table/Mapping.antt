-- ===== src/Mm/Table/Mapping.antt =====
-- `map_uva_to_kva` against the lookups.
use ucas_os_kernel.Base.{ℕ, ◌+◌, ◌-◌, ◌*◌, ◌/◌, ◌%◌, ◌^◌, ◌<◌, ◌≤◌, ◌≡◌, ◌≢◌, List, arith, some}
use ucas_os_kernel.Base.Bits.{bit_and_mask, bit_or_disjoint}
use ucas_os_kernel.Mm.Pgtable.{
  word, page_size, kva2pa, pa2kva, get_pa, page_user_attrs, kernel_vm_offset, page_offset,
}
use ucas_os_kernel.Mm.Pgtable.Entry.{get_pa_lem, set_entry}
use ucas_os_kernel.Mm.State.{Mm}
use ucas_os_kernel.Mm.Kalloc.Pool.{IsPool}
use ucas_os_kernel.Mm.Table.{get_pte_of_uva, get_kva_of_uva, map_uva_to_kva}
use ucas_os_kernel.Mm.Table.Walk.{
  slot2, slot1, slot0, vpn-lt, IsPath, Tables, Tables-walk, get_kva_lem, user_entry,
  user_entry-ne-zero, map_lem,
}

module _ {Disk : Type 0} (m : Mm Disk) (free : List ℕ) (frontier uva kva pgdir : ℕ) where
  -- With a well-formed free list, page tables in use along the walk and room for two more pages,
  -- after map_uva_to_kva the lookup of the address finds the entry written, and get_kva_of_uva
  -- gives the page plus the address's offset.
  pub map-get :
      IsPool m free frontier
      → IsPath m.mem free frontier pgdir uva
      → frontier + 2 * page_size < word
      → kernel_vm_offset ≤ kva
      → kva + page_size ≤ word
      → kva % page_size ≡ 0
      → let m' = map_uva_to_kva m uva kva pgdir in
        (p : ℕ) × (get_pte_of_uva m'.mem uva pgdir ≡ some p)
        × (m'.mem p ≡ user_entry kva)
        × (get_kva_of_uva m'.mem uva pgdir ≡ kva + uva % page_size)
  unfolding page_offset pa2kva kva2pa
  map-get pool path r lo hi al =
      let mp = map_lem m free frontier uva kva pgdir pool path r in
      let m' = map_uva_to_kva m uva kva pgdir in
      let ne : m'.mem (slot0 mp.pte uva) ≢ 0 =
        rw mp.entry (user_entry-ne-zero kva lo (omega (arith, hi))) in
      let found = Tables-walk m'.mem mp.free' mp.frontier' pgdir uva mp.pmd mp.pte mp.tables ne in
      let e = set_entry (kva2pa kva / 2 ^ 12) page_user_attrs (omega arith) (omega arith) in
      let pa : get_pa (user_entry kva) ≡ (kva - kernel_vm_offset) / 2 ^ 12 * 2 ^ 12 =
        rw (e, get_pa_lem) (omega arith) in
      let joined =
        bit_or_disjoint 12 ((kva - kernel_vm_offset) / 2 ^ 12) (uva % 2 ^ 12) (omega arith) in
      (
        slot0 mp.pte uva,
        found,
        mp.entry,
        rw
            (
              get_kva_lem m'.mem uva pgdir (slot0 mp.pte uva) found,
              mp.entry,
              bit_and_mask 12 uva,
              pa,
              joined,
            )
            (omega (arith, lo, hi, al)),
      )

  -- Under the same conditions, any other complete walk, of this or another page table, none of
  -- whose entries is the one written, finds the same entry with the same content after
  -- map_uva_to_kva.
  pub map-other :
      (pgdir' uva' pmd' pte' : ℕ)
      → IsPool m free frontier
      → IsPath m.mem free frontier pgdir uva
      → frontier + 2 * page_size < word
      → kernel_vm_offset ≤ kva
      → kva < word
      → Tables m.mem free frontier pgdir' uva' pmd' pte'
      → m.mem (slot0 pte' uva') ≢ 0
      → let m' = map_uva_to_kva m uva kva pgdir in
        ((p : ℕ)
          → get_pte_of_uva m'.mem uva pgdir ≡ some p
          → (slot2 pgdir' uva' ≢ p) × (slot1 pmd' uva' ≢ p) × (slot0 pte' uva' ≢ p))
        → (get_pte_of_uva m.mem uva' pgdir' ≡ some (slot0 pte' uva'))
          × (get_pte_of_uva m'.mem uva' pgdir' ≡ some (slot0 pte' uva'))
          × (m'.mem (slot0 pte' uva') ≡ m.mem (slot0 pte' uva'))
  map-other pgdir' uva' pmd' pte' pool path r lo hi t ne other =
      let v = vpn-lt uva' in
      let mp = map_lem m free frontier uva kva pgdir pool path r in
      let m' = map_uva_to_kva m uva kva pgdir in
      let set : m'.mem (slot0 mp.pte uva) ≢ 0 = rw mp.entry (user_entry-ne-zero kva lo hi) in
      let o =
        other (slot0 mp.pte uva)
          (Tables-walk m'.mem mp.free' mp.frontier' pgdir uva mp.pmd mp.pte mp.tables set) in
      let e2 =
        mp.filled pgdir' (slot2 pgdir' uva') t.pgdir_used (omega arith) (omega (arith, v)) t.at2
          o.0 in
      let e1 =
        mp.filled pmd' (slot1 pmd' uva') t.pmd_used (omega arith) (omega (arith, v)) t.at1 o.1 in
      let e0 =
        mp.filled pte' (slot0 pte' uva') t.pte_used (omega arith) (omega (arith, v)) ne o.2 in
      let t' : Tables m'.mem free frontier pgdir' uva' pmd' pte' = record {
        pgdir_used = t.pgdir_used;
        pmd_used = t.pmd_used;
        pte_used = t.pte_used;
        pmd_ne = t.pmd_ne;
        pte_ne = t.pte_ne;
        pte_ne_pmd = t.pte_ne_pmd;
        at2 = rw e2 t.at2;
        to_pmd = rw e2 t.to_pmd;
        at1 = rw e1 t.at1;
        to_pte = rw e1 t.to_pte;
      } in
      (
        Tables-walk m.mem free frontier pgdir' uva' pmd' pte' t ne,
        Tables-walk m'.mem free frontier pgdir' uva' pmd' pte' t' (rw e0 ne),
        e0,
      )
