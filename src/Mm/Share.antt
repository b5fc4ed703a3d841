-- ===== src/Mm/Share.antt =====
-- Shared pages: `shm_page_get` and `shm_page_dt` of kernel/mm/mm.c.
use ucas_os_kernel.Base.{
  ℕ, ◌+◌, ◌-◌, ◌*◌, ◌/◌, ◌^◌, Bool, true, false, Option, none, some, ◌>>=◌, ◌==◌, upd, find_index,
  if◌then◌else◌,
}
use ucas_os_kernel.Base.Int.{ℤ, pos, negsuc}
use ucas_os_kernel.Layout.{Layout}
use ucas_os_kernel.Mm.Pgtable.{page_size}
use ucas_os_kernel.Mm.State.{Mm, SharePage, Bios}
use ucas_os_kernel.Mm.Table.{get_pte_of_uva, get_kva_of_uva, map_uva_to_kva}
use ucas_os_kernel.Mm.Swap.{alloc_page_helper, free_page_with_kva}

abbrev pub max_share_page_num : ℕ
max_share_page_num = 16

abbrev pub share_page_uva : ℕ → ℕ
share_page_uva j = 0x100000 + j * page_size

-- Rounds of the search for an address: more than a process can have pages mapped.
abbrev pub uva_fuel : ℕ
uva_fuel = 1024

abbrev pub eq_ℤ : ℤ → ℤ → Bool
eq_ℤ (pos a) (pos b) = a == b
eq_ℤ (pos a) (negsuc b) = false
eq_ℤ (negsuc a) (pos b) = false
eq_ℤ (negsuc a) (negsuc b) = a == b

module _ {Disk : Type 0} where
  abbrev pub set_share : Mm Disk → ℕ → SharePage → Mm Disk
  set_share m i p = record m { share_pages = upd m.share_pages i p }

  -- The first address from SHARE_PAGE_UVA_START on that is not mapped.
  unfoldable pub find_uva : Mm Disk → (pgdir : ℕ) → Option ℕ
  find_uva m pgdir = do
    j ←
        find_index uva_fuel 0 (λ j. elim (get_pte_of_uva m.mem (share_page_uva j) pgdir) [
          | none ↦ true
          | some p ↦ false
        ])
    some (share_page_uva j)

module _ {Disk : Type 0} (bios : Bios Disk) (y : Layout) where
  -- The address, 0 if there is neither a page with the key nor an unused one, and the state.
  unfoldable pub shm_page_get : Mm Disk → (pgdir : ℕ) → (key : ℤ) → Option (ℕ × Mm Disk)
  shm_page_get m pgdir key =
      let found = find_index max_share_page_num 0 (λ i. eq_ℤ (m.share_pages i).key key) in
      let unused = find_index max_share_page_num 0 (λ i. eq_ℤ (m.share_pages i).key (pos 0)) in
      elim found [
        | some i ↦ do
          let p = m.share_pages i
          let m1 = set_share m i (record p { ref = p.ref + 1 })
          uva ← find_uva m1 pgdir
          some (uva, map_uva_to_kva m1 uva p.kva pgdir)
        | none ↦ elim unused [
          | none ↦ some (0, m)
          | some i ↦ do
            let p = m.share_pages i
            let m1 = set_share m i (record p { key = key; ref = p.ref + 1 })
            uva ← find_uva m1 pgdir
            r ← alloc_page_helper bios y m1 uva pgdir
            some (uva, set_share r.1 i (record (r.1.share_pages i) { kva = r.0 }))
        ]
      ]

  -- `none` where the address is not mapped, or an assertion fails.
  unfoldable pub shm_page_dt : Mm Disk → (pgdir addr : ℕ) → Option (Mm Disk)
  shm_page_dt m pgdir addr = do
    let kva = get_kva_of_uva m.mem addr pgdir / 2 ^ 12 * 2 ^ 12
    pte ← get_pte_of_uva m.mem addr pgdir
    let m1 : Mm Disk = record m { mem = upd m.mem pte 0 }
    elim (find_index max_share_page_num 0 (λ i. (m1.share_pages i).kva == kva)) [
      | none ↦ some m1
      | some i ↦
          (let p = m1.share_pages i in
            let m2 = set_share m1 i (record p { ref = p.ref - 1; key = pos 0 }) in
            if p.ref == 1
            then (free_page_with_kva y m2 p.kva >>= λ m3.
                some (set_share m3 i (record (m3.share_pages i) { kva = 0 })))
            else some (set_share m1 i (record p { ref = p.ref - 1 })))
    ]
