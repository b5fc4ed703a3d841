-- ===== src/Tests/Paging.antt =====
-- The theorems on memory management, at the sample machine.
use ucas_os_kernel.Base.{
  if◌then◌else◌, ℕ, ◌+◌, ◌*◌, ◌%◌, ◌^◌, ◌≡◌, refl, List, [], ◌∷◌, some, arith, ◌==◌, IsFirst,
}
use ucas_os_kernel.Queue.{Ptr}
use ucas_os_kernel.Queue.Rep.{View, appended, removed, moved}
use ucas_os_kernel.Layout.{page_ptr}
use ucas_os_kernel.Mm.Pgtable.{
  unset_attribute, get_pa, get_pfn, set_pfn, get_attribute, set_attribute, vpn2_of, vpn1_of,
  vpn0_of, get_uva_from_vpns, page_offset, page_size, kva2pa,
}
use ucas_os_kernel.Mm.Pgtable.Entry.{entry_roundtrip}
use ucas_os_kernel.Mm.Pgtable.Vpn.{vpns_roundtrip, uva_roundtrip}
use ucas_os_kernel.Mm.State.{Mm}
use ucas_os_kernel.Mm.Kalloc.{kalloc, kfree}
use ucas_os_kernel.Mm.Kalloc.Pool.{IsPool, Takes, kalloc_lem, kfree-IsPool}
use ucas_os_kernel.Mm.Table.{get_pte_of_uva, get_kva_of_uva, map_uva_to_kva, table_of, alloc_table}
use ucas_os_kernel.Mm.Table.Walk.{IsPath, Tables, slot0, user_entry}
use ucas_os_kernel.Mm.Table.Mapping.{map-get, map-other}
use ucas_os_kernel.Mm.Swap.{
  add_new_pre_page, free_page_with_uva, swap_out, swap_in, swap_in_all_pages,
}
use ucas_os_kernel.Mm.Swap.Lists.{IsPaged, swap_out-IsPaged, swap_in-IsPaged}
use ucas_os_kernel.Mm.Swap.All.{Swapping, swap_in_all_lem, add_new_pre_page-IsPaged}
use ucas_os_kernel.Mm.Swap.Leak.{free_page_with_uva-present}
use ucas_os_kernel.Tests.Samples.{
  sample_bios, sample_layout, sample_head, sample_view, sample_mm, sample_mem, sample_base,
  sample-IsPaged,
}

abbrev frontier : ℕ
frontier = sample_base + 16384

sample-IsPool : IsPool sample_mm [] frontier
sample-IsPool = record {
  chain = (refl, refl);
  used = tt;
  no_dup = refl;
  low = omega arith;
  high = omega arith;
  aligned = refl;
}

entry_roundtrip_example :
    (get_pa (set_attribute (set_pfn 0x52003) 31) ≡ 0x52003 * 2 ^ 12)
    × (get_pfn (set_attribute (set_pfn 0x52003) 31) ≡ 0x52003)
    × ((mask : ℕ) → get_attribute (set_attribute (set_pfn 0x52003) 31) mask ≡ 31)
entry_roundtrip_example = entry_roundtrip 0x52003 31 (omega arith) (omega arith)

vpns_roundtrip_example :
    (vpn2_of (get_uva_from_vpns 1 2 511) ≡ 1)
    × (vpn1_of (get_uva_from_vpns 1 2 511) ≡ 2)
    × (vpn0_of (get_uva_from_vpns 1 2 511) ≡ 511)
vpns_roundtrip_example = vpns_roundtrip 1 2 511 (omega arith) (omega arith) (omega arith)

uva_roundtrip_example :
    get_uva_from_vpns (vpn2_of 0x10008) (vpn1_of 0x10008) (vpn0_of 0x10008) + page_offset 0x10008
    ≡ 0x10008
uva_roundtrip_example = uva_roundtrip 0x10008 (omega arith)

kalloc_example : Takes sample_mm (kalloc sample_mm).1 (kalloc sample_mm).0 [] frontier
kalloc_example = kalloc_lem sample_mm [] frontier sample-IsPool (omega arith)

kfree-IsPool_example :
    IsPool (kfree sample_mm (sample_base + 12288)) ((sample_base + 12288) ∷ []) frontier
kfree-IsPool_example =
    kfree-IsPool sample_mm [] frontier (sample_base + 12288) sample-IsPool
      (omega arith, omega arith, refl) refl

sample-IsPath : IsPath sample_mem [] frontier sample_base 0x30000
unfolding table_of vpn2_of vpn1_of
sample-IsPath = record {
  root = (refl, refl);
  pmd = λ n. ((refl, refl), ground arith);
  pte = λ n k. ((refl, refl), ground arith, ground arith);
}

map-get_example :
    (p : ℕ) × (get_pte_of_uva
        (map_uva_to_kva sample_mm 0x30000 frontier sample_base).mem
        0x30000
        sample_base
      ≡ some p)
    × ((map_uva_to_kva sample_mm 0x30000 frontier sample_base).mem p ≡ user_entry frontier)
    × (get_kva_of_uva
          (map_uva_to_kva sample_mm 0x30000 frontier sample_base).mem
          0x30000
          sample_base
        ≡ frontier + 0x30000 % page_size)
map-get_example =
    map-get sample_mm [] frontier 0x30000 frontier sample_base sample-IsPool sample-IsPath
      (omega arith) (omega arith) (omega arith) refl

sample-Tables :
    Tables sample_mem [] frontier sample_base 0x10000 (sample_base + 4096) (sample_base + 8192)
unfolding table_of vpn2_of vpn1_of
sample-Tables = record {
  pgdir_used = (refl, refl);
  pmd_used = (refl, refl);
  pte_used = (refl, refl);
  pmd_ne = ground arith;
  pte_ne = ground arith;
  pte_ne_pmd = ground arith;
  at2 = ground arith;
  to_pmd = refl;
  at1 = ground arith;
  to_pte = refl;
}

sample_slot0 : (slot0 (sample_base + 8192) 0x10000) ≡ sample_base + 8192 + 128
unfolding vpn0_of
sample_slot0 = refl

mapped_pte :
    get_pte_of_uva (map_uva_to_kva sample_mm 0x30000 frontier sample_base).mem 0x30000 sample_base
    ≡ some (sample_base + 8192 + 8 * 48)
unfolding get_pte_of_uva map_uva_to_kva alloc_table table_of vpn2_of vpn1_of vpn0_of set_attribute
    set_pfn kva2pa
mapped_pte = refl

map-other_example :
    (get_pte_of_uva sample_mem 0x10000 sample_base ≡ some (sample_base + 8192 + 128))
    × (get_pte_of_uva
          (map_uva_to_kva sample_mm 0x30000 frontier sample_base).mem
          0x10000
          sample_base
        ≡ some (sample_base + 8192 + 128))
    × ((map_uva_to_kva sample_mm 0x30000 frontier sample_base).mem (sample_base + 8192 + 128)
        ≡ 0x14800c1f)
unfolding vpn0_of vpn1_of vpn2_of
map-other_example =
    map-other sample_mm [] frontier 0x30000 frontier sample_base sample_base 0x10000
      (sample_base + 4096) (sample_base + 8192) sample-IsPool sample-IsPath (omega arith)
      (omega arith) (omega arith) sample-Tables (ground arith)
      (λ p e. (
        ground (arith, e, mapped_pte),
        ground (arith, e, mapped_pte),
        ground (arith, e, mapped_pte),
      ))

sample_pte : get_pte_of_uva sample_mem 0x10000 sample_base ≡ some (sample_base + 8192 + 128)
unfolding get_pte_of_uva table_of vpn2_of vpn1_of vpn0_of
sample_pte = refl

swap_out_example :
    (m' : Mm ℕ) × (swap_out sample_bios sample_layout sample_mm ≡ some m')
    × IsPaged sample_layout sample_head m' (moved sample_view 9024 1032 1048)
    × ((m'.page_at 9000).sector_id ≡ 100)
    × (m'.disk_sectors_startid ≡ 108)
    × (m'.disk
        ≡ sample_bios.sdwrite sample_mem (kva2pa (sample_mm.page_at 9000).kva) 8 100 sample_mm.disk)
    × (m'.freemem_list ≡ (sample_mm.page_at 9000).kva)
    × ((a : ℕ)
        → m'.mem a ≡ (
            if a == (sample_mm.page_at 9000).kva
            then frontier
            else if a == sample_base + 8192 + 128
            then unset_attribute (sample_mem (sample_base + 8192 + 128)) 1
            else sample_mem a))
swap_out_example =
    swap_out-IsPaged sample_bios sample_layout sample_head sample_mm sample_view 9024
      (sample_base + 8192 + 128) [] sample-IsPaged refl sample_pte (omega arith)

swap_in_example :
    IsPaged sample_layout sample_head
      (swap_in sample_bios sample_layout sample_mm 9048)
      (moved sample_view 9072 1048 1032)
swap_in_example =
    swap_in-IsPaged sample_bios sample_layout sample_head sample_mm sample_view 9048 sample-IsPaged
      refl

free_page_with_uva_example :
    (m' : Mm ℕ) × (free_page_with_uva sample_layout sample_mm 0x10000 sample_base ≡ some m')
    × IsPaged sample_layout sample_head m' (removed sample_view 9024 1032)
    × ((m'.page_at 9000).page_id ≡ 0)
    × (m'.freemem_list ≡ sample_mm.freemem_list)
    × (m'.mem ≡ sample_mem)
free_page_with_uva_example =
    free_page_with_uva-present sample_layout sample_head sample_mm sample_view 0x10000 sample_base
      9024 sample-IsPaged (omega arith) refl

sample-IsFirst : IsFirst 512 0 (λ i. (sample_mm.page_at (page_ptr sample_layout i)).page_id == 0) 2
sample-IsFirst = record {
  from = omega arith;
  below = omega arith;
  holds = refl;
  earlier = λ k a b. ground arith;
}

add_new_pre_page_example :
    (m' : Mm ℕ) × (add_new_pre_page sample_layout sample_mm 0x40000 frontier sample_base ≡ some m')
    × IsPaged sample_layout sample_head m' (appended sample_view 9120 1032)
    × (m'.page_at 9096
        ≡ record { uva = 0x40000; kva = frontier; pgdir = sample_base; page_id = 3; sector_id = 0 })
add_new_pre_page_example =
    add_new_pre_page-IsPaged sample_layout sample_head sample_mm sample_view 0x40000 frontier
      sample_base 2 sample-IsPaged sample-IsFirst (refl, λ h e. ground arith)

swap_in_all_example :
    (m' : Mm ℕ) × (q' : View) × (left : List Ptr) × (swap_in_all_pages sample_bios sample_layout
        sample_mm sample_base
      ≡ some m')
    × Swapping sample_bios sample_layout sample_head sample_view sample_base 2 m' q' left []
swap_in_all_example =
    swap_in_all_lem sample_bios sample_layout sample_head sample_view sample_base 2 sample_mm
      sample-IsPaged refl (omega arith) (omega arith)
