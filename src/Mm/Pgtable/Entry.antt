-- ===== src/Mm/Pgtable/Entry.antt =====
-- What an entry holds after it was set.
use ucas_os_kernel.Base.{ℕ, ◌+◌, ◌-◌, ◌*◌, ◌/◌, ◌%◌, ◌^◌, ◌<◌, ◌≤◌, ◌≡◌, arith}
use ucas_os_kernel.Base.Bits.{bit_and_mask, bit_or_disjoint, zero-bit_or, bit_and_step}
use ucas_os_kernel.Mm.Pgtable.{
  word, kernel_vm_offset, kva2pa, pa2kva, shl, get_pa, get_pfn, set_pfn, get_attribute,
  set_attribute, unset_attribute, page_present, page_exec,
}

-- The entry that the code builds from a page frame number and attribute bits.
pub set_entry :
    (pfn attrs : ℕ)
    → pfn < 2 ^ 44
    → attrs < 2 ^ 10
    → set_attribute (set_pfn pfn) attrs ≡ pfn * 2 ^ 10 + attrs
unfolding set_attribute set_pfn
set_entry pfn attrs hp ha =
    let e : shl pfn 10 ≡ pfn * 2 ^ 10 = omega arith in
    rw (zero-bit_or, e) (bit_or_disjoint 10 pfn attrs ha)

-- `get_pa` and `get_pfn` as arithmetic.
pub get_pa_lem : (e : ℕ) → get_pa e ≡ (e % 2 ^ 54) / 2 ^ 10 * 2 ^ 12
unfolding get_pa
get_pa_lem e = omega (arith, bit_and_mask 54 e)

-- An entry made of a 44-bit frame number and 8 attribute bits gives back both, and the physical
-- address of the frame, for any mask.
pub entry_roundtrip :
    (pfn attrs : ℕ)
    → pfn < 2 ^ 44
    → attrs < 2 ^ 8
    → (get_pa (set_attribute (set_pfn pfn) attrs) ≡ pfn * 2 ^ 12)
      × (get_pfn (set_attribute (set_pfn pfn) attrs) ≡ pfn)
      × ((mask : ℕ) → get_attribute (set_attribute (set_pfn pfn) attrs) mask ≡ attrs)
unfolding get_pfn get_attribute
entry_roundtrip pfn attrs hp ha =
    rw
      (
        set_entry pfn attrs hp (omega arith),
        get_pa_lem,
        bit_and_mask 54 (pfn * 2 ^ 10 + attrs),
        bit_and_mask 8 (pfn * 2 ^ 10 + attrs),
      )
      (omega arith, omega arith, λ mask. omega arith)

-- Kernel addresses and physical addresses.
pub kva2pa-pa2kva : (pa : ℕ) → pa < word → kva2pa (pa2kva pa) ≡ pa
unfolding kva2pa pa2kva
kva2pa-pa2kva pa h = omega arith

pub pa2kva-kva2pa : (kva : ℕ) → kva < word → pa2kva (kva2pa kva) ≡ kva
unfolding kva2pa pa2kva
pa2kva-kva2pa kva h = omega arith

-- Clearing the present bit leaves the frame, and clears the bit.
pub unset_present : (e : ℕ) → e < word → unset_attribute e page_present ≡ e / 2 * 2
unfolding unset_attribute
unset_present e h = omega (arith, bit_and_step e (word - 2), bit_and_mask 63 (e / 2))

pub unset_exec : (e : ℕ) → e < word → unset_attribute e page_exec ≡ e / 16 * 16 + e % 8
unfolding unset_attribute
unset_exec e h = omega (
  arith,
  bit_and_step e (word - 9),
  bit_and_step (e / 2) (2 ^ 63 - 5),
  bit_and_step (e / 2 / 2) (2 ^ 62 - 3),
  bit_and_step (e / 2 / 2 / 2) (2 ^ 61 - 2),
  bit_and_mask 60 (e / 2 / 2 / 2 / 2),
)

-- The entry for a kernel page leads back to the page.
pub get_pa-set_entry :
    (kva attrs : ℕ)
    → kernel_vm_offset ≤ kva
    → kva < word
    → kva % 4096 ≡ 0
    → attrs < 2 ^ 8
    → pa2kva (get_pa (set_attribute (set_pfn (kva2pa kva / 2 ^ 12)) attrs)) ≡ kva
unfolding kva2pa pa2kva
get_pa-set_entry kva attrs lo hi al h =
    rw (set_entry (kva2pa kva / 2 ^ 12) attrs (omega arith) (omega arith), get_pa_lem) (omega arith)
