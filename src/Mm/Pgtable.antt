-- ===== src/Mm/Pgtable.antt =====
-- arch/riscv/include/pgtable.h: addresses and page table entries of Sv39 as 64-bit words.
pub mod Entry
pub mod Vpn
use ucas_os_kernel.Base.{ℕ, ◌+◌, ◌-◌, ◌*◌, ◌/◌, ◌%◌, ◌^◌, bit_and, bit_or}

abbrev pub word : ℕ
word = 2 ^ 64

abbrev pub page_size : ℕ
page_size = 4096

-- `1 << PPN_BITS`
abbrev pub num_pte_entry : ℕ
num_pte_entry = 512

abbrev pub kernel_vm_offset : ℕ
kernel_vm_offset = 0xffffffc000000000

-- `_PAGE_PRESENT`, `_PAGE_READ`, ... of one entry.
abbrev pub page_present : ℕ
page_present = 1

abbrev pub page_exec : ℕ
page_exec = 8

abbrev pub page_accessed : ℕ
page_accessed = 64

abbrev pub page_dirty : ℕ
page_dirty = 128

-- `_PAGE_PRESENT | _PAGE_READ | _PAGE_WRITE | _PAGE_EXEC | _PAGE_USER`
abbrev pub page_user_attrs : ℕ
page_user_attrs = 31

unfoldable pub kva2pa : ℕ → ℕ
kva2pa kva = (kva + word - kernel_vm_offset) % word

unfoldable pub pa2kva : ℕ → ℕ
pa2kva pa = (pa + kernel_vm_offset) % word

-- A shift left by `k` of a 64-bit word.
abbrev pub shl : ℕ → ℕ → ℕ
shl x k = (x * 2 ^ k) % word

unfoldable pub get_pa : ℕ → ℕ
get_pa entry = shl (bit_and entry (2 ^ 54 - 1) / 2 ^ 10) 12

unfoldable pub get_pfn : ℕ → ℕ
get_pfn entry = bit_and entry (2 ^ 54 - 1) / 2 ^ 10

-- The new value of the entry; the old one is overwritten.
unfoldable pub set_pfn : ℕ → ℕ
set_pfn pfn = bit_or 0 (shl pfn 10)

-- The source takes a mask and does not use it.
unfoldable pub get_attribute : ℕ → ℕ → ℕ
get_attribute entry mask = bit_and entry (2 ^ 8 - 1)

unfoldable pub set_attribute : ℕ → ℕ → ℕ
set_attribute entry bits = bit_or entry bits

-- `~bits` on 64 bits is `word - 1 - bits`.
unfoldable pub unset_attribute : ℕ → ℕ → ℕ
unset_attribute entry bits = bit_and entry (word - 1 - bits)

-- The three indices that `map_uva_to_kva` and `get_pte_of_uva` take from an address, after
-- `uva &= VA_MASK`.
unfoldable pub vpn2_of : ℕ → ℕ
vpn2_of uva = bit_and uva (2 ^ 39 - 1) / 2 ^ 30

unfoldable pub vpn1_of : ℕ → ℕ
vpn1_of uva = bit_and (bit_and uva (2 ^ 39 - 1) / 2 ^ 21) (2 ^ 9 - 1)

unfoldable pub vpn0_of : ℕ → ℕ
vpn0_of uva = bit_and (bit_and uva (2 ^ 39 - 1) / 2 ^ 12) (2 ^ 9 - 1)

unfoldable pub get_uva_from_vpns : ℕ → ℕ → ℕ → ℕ
get_uva_from_vpns vpn2 vpn1 vpn0 = shl (bit_or (bit_or (shl vpn2 18) (shl vpn1 9)) vpn0) 12

-- `uva & ((1 << NORMAL_PAGE_SHIFT) - 1)`, and the address without it.
unfoldable pub page_offset : ℕ → ℕ
page_offset uva = bit_and uva (2 ^ 12 - 1)
