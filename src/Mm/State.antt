-- ===== src/Mm/State.antt =====
-- The state of kernel/mm/mm.c and include/os/mm.h, and the BIOS calls that it makes.
use ucas_os_kernel.Base.{ℕ, ◌+◌, ◌&&◌, leb, ltb, if◌then◌else◌}
use ucas_os_kernel.Base.Int.{ℤ}
use ucas_os_kernel.Queue.{Ptr, Links}

-- 64-bit words of memory by address; the code reads and writes pages at multiples of 8.
abbrev pub Mem : Type 0
Mem = ℕ → ℕ

-- `memset(base, 0, len)` on words.
abbrev pub zero_range : Mem → (base len : ℕ) → Mem
zero_range mem base len a = if leb base a && ltb a (base + len) then 0 else mem a

-- `page_t` less its list node.
pub record Page : Type 0 where
  pub uva : ℕ
  pub kva : ℕ
  pub pgdir : Ptr
  pub page_id : ℕ
  pub sector_id : ℕ

-- `share_page_t`
pub record SharePage : Type 0 where
  pub kva : ℕ
  pub ref : ℕ
  pub key : ℤ

pub record Mm (Disk : Type 0) : Type 0 where
  pub mem : Mem
  pub freemem_list : ℕ
  pub links : Links
  pub page_at : Ptr → Page
  pub page_id : ℕ
  pub present_pages_num : ℤ
  pub share_pages : ℕ → SharePage
  pub disk : Disk
  pub disk_sectors_startid : ℕ

-- `bios_sdread(pa, n, sector)` and `bios_sdwrite`: the BIOS copies between memory and the card.
pub record Bios (Disk : Type 0) : Type 0 where
  pub sdread : Disk → (pa n sector : ℕ) → Mem → Mem
  pub sdwrite : Mem → (pa n sector : ℕ) → Disk → Disk
