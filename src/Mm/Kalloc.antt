-- ===== src/Mm/Kalloc.antt =====
-- `init_kernel_freemem`, `kalloc` and `kfree` of kernel/mm/mm.c: a list of freed pages that ends
-- in the first page never used.
pub mod Pool
use ucas_os_kernel.Base.{ℕ, ◌+◌, ◌%◌, Bool, true, false, ◌==◌, ltb, upd, if◌then◌else◌}
use ucas_os_kernel.Mm.Pgtable.{word, page_size}
use ucas_os_kernel.Mm.State.{Mem, zero_range, Mm}

abbrev pub freemem_kernel : ℕ
freemem_kernel = 0xffffffc052000000

module _ {Disk : Type 0} where
  unfoldable pub init_kernel_freemem : Mm Disk → Mm Disk
  init_kernel_freemem m = record m {
    freemem_list = freemem_kernel;
    mem = upd m.mem freemem_kernel 0;
  }

  -- The page and the new state.
  unfoldable pub kalloc : Mm Disk → ℕ × Mm Disk
  kalloc m =
      let page = m.freemem_list in
      let taken : Mm Disk =
        (if m.mem page == 0
          then (let rest = (page + page_size) % word in
              record m { freemem_list = rest; mem = upd m.mem rest 0 })
          else record m { freemem_list = m.mem page }) in
      (page, record taken { mem = zero_range taken.mem page page_size })

  unfoldable pub kfree : Mm Disk → ℕ → Mm Disk
  kfree m base_addr =
      if ltb base_addr freemem_kernel
      then m
      else record m { mem = upd m.mem base_addr m.freemem_list; freemem_list = base_addr }
