-- ===== src/Loader.antt =====
-- kernel/loader/loader.c, built for the board: the table of programs and the loading of one, by
-- sectors of the card.
pub mod Search
pub mod Pages
pub mod Found
use ucas_os_kernel.Base.{
  ℕ, zero, suc, ◌+◌, ◌-◌, ◌*◌, ◌/◌, ◌%◌, ◌^◌, Option, none, some, ◌>>=◌, ◌==◌, ◌&&◌, leb, ltb,
  if◌then◌else◌,
}
use ucas_os_kernel.Base.Int.{ℤ, pos, negsuc}
use ucas_os_kernel.Strings.{Bytes, strcmp}
use ucas_os_kernel.Layout.{Layout}
use ucas_os_kernel.Mm.Pgtable.{kva2pa, page_size}
use ucas_os_kernel.Mm.State.{Mem, Mm, Bios}
use ucas_os_kernel.Mm.Swap.{sectors_per_page, alloc_page_helper}
use ucas_os_kernel.Process.{user_va_start}

abbrev pub sector_size : ℕ
sector_size = 512

unfoldable pub nbytes2sec : ℕ → ℕ
nbytes2sec nbytes = nbytes / sector_size + (if nbytes % sector_size == 0 then 0 else 1)

-- `task_info_t`
pub record TaskInfo : Type 0 where
  pub name : Bytes
  pub sectors_num : ℕ
  pub filesz : ℕ
  pub memsz : ℕ

-- `memset(start, 0, end - start)` by bytes, where `end` is at the end of a word: the word that
-- `start` lies in keeps its low bytes.
unfoldable pub zero_bytes : Mem → (start end : ℕ) → Mem
zero_bytes mem start end a =
    if leb start a && ltb a end
    then 0
    else if ltb a start && ltb start (a + 8) && ltb start end
    then mem a % 256 ^ (start - a)
    else mem a

-- The search for the name, `n` tasks before the end: the index of the task, if it is found, and the
-- `block_id` then.
unfoldable pub find_task :
    (tasks : ℕ → TaskInfo) → (n task_idx block_id : ℕ) → (name : Bytes) → Option (Option ℕ × ℕ)
find_task tasks zero task_idx block_id name = some (none, block_id)
find_task tasks (suc n) task_idx block_id name =
    let rest = find_task tasks n (task_idx + 1) (block_id + (tasks task_idx).sectors_num) name in
    (strcmp (tasks task_idx).name name >>= λ d. (elim d [
      | pos m ↦ if m == 0 then some (some task_idx, block_id) else rest
      | negsuc m ↦ rest
    ]))

module _ {Disk : Type 0} (bios : Bios Disk) (y : Layout) where
  -- What the loop does with the page at `kva`: the sectors read, and the end of the page zeroed.
  unfoldable pub fill_page : (filesz sz kva block_id : ℕ) → Mm Disk → ℕ × Mm Disk
  fill_page filesz sz kva block_id m =
      let sectors = nbytes2sec (filesz - sz) in
      let blocks_read = if ltb sectors_per_page sectors then sectors_per_page else sectors in
      let pa = kva2pa kva in
      let read : ℕ × Mm Disk =
        if ltb sz filesz
        then (
          block_id + blocks_read,
          record m { mem = bios.sdread m.disk pa blocks_read block_id m.mem },
        )
        else (block_id, m) in
      let m1 = read.1 in
      let bss_end = kva + page_size in
      let bss_start =
        if filesz / page_size * page_size == sz then kva + filesz % page_size else kva in
      (
        read.0,
        (if ltb filesz (sz + page_size)
            then record m1 { mem = zero_bytes m1.mem bss_start bss_end }
            else m1),
      )

  -- The loop over the pages, with fuel.
  unfoldable pub load_pages :
      (fuel filesz memsz sz block_id pgdir : ℕ) → Mm Disk → Option (ℕ × Mm Disk)
  load_pages zero filesz memsz sz block_id pgdir m = none
  load_pages (suc fuel) filesz memsz sz block_id pgdir m =
      let next = alloc_page_helper bios y m (user_va_start + sz) pgdir >>= λ r.
      (let filled = fill_page filesz sz r.0 block_id r.1 in
        load_pages fuel filesz memsz (sz + page_size) filled.0 pgdir filled.1) in
      if ltb sz memsz then next else some (block_id, m)

  -- The result is 0 where no task has the name.
  unfoldable pub load_task_img :
      (tasks : ℕ → TaskInfo)
      → (tasks_num kernel_sectors_num : ℕ) → (name : Bytes) → (pgdir : ℕ) → Mm Disk
      → Option (ℕ × Mm Disk)
  load_task_img tasks tasks_num kernel_sectors_num name pgdir m = do
    (found, block_id) ← find_task tasks tasks_num 0 (kernel_sectors_num + 1) name
    elim found [
      | none ↦ some (0, m)
      | some i ↦ do
        let task = tasks i
        (last, m1) ← load_pages (task.memsz + 1) task.filesz task.memsz 0 block_id pgdir m
        some (1, m1)
    ]
