-- ===== src/Loader/Found.antt =====
-- `load_task_img` as a whole: the program that has the name, or none.
use ucas_os_kernel.Base.{ℕ, ◌+◌, ◌<◌, ◌≤◌, ◌≡◌, refl, ◌≢◌, some, ◌>>=◌, arith, sym}
use ucas_os_kernel.Layout.{Layout}
use ucas_os_kernel.Mm.State.{Mm, Bios}
use ucas_os_kernel.Strings.{Bytes}
use ucas_os_kernel.Strings.Compare.{terminated, IsString}
use ucas_os_kernel.Loader.{TaskInfo, load_task_img}
use ucas_os_kernel.Loader.Search.{
  Named, sectors_before, find_task-first, find_task-none, search-start,
}
use ucas_os_kernel.Loader.Pages.{round_up, bind-step, sectors_to, load_plan, load_pages_lem}

module _ {Disk : Type 0} (bios : Bios Disk) (y : Layout) (tasks : ℕ → TaskInfo) (tasks_num : ℕ)
    (kernel_sectors_num pgdir : ℕ) (names : ℕ → Bytes) (xs r : Bytes) (is : IsString xs) where
  -- When no task has the name, and all names are strings, load_task_img returns 0 and changes
  -- nothing.
  pub load_task_img-missing :
      ((i : ℕ) → i < tasks_num → Named tasks i (names i))
      → ((i : ℕ) → i < tasks_num → names i ≢ xs)
      → (m : Mm Disk)
      → load_task_img bios y tasks tasks_num kernel_sectors_num (terminated xs r) pgdir m
        ≡ some (0, m)
  unfolding load_task_img
  load_task_img-missing all other m =
      rw
        (
          search-start tasks xs r is (kernel_sectors_num + 1) tasks_num,
          find_task-none tasks xs r is (kernel_sectors_num + 1) tasks_num 0 names
              (λ i h. all i (omega arith)) (λ i h. other i (omega arith)),
        )
        refl

  -- When the name is that of task j, a string, and of no task before it, all of whose names are
  -- strings, load_task_img is, for the memory size of the task in pages, rounded up, page after
  -- page: the page is allocated; the sectors of the file that belong on it, at most eight, are
  -- read from where the sectors of the kernel, of the tasks before and of the pages before end,
  -- unless there are none; and what is behind the file's bytes on the page is zeroed. It returns
  -- 1 if no allocation fails.
  pub load_task_img-found :
      (j : ℕ)
      → j < tasks_num
      → ((i : ℕ) → i ≤ j → Named tasks i (names i))
      → names j ≡ xs
      → ((i : ℕ) → i < j → names i ≢ xs)
      → (m : Mm Disk)
      → load_task_img bios y tasks tasks_num kernel_sectors_num (terminated xs r) pgdir m ≡ (
          load_plan bios y
            (tasks j).filesz
            (kernel_sectors_num + 1 + sectors_before tasks j)
            pgdir
            (round_up (tasks j).memsz 4095)
            0
            m
          >>= λ m1. some (1, m1))
  unfolding load_task_img
  load_task_img-found j h all e before m =
      let first = kernel_sectors_num + 1 + sectors_before tasks j in
      rw
        (
          search-start tasks xs r is (kernel_sectors_num + 1) tasks_num,
          find_task-first tasks xs r is (kernel_sectors_num + 1) tasks_num 0 j names (omega arith)
              (omega arith) all e before,
          load_pages_lem bios y (tasks j).filesz first pgdir (tasks j).memsz m,
        )
        (sym (
          bind-step
            (load_plan bios y (tasks j).filesz first pgdir (round_up (tasks j).memsz 4095) 0 m)
            (λ m1. some (1, m1))
            (λ m1. some (
              sectors_to bios y (tasks j).filesz first pgdir (0 + round_up (tasks j).memsz 4095),
              m1,
            ))
            (λ p. some (1, p.1)) (λ m1. refl)))
