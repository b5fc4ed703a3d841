-- ===== src/Process/Exec.antt =====
-- `do_exec` of a name that no program has, and of the empty name.
use ucas_os_kernel.Base.{
  ℕ, zero, suc, ◌+◌, ◌<◌, ◌≤◌, ◌≡◌, refl, ◌≢◌, Option, some, none, ◌>>=◌, List, [], arith, sym, ◌∙◌,
  subst, if◌then◌else◌, ◌==◌, inl, inr, ◌⊎◌, Bool-cases, Option-cases,
}
use ucas_os_kernel.Base.Int.{ℤ, pos, negsuc}
use ucas_os_kernel.Strings.{Bytes, strcpy}
use ucas_os_kernel.Strings.Compare.{terminated, IsString, strcmp_same, strcmp_lem}
use ucas_os_kernel.Queue.{Ptr, init_list_head, list_add_tail}
use ucas_os_kernel.Layout.{Layout, num_max_task, pcb_list, pcb_wait_list}
use ucas_os_kernel.Mm.State.{Mm, Bios}
use ucas_os_kernel.Mm.Kalloc.{kalloc}
use ucas_os_kernel.Kernel.{Kernel, links}
use ucas_os_kernel.Loader.{TaskInfo}
use ucas_os_kernel.Loader.Search.{Named}
use ucas_os_kernel.Loader.Found.{load_task_img-missing}
use ucas_os_kernel.Process.{find_pcb}
use ucas_os_kernel.Process.Start.{find_program, start_program, create_pcb, do_exec}

-- What the search does with the result of a comparison.
abbrev pick : ℤ → (found rest : Option (Option ℕ)) → Option (Option ℕ)
pick d found rest = elim d [ pos m ↦ if m == 0 then found else rest | negsuc m ↦ rest ]

pick-miss : (d : ℤ) (found rest : Option (Option ℕ)) → d ≢ pos 0 → pick d found rest ≡ rest
pick-miss (pos zero) found rest n = absurd (n refl)
pick-miss (pos (suc m)) found rest n = ground arith
pick-miss (negsuc m) found rest n = refl

bind-none {ℓ κ} : {A : Type ℓ} {B : Type κ} (o : Option A) → ◌>>=◌ {B = B} o (λ _. none) ≡ none
bind-none none = refl
bind-none (some a) = refl

module _ (tasks : ℕ → TaskInfo) (names : ℕ → Bytes) (xs r : Bytes) (is : IsString xs) where
  find_program-hit :
      (n i : ℕ) → Named tasks i xs → find_program tasks (suc n) i (terminated xs r) ≡ some (some i)
  unfolding find_program
  find_program-hit n i nm = rw (nm.name, strcmp_same xs r nm.rest is) refl

  find_program-miss :
      (n i : ℕ)
      → Named tasks i (names i)
      → names i ≢ xs
      → find_program tasks (suc n) i (terminated xs r)
        ≡ find_program tasks n (i + 1) (terminated xs r)
  unfolding find_program
  find_program-miss n i nm ne =
      let c = strcmp_lem xs (names i) r nm.rest is nm.string in
      rw (nm.name, c.1)
        (pick-miss c.0 (some (some i)) (find_program tasks n (i + 1) (terminated xs r))
          (λ z. ne (sym (c.2.0 z))))

  find_program-none :
      (n i : ℕ)
      → ((m : ℕ) → m < i + n → Named tasks m (names m))
      → ((m : ℕ) → m < i + n → names m ≢ xs)
      → find_program tasks n i (terminated xs r) ≡ some none
  unfolding find_program
  find_program-none zero i all other = refl
  find_program-none (suc n) i all other =
      find_program-miss n i (all i (omega arith)) (other i (omega arith))
      ∙ find_program-none n (i + 1) (λ m h. all m (omega arith)) (λ m h. other m (omega arith))

  find_program-first :
      (n i j : ℕ)
      → i ≤ j
      → j < i + n
      → ((m : ℕ) → m ≤ j → Named tasks m (names m))
      → names j ≡ xs
      → ((m : ℕ) → m < j → names m ≢ xs)
      → find_program tasks n i (terminated xs r) ≡ some (some j)
  find_program-first zero i j p q all e before = absurd (omega arith)
  find_program-first (suc n) i j p q all e before = elim (Bool-cases (i == j)) [
    | inl z ↦
        let same : i ≡ j = ground arith in
        let nm = subst (λ (ys : Bytes). Named tasks j ys) e (all j (omega arith)) in
        rw same (find_program-hit n j nm)
    | inr z ↦
        let ahead : i < j = ground (arith, p) in
        find_program-miss n i (all i p) (before i ahead)
        ∙ find_program-first n (i + 1) j (omega arith) (omega arith) all e before
  ]

module _ {Disk : Type 0} (bios : Bios Disk) (y : Layout) (ret : ℕ) (tasks : ℕ → TaskInfo)
    (tasks_num kernel_sectors_num : ℕ) (names : ℕ → Bytes) where
  -- If no task block is unused, or if none of the 16 names in the table of programs, all
  -- strings, is the name, which is a string, do_exec returns 0 and changes nothing.
  pub do_exec-refused :
      (k : Kernel Disk) (xs r : Bytes) (argc : ℕ) (argv : List Bytes)
      → IsString xs
      → (find_pcb y k 0 ≡ none) ⊎ ((i : ℕ) → i < num_max_task → names i ≢ xs)
      → ((i : ℕ) → i < num_max_task → Named tasks i (names i))
      → do_exec bios y ret tasks tasks_num kernel_sectors_num k (terminated xs r) argc argv
        ≡ some (0, k)
  unfolding do_exec create_pcb
  do_exec-refused k xs r argc argv is (inl full) all = rw (do_exec, create_pcb, full) refl
  do_exec-refused k xs r argc argv is (inr other) all = elim (Option-cases (find_pcb y k 0)) [
    | inl full ↦ rw (do_exec, create_pcb, full) refl
    | inr free ↦
        rw
          (
            do_exec,
            create_pcb,
            free.1,
            find_program-none tasks names xs r is num_max_task 0 (λ m h. all m (omega arith))
                (λ m h. other m (omega arith)),
          )
          refl
  ]

  -- The program that is loaded is none of those in the table.
  start_program-unknown :
      (k : Kernel Disk) (p : Ptr) (i : ℕ) (name rest xs : Bytes)
      → IsString xs
      → (tasks i).name ≡ terminated xs rest
      → ((j : ℕ) → j < tasks_num → Named tasks j (names j))
      → ((j : ℕ) → j < tasks_num → names j ≢ xs)
      → start_program bios y ret tasks tasks_num kernel_sectors_num k p i name ≡ none
  unfolding start_program
  start_program-unknown k p i name rest xs is nm all other =
      let l =
        init_list_head (list_add_tail (links k) (pcb_list p) y.ready_queue) (pcb_wait_list p) in
      let m : Mm Disk = record (k.mm) { links = l } in
      let missing =
        load_task_img-missing bios y tasks tasks_num kernel_sectors_num (kalloc m).0 names xs rest
          is all other (kalloc m).1 in
      rw (start_program, nm, missing) (bind-none (strcpy (k.pcb_at p).name name))

  -- With an unused task block, and fewer than 16 programs, whose names are strings that are not
  -- empty, in a table whose next name is the empty one, do_exec of the empty name ends in a
  -- fault.
  pub do_exec-empty :
      (k : Kernel Disk) (p : Ptr) (r : Bytes) (argc : ℕ) (argv : List Bytes)
      → find_pcb y k 0 ≡ some p
      → tasks_num < num_max_task
      → ((i : ℕ) → i ≤ tasks_num → Named tasks i (names i))
      → ((i : ℕ) → i < tasks_num → names i ≢ [])
      → names tasks_num ≡ []
      → do_exec bios y ret tasks tasks_num kernel_sectors_num k (terminated [] r) argc argv ≡ none
  unfolding do_exec create_pcb
  do_exec-empty k p r argc argv free few all some_name last =
      let nm =
        subst (λ (ys : Bytes). Named tasks tasks_num ys) last (all tasks_num (omega arith)) in
      rw
        (
          do_exec,
          create_pcb,
          free,
          find_program-first tasks names [] r refl num_max_task 0 tasks_num (omega arith)
              (omega arith) all last some_name,
          start_program-unknown k p tasks_num (terminated [] r) nm.rest [] refl nm.name
              (λ j h. all j (omega arith)) some_name,
        )
        refl
