-- ===== src/Loader/Pages.antt =====
-- What `load_task_img` puts on the pages of a program, against a description page by page.
use ucas_os_kernel.Base.{
  ℕ, zero, suc, ◌+◌, ◌-◌, ◌*◌, ◌/◌, ◌%◌, ◌<◌, ◌≤◌, ◌≡◌, refl, min, true, false, Option, some, none,
  ◌>>=◌, arith, sym, ap, ◌∙◌, if◌then◌else◌, ◌==◌, ltb, inl, inr, Bool-cases,
}
use ucas_os_kernel.Layout.{Layout}
use ucas_os_kernel.Mm.Pgtable.{kva2pa, page_size}
use ucas_os_kernel.Mm.State.{Mm, Bios}
use ucas_os_kernel.Mm.Swap.{sectors_per_page, alloc_page_helper}
use ucas_os_kernel.Process.{user_va_start}
use ucas_os_kernel.Loader.{nbytes2sec, zero_bytes, fill_page, load_pages}

-- As many whole units of `u + 1` bytes as `n` bytes need.
pub round_up : (n u : ℕ) → ℕ
round_up n u = (n + u) / suc u

-- Two chains with the same first step agree if the rest does, whatever the step gives.
pub bind-step {ℓ κ μ} :
    {A : Type ℓ} {B : Type κ} {C : Type μ} (o : Option A) (f : A → Option C) (g : A → Option B)
    (h : B → Option C)
    → ((a : A) → f a ≡ (g a >>= h))
    → (o >>= f) ≡ ((o >>= g) >>= h)
bind-step none f g h e = refl
bind-step (some a) f g h e = e a

module _ {Disk : Type 0} (bios : Bios Disk) (y : Layout) (filesz first pgdir : ℕ) where
  -- The file's sectors on page `i`, and its bytes.
  pub sectors_on : ℕ → ℕ
  sectors_on i = min 8 (round_up filesz 511 - 8 * i)

  pub bytes_on : ℕ → ℕ
  bytes_on i = min 4096 (filesz - 4096 * i)

  pub read_part : (i kva : ℕ) → Mm Disk → Mm Disk
  read_part i kva m =
      if sectors_on i == 0
      then m
      else record m { mem = bios.sdread m.disk (kva2pa kva) (sectors_on i) (first + 8 * i) m.mem }

  pub zero_part : (i kva : ℕ) → Mm Disk → Mm Disk
  zero_part i kva m =
      if bytes_on i == 4096
      then m
      else record m { mem = zero_bytes m.mem (kva + bytes_on i) (kva + 4096) }

  -- `n` pages from page `i` on: each is allocated, gets its part of the file, and zeros behind it.
  pub load_plan : (n i : ℕ) → Mm Disk → Option (Mm Disk)
  load_plan zero i m = some m
  load_plan (suc n) i m = alloc_page_helper bios y m (user_va_start + 4096 * i) pgdir >>= λ r.
      load_plan n (i + 1) (zero_part i r.0 (read_part i r.0 r.1))

  -- The next sector when `i` pages are loaded.
  pub sectors_to : ℕ → ℕ
  sectors_to i = first + min (8 * i) (round_up filesz 511)

  sectors_to-zero : sectors_to 0 ≡ first
  unfolding sectors_to
  sectors_to-zero = omega arith

  nbytes2sec_lem : (i : ℕ) → nbytes2sec (filesz - 4096 * i) ≡ round_up filesz 511 - 8 * i
  unfolding nbytes2sec round_up
  nbytes2sec_lem i = ground arith

  blocks_read_lem :
      (i : ℕ)
      → (if ltb sectors_per_page (nbytes2sec (filesz - 4096 * i))
          then sectors_per_page
          else nbytes2sec (filesz - 4096 * i))
        ≡ sectors_on i
  unfolding sectors_on
  blocks_read_lem i = ground (arith, nbytes2sec_lem i)

  sectors-inside :
      (i : ℕ)
      → 4096 * i < filesz
      → (sectors_to i ≡ first + 8 * i)
        × (sectors_to i + sectors_on i ≡ sectors_to (suc i))
        × ((sectors_on i == 0) ≡ false)
  unfolding sectors_to sectors_on round_up
  sectors-inside i h = (omega arith, omega arith, ground arith)

  sectors-behind :
      (i : ℕ)
      → filesz ≤ 4096 * i
      → (sectors_to i ≡ sectors_to (suc i)) × ((sectors_on i == 0) ≡ true)
  unfolding sectors_to sectors_on round_up
  sectors-behind i h = (omega arith, ground arith)

  -- As `fill_page` writes the two parts.
  abbrev read_code : (i kva : ℕ) → Mm Disk → ℕ × Mm Disk
  read_code i kva m =
      if ltb (4096 * i) filesz
      then (
        sectors_to i + sectors_on i,
        record m { mem = bios.sdread m.disk (kva2pa kva) (sectors_on i) (sectors_to i) m.mem },
      )
      else (sectors_to i, m)

  abbrev start_code : (i kva : ℕ) → ℕ
  start_code i kva =
      if filesz / page_size * page_size == 4096 * i then kva + filesz % page_size else kva

  abbrev zero_code : (i kva : ℕ) → Mm Disk → Mm Disk
  zero_code i kva m =
      if ltb filesz (4096 * i + page_size)
      then record m { mem = zero_bytes m.mem (start_code i kva) (kva + page_size) }
      else m

  start_code_lem : (i kva : ℕ) → filesz < 4096 * i + 4096 → start_code i kva ≡ kva + bytes_on i
  unfolding bytes_on
  start_code_lem i kva h = ground arith

  bytes-partial : (i : ℕ) → filesz < 4096 * i + 4096 → (bytes_on i == 4096) ≡ false
  unfolding bytes_on
  bytes-partial i h = ground arith

  bytes-whole : (i : ℕ) → 4096 * i + 4096 ≤ filesz → (bytes_on i == 4096) ≡ true
  unfolding bytes_on
  bytes-whole i h = ground arith

  zero_code_lem : (i kva : ℕ) (m : Mm Disk) → zero_code i kva m ≡ zero_part i kva m
  unfolding zero_part
  zero_code_lem i kva m = elim (Bool-cases (ltb filesz (4096 * i + page_size))) [
    | inl t ↦ rw (t, bytes-partial i (ground arith), start_code_lem i kva (ground arith)) refl
    | inr f ↦ rw (f, bytes-whole i (ground arith)) refl
  ]

  read_code_lem :
      (i kva : ℕ) (m : Mm Disk) → read_code i kva m ≡ (sectors_to (suc i), read_part i kva m)
  unfolding read_part
  read_code_lem i kva m = elim (Bool-cases (ltb (4096 * i) filesz)) [
    | inl t ↦ let s = sectors-inside i (ground arith) in rw (t, s.2, s.1, s.0) refl
    | inr f ↦ let s = sectors-behind i (ground arith) in rw (f, s.1, s.0) refl
  ]

  fill_page_lem :
      (i kva : ℕ) (m : Mm Disk)
      → fill_page bios y filesz (4096 * i) kva (sectors_to i) m
        ≡ (sectors_to (suc i), zero_part i kva (read_part i kva m))
  unfolding fill_page
  fill_page_lem i kva m =
      rw (blocks_read_lem i, read_code_lem i kva m)
        (ap (λ (n : Mm Disk). (sectors_to (suc i), n)) (zero_code_lem i kva (read_part i kva m)))

  -- The step of `load_pages` behind the allocation.
  abbrev after_code : (fuel memsz i : ℕ) → ℕ × Mm Disk → Option (ℕ × Mm Disk)
  after_code fuel memsz i r =
      let filled = fill_page bios y filesz (4096 * i) r.0 (sectors_to i) r.1 in
      load_pages bios y fuel filesz memsz (4096 * i + page_size) filled.0 pgdir filled.1

  load_pages-plan :
      (fuel memsz n i : ℕ) (m : Mm Disk)
      → n < fuel
      → memsz ≤ 4096 * (i + n)
      → 4096 * (i + n) < memsz + 4096
      → load_pages bios y fuel filesz memsz (4096 * i) (sectors_to i) pgdir m
        ≡ (load_plan n i m >>= λ m1. some (sectors_to (i + n), m1))
  unfolding load_pages load_plan
  load_pages-plan zero memsz n i m h a b = absurd (omega arith)
  load_pages-plan (suc fuel) memsz zero i m h a b =
      let done : ltb (4096 * i) memsz ≡ false = ground arith in
      let same : i + 0 ≡ i = omega arith in rw (done, same) refl
  load_pages-plan (suc fuel) memsz (suc n) i m h a b =
      let more : ltb (4096 * i) memsz ≡ true = ground arith in
      let next : 4096 * i + page_size ≡ 4096 * (i + 1) = omega arith in
      let one : suc i ≡ i + 1 = omega arith in
      let end : i + suc n ≡ i + 1 + n = omega arith in
      rw more (
        bind-step (alloc_page_helper bios y m (user_va_start + 4096 * i) pgdir)
          (after_code fuel memsz i)
          (λ r. load_plan n (i + 1) (zero_part i r.0 (read_part i r.0 r.1)))
          (λ m1. some (sectors_to (i + suc n), m1))
          (λ r.
            rw (fill_page_lem i r.0 r.1, next, one, end)
              (load_pages-plan fuel memsz n (i + 1) (zero_part i r.0 (read_part i r.0 r.1))
                (omega arith) (omega arith) (omega arith))))

  -- With fuel for the pages of the program, the loop of load_task_img does what the plan says.
  pub load_pages_lem :
      (memsz : ℕ) (m : Mm Disk)
      → load_pages bios y (memsz + 1) filesz memsz 0 first pgdir m ≡ (
          load_plan (round_up memsz 4095) 0 m >>= λ m1.
          some (sectors_to (0 + round_up memsz 4095), m1))
  unfolding round_up
  load_pages_lem memsz m =
      ap (λ (b : ℕ). load_pages bios y (memsz + 1) filesz memsz 0 b pgdir m) (sym sectors_to-zero)
      ∙ load_pages-plan (memsz + 1) memsz (round_up memsz 4095) 0 m (omega arith) (omega arith)
          (omega arith)
