-- ===== src/Loader/Search.antt =====
-- The search of `load_task_img`: which program has the name, and where its sectors start.
use ucas_os_kernel.Base.{
  ℕ, zero, suc, ◌+◌, ◌<◌, ◌≤◌, ◌≡◌, refl, ◌≢◌, Option, some, none, arith, ap, ap₂, ◌∙◌, subst,
  if◌then◌else◌, ◌==◌, inl, inr, Bool-cases,
}
use ucas_os_kernel.Base.Int.{ℤ, pos, negsuc}
use ucas_os_kernel.Strings.{Bytes}
use ucas_os_kernel.Strings.Compare.{terminated, IsString, strcmp_same, strcmp_lem}
use ucas_os_kernel.Loader.{TaskInfo, find_task}

-- Task `i` has the name `xs`.
pub record Named (tasks : ℕ → TaskInfo) (i : ℕ) (xs : Bytes) : Type 0 where
  pub rest : Bytes
  pub name : (tasks i).name ≡ terminated xs rest
  pub string : IsString xs

-- The sectors of the tasks before task `i`.
pub sectors_before : (ℕ → TaskInfo) → ℕ → ℕ
sectors_before tasks zero = 0
sectors_before tasks (suc i) = sectors_before tasks i + (tasks i).sectors_num

-- What the search does with the result of a comparison.
abbrev pick : ℤ → (found rest : Option (Option ℕ × ℕ)) → Option (Option ℕ × ℕ)
pick d found rest = elim d [ pos m ↦ if m == 0 then found else rest | negsuc m ↦ rest ]

pick-miss : (d : ℤ) (found rest : Option (Option ℕ × ℕ)) → d ≢ pos 0 → pick d found rest ≡ rest
pick-miss (pos zero) found rest n = absurd (n refl)
pick-miss (pos (suc m)) found rest n = ground arith
pick-miss (negsuc m) found rest n = refl

module _ (tasks : ℕ → TaskInfo) (xs r : Bytes) (is : IsString xs) where
  find_task-hit :
      (n i b : ℕ)
      → Named tasks i xs
      → find_task tasks (suc n) i b (terminated xs r) ≡ some (some i, b)
  unfolding find_task
  find_task-hit n i b nm = rw (nm.name, strcmp_same xs nm.rest r is) refl

  find_task-miss :
      (n i b : ℕ) (ys : Bytes)
      → Named tasks i ys
      → ys ≢ xs
      → find_task tasks (suc n) i b (terminated xs r)
        ≡ find_task tasks n (i + 1) (b + (tasks i).sectors_num) (terminated xs r)
  unfolding find_task
  find_task-miss n i b ys nm ne =
      let c = strcmp_lem ys xs nm.rest r nm.string is in
      rw (nm.name, c.1)
        (pick-miss c.0 (some (some i, b))
          (find_task tasks n (i + 1) (b + (tasks i).sectors_num) (terminated xs r))
          (λ z. ne (c.2.0 z)))

  module _ (b : ℕ) where
    -- The search from task `i` on, with the sectors before it counted.
    abbrev search : (n i : ℕ) → Option (Option ℕ × ℕ)
    search n i = find_task tasks n i (b + sectors_before tasks i) (terminated xs r)

    search-miss :
        (n i : ℕ) (ys : Bytes) → Named tasks i ys → ys ≢ xs → search (suc n) i ≡ search n (suc i)
    unfolding sectors_before
    search-miss n i ys nm ne =
        find_task-miss n i (b + sectors_before tasks i) ys nm ne
        ∙ ap₂ (λ (k z : ℕ). find_task tasks n k z (terminated xs r)) (omega arith) (omega arith)

    pub find_task-first :
        (n i j : ℕ) (names : ℕ → Bytes)
        → i ≤ j
        → j < i + n
        → ((m : ℕ) → m ≤ j → Named tasks m (names m))
        → names j ≡ xs
        → ((m : ℕ) → m < j → names m ≢ xs)
        → search n i ≡ some (some j, b + sectors_before tasks j)
    find_task-first zero i j names p q all e before = absurd (omega arith)
    find_task-first (suc n) i j names p q all e before = elim (Bool-cases (i == j)) [
      | inl z ↦
          let same : i ≡ j = ground arith in
          rw same (
            find_task-hit n j (b + sectors_before tasks j)
              (subst (λ (ys : Bytes). Named tasks j ys) e (all j (omega arith))))
      | inr z ↦
          let ahead : i < j = ground (arith, p) in
          search-miss n i (names i) (all i p) (before i ahead)
          ∙ find_task-first n (suc i) j names (omega arith) (omega arith) all e before
    ]

    pub find_task-none :
        (n i : ℕ) (names : ℕ → Bytes)
        → ((m : ℕ) → m < i + n → Named tasks m (names m))
        → ((m : ℕ) → m < i + n → names m ≢ xs)
        → search n i ≡ some (none, b + sectors_before tasks (i + n))
    unfolding find_task
    find_task-none zero i names all other =
        ap (λ (z : ℕ). some (none, b + sectors_before tasks z)) (omega arith)
    find_task-none (suc n) i names all other =
        search-miss n i (names i) (all i (omega arith)) (other i (omega arith))
        ∙ find_task-none n (suc i) names (λ m h. all m (omega arith)) (λ m h. other m (omega arith))
        ∙ ap (λ (z : ℕ). some (none, b + sectors_before tasks z)) (omega arith)

    -- At the start no sectors are counted yet.
    pub search-start : (n : ℕ) → find_task tasks n 0 b (terminated xs r) ≡ search n 0
    unfolding sectors_before
    search-start n = ap (λ (z : ℕ). find_task tasks n 0 z (terminated xs r)) (omega arith)
