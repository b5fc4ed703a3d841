-- ===== src/Mbox/Open.antt =====
-- `do_mbox_open`: which mailbox a name gets.
use ucas_os_kernel.Base.{
  ℕ, zero, suc, ◌+◌, ◌<◌, ◌≤◌, ◌≡◌, refl, ◌≢◌, true, Option, some, none, arith, ap, sym, subst, ◌∙◌,
  length, drop, if◌then◌else◌, ◌==◌, inl, inr, Bool-cases,
}
use ucas_os_kernel.Base.Int.{ℤ, pos, negsuc, ◌+ℤ◌}
use ucas_os_kernel.Kernel.{Mailbox, Kernel}
use ucas_os_kernel.Strings.{Bytes}
use ucas_os_kernel.Strings.Compare.{terminated, IsString, strcmp_same, strcmp_lem}
use ucas_os_kernel.Strings.Copy.{strcpy_lem}
use ucas_os_kernel.Mbox.{mbox_num, find_name, find_unused, do_mbox_open, set_mbox}

-- Mailbox `i` has the name `xs`.
pub record Named (boxes : ℕ → Mailbox) (i : ℕ) (xs : Bytes) : Type 0 where
  pub rest : Bytes
  pub name : (boxes i).name ≡ terminated xs rest
  pub string : IsString xs

-- What the search does with the result of a comparison.
abbrev pick : ℤ → ℕ → Option (Option ℕ) → Option (Option ℕ)
pick d i rest = elim d [ pos m ↦ if m == 0 then some (some i) else rest | negsuc m ↦ rest ]

pick-miss : (d : ℤ) (i : ℕ) (rest : Option (Option ℕ)) → d ≢ pos 0 → pick d i rest ≡ rest
pick-miss (pos zero) i rest n = absurd (n refl)
pick-miss (pos (suc m)) i rest n = ground arith
pick-miss (negsuc m) i rest n = refl

module _ (boxes : ℕ → Mailbox) (xs r : Bytes) (is : IsString xs) where
  find_name-hit :
      (n i : ℕ) → Named boxes i xs → find_name boxes (suc n) i (terminated xs r) ≡ some (some i)
  unfolding find_name
  find_name-hit n i nm = rw (nm.name, strcmp_same xs r nm.rest is) refl

  find_name-miss :
      (n i : ℕ) (ys : Bytes)
      → Named boxes i ys
      → ys ≢ xs
      → find_name boxes (suc n) i (terminated xs r) ≡ find_name boxes n (i + 1) (terminated xs r)
  unfolding find_name
  find_name-miss n i ys nm ne =
      let c = strcmp_lem xs ys r nm.rest is nm.string in
      rw (nm.name, c.1)
        (pick-miss c.0 i (find_name boxes n (i + 1) (terminated xs r)) (λ z. ne (sym (c.2.0 z))))

  find_name-first :
      (n i j : ℕ) (names : ℕ → Bytes)
      → i ≤ j
      → j < i + n
      → ((m : ℕ) → m ≤ j → Named boxes m (names m))
      → names j ≡ xs
      → ((m : ℕ) → m < j → names m ≢ xs)
      → find_name boxes n i (terminated xs r) ≡ some (some j)
  find_name-first zero i j names a b all e before = absurd (omega arith)
  find_name-first (suc n) i j names a b all e before = elim (Bool-cases (i == j)) [
    | inl z ↦
        let same : i ≡ j = ground arith in
        rw same
          (find_name-hit n j (subst (λ (ys : Bytes). Named boxes j ys) e (all j (omega arith))))
    | inr z ↦
        let ahead : i < j = ground (arith, a) in
        find_name-miss n i (names i) (all i a) (before i ahead)
        ∙ find_name-first n (i + 1) j names (omega arith) (omega arith) all e before
  ]

  find_name-none :
      (n i : ℕ) (names : ℕ → Bytes)
      → ((m : ℕ) → m < i + n → Named boxes m (names m))
      → ((m : ℕ) → m < i + n → names m ≢ xs)
      → find_name boxes n i (terminated xs r) ≡ some none
  unfolding find_name
  find_name-none zero i names all other = refl
  find_name-none (suc n) i names all other =
      find_name-miss n i (names i) (all i (omega arith)) (other i (omega arith))
      ∙ find_name-none n (i + 1) names (λ m h. all m (omega arith)) (λ m h. other m (omega arith))

find_unused-first :
    (boxes : ℕ → Mailbox) (n i j : ℕ)
    → i ≤ j
    → j < i + n
    → (boxes j).ref ≡ pos 0
    → ((m : ℕ) → m < j → (boxes m).ref ≢ pos 0)
    → find_unused boxes n i ≡ some j
unfolding find_unused
find_unused-first boxes zero i j a b e before = absurd (omega arith)
find_unused-first boxes (suc n) i j a b e before = elim (Bool-cases (i == j)) [
  | inl z ↦ let same : i ≡ j = ground arith in rw (same, find_unused, e) (ap some same)
  | inr z ↦
      let ahead : i < j = ground (arith, a) in
      ground (
        arith,
        before i ahead,
        find_unused-first boxes n (i + 1) j (omega arith) (omega arith) e before,
      )
]

module _ {Disk : Type 0} (k : Kernel Disk) (names : ℕ → Bytes) (xs r : Bytes)
    (is : IsString xs) where
  -- If mailbox i is the first with the name, and the names up to it are strings, do_mbox_open
  -- gives i and counts one reference more, whether the mailbox is in use or not.
  pub open-found :
      (i : ℕ)
      → i < mbox_num
      → ((m : ℕ) → m ≤ i → Named k.mailboxes m (names m))
      → names i ≡ xs
      → ((m : ℕ) → m < i → names m ≢ xs)
      → do_mbox_open k (terminated xs r)
        ≡ some (pos i, set_mbox k i (record (k.mailboxes i) { ref = (k.mailboxes i).ref +ℤ pos 1 }))
  unfolding do_mbox_open
  open-found i h all e before =
      rw
        (find_name-first k.mailboxes xs r is mbox_num 0 i names (omega arith) (omega arith) all e
          before)
        refl

  -- If no mailbox has the name, all names are strings, mailbox i is the first unused one and its
  -- name field has room, do_mbox_open gives i the name, its own mutex and one reference, and
  -- changes no other mailbox.
  pub open-new :
      (i : ℕ)
      → i < mbox_num
      → ((m : ℕ) → m < mbox_num → Named k.mailboxes m (names m))
      → ((m : ℕ) → m < mbox_num → names m ≢ xs)
      → (k.mailboxes i).ref ≡ pos 0
      → ((m : ℕ) → m < i → (k.mailboxes m).ref ≢ pos 0)
      → length xs < length (k.mailboxes i).name
      → (k' : Kernel Disk) × (do_mbox_open k (terminated xs r) ≡ some (pos i, k'))
        × Named k'.mailboxes i xs
        × ((k'.mailboxes i).mutex_id ≡ pos i)
        × ((k'.mailboxes i).ref ≡ pos 1)
        × ((m : ℕ) → m ≢ i → k'.mailboxes m ≡ k.mailboxes m)
  unfolding do_mbox_open ◌+ℤ◌ find_unused
  open-new i h all other e before short =
      let none_so =
        find_name-none k.mailboxes xs r is mbox_num 0 names (λ m g. all m (omega arith))
          (λ m g. other m (omega arith)) in
      let unused =
        find_unused-first k.mailboxes mbox_num 0 i (omega arith) (omega arith) e before in
      let copied = strcpy_lem (k.mailboxes i).name xs r is short in
      let self : (i == i) ≡ true = ground arith in
      rw (none_so, unused, copied, self)
        (
          _,
          refl,
          record {
            rest = drop (length xs + 1) (k.mailboxes i).name;
            name = rw self refl;
            string = is;
          },
          rw self refl,
          rw (self, e) refl,
          λ m ne. ground arith,
        )
