-- ===== src/Fs/Files/Open.antt =====
-- `do_fopen` and `do_fclose`: the table of descriptors.
use ucas_os_kernel.Base.{
  ℕ, zero, suc, ◌+◌, ◌≤◌, ◌<◌, ◌≡◌, ◌≢◌, refl, some, arith, ap, ◌==◌, false, true, Bool-cases, inl,
  inr, ◌⊎◌,
}
use ucas_os_kernel.Base.Int.{ℤ, pos, negsuc}
use ucas_os_kernel.Base.Bytes.{Bytes}
use ucas_os_kernel.Fs.{Card}
use ucas_os_kernel.Fs.Inode.{FileSystem}
use ucas_os_kernel.Fs.Dentry.{parse_path}
use ucas_os_kernel.Fs.Files.{num_fdescs, set_mode, set_fdesc, open_from, do_fopen}

module _ {Disk : Type 0} (s : FileSystem Disk) (inum mode : ℕ) where
  open_from-free :
      (n k i : ℕ)
      → k ≤ i
      → i < k + n
      → ((j : ℕ) → k ≤ j → j < i → (s.fdesc_array j).inum ≢ 0)
      → (s.fdesc_array i).inum ≡ 0
      → open_from n k s inum mode
        ≡ (pos i, set_fdesc s i (set_mode (record (s.fdesc_array i) { inum = inum }) mode))
  unfolding open_from
  open_from-free zero k i a b used free = absurd (omega arith)
  open_from-free (suc n) k i a b used free = elim (Bool-cases (k == i)) [
    | inl e ↦
        let same : k ≡ i = ground arith in
        let test : ((s.fdesc_array i).inum == 0) ≡ true = ground (arith, free) in
        rw (same, test) refl
    | inr e ↦
        let ahead : k < i = ground (arith, a) in
        let u = used k (omega arith) ahead in
        let test : ((s.fdesc_array k).inum == 0) ≡ false = ground (arith, u) in
        rw test (
          open_from-free n (k + 1) i (omega arith) (omega arith) (λ j c d. used j (omega arith) d)
            free)
  ]

  open_from-full :
      (n k : ℕ)
      → ((j : ℕ) → k ≤ j → j < k + n → (s.fdesc_array j).inum ≢ 0)
      → open_from n k s inum mode ≡ (negsuc 0, s)
  unfolding open_from
  open_from-full zero k used = refl
  open_from-full (suc n) k used =
      let u = used k (omega arith) (omega arith) in
      let test : ((s.fdesc_array k).inum == 0) ≡ false = ground (arith, u) in
      rw test (open_from-full n (k + 1) (λ j c d. used j (omega arith) (omega arith)))

module _ {Disk : Type 0} (card : Card Disk) (s s1 : FileSystem Disk) (path : Bytes) (inum mode : ℕ)
    (found : parse_path card s path s.cwd_inum ≡ some (inum, s1)) where
  -- When parse_path finds the path, do_fopen takes the first free of the 16 descriptors, for the
  -- file and with the permissions of the mode, and changes no other.
  pub do_fopen-free :
      inum ≢ 0
      → (i : ℕ) → i < 16
      → ((j : ℕ) → j < i → (s1.fdesc_array j).inum ≢ 0)
      → (s1.fdesc_array i).inum ≡ 0
      → do_fopen card s path mode
        ≡ some (pos i, set_fdesc s1 i (set_mode (record (s1.fdesc_array i) { inum = inum }) mode))
  unfolding do_fopen
  do_fopen-free nz i below used free =
      let test : (inum == 0) ≡ false = ground (arith, nz) in
      rw (found, test)
        (ap (λ (r : ℤ × FileSystem Disk). some r)
          (open_from-free s1 inum mode num_fdescs 0 i (omega arith) below (λ j a b. used j b) free))

  -- When parse_path does not find the path, or all 16 descriptors are taken, do_fopen gives -1
  -- and changes nothing more than parse_path does.
  pub do_fopen-refused :
      (inum ≡ 0) ⊎ ((j : ℕ) → j < 16 → (s1.fdesc_array j).inum ≢ 0)
      → do_fopen card s path mode ≡ some (negsuc 0, s1)
  unfolding do_fopen
  do_fopen-refused why = elim (Bool-cases (inum == 0)) [
    | inl e ↦ rw (found, e) refl
    | inr e ↦ elim why [
      | inl z ↦ absurd (ground arith)
      | inr used ↦
          rw (found, e)
            (ap (λ (r : ℤ × FileSystem Disk). some r)
              (open_from-full s1 inum mode num_fdescs 0 (λ j a b. used j b)))
    ]
  ]
