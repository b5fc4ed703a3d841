-- ===== src/Fs/Dirs/Lookup.antt =====
-- `parse_path` against a search of the list of entries.
use ucas_os_kernel.Base.{
  ℕ, zero, suc, ◌+◌, ◌-◌, ◌<◌, ◌≤◌, ◌≡◌, ◌≢◌, refl, inl, inr, List, [], ◌∷◌, ◌++◌, some, arith, ap,
  ◌∙◌, sym, length, drop, replicate, has, ◌==◌, ◌||◌, Bool-cases, if◌then◌else◌, false, true,
}
use ucas_os_kernel.Base.Bytes.{Bytes}
use ucas_os_kernel.Strings.{strcpy, strcmp}
use ucas_os_kernel.Strings.Compare.{terminated, IsString}
use ucas_os_kernel.Strings.Copy.{strcpy_lem}
use ucas_os_kernel.Fs.{Card}
use ucas_os_kernel.Fs.Inode.{Inode, FileSystem, read_block, read_inode}
use ucas_os_kernel.Fs.Dirs.Enter.{scan_blocks-first, find_name-cases}
use ucas_os_kernel.Fs.Dentry.{
  Scan, scan_blocks, next_part, parse_path, parse_path_from, dentry_inum,
}
use ucas_os_kernel.Fs.Dentry.Dir.{Entry, IsDir, find_name, has_name, dentry_inum_lem, name-first}

-- The inode of the first entry in use with the name, and 0 if there is none.
abbrev pub lookup_name : Bytes → List Entry → ℕ
lookup_name xs [] = 0
lookup_name xs (e ∷ es) = let rest = lookup_name xs es in if has_name xs e then e.inum else rest

-- What a search of a block says of the entry it finds.
found_inum :
    (buf xs : Bytes) (j i : ℕ) (es : List Entry)
    → length buf ≡ 4096
    → IsDir buf j es
    → j + length es < 114
    → find_name xs j es ≡ Scan.listed i
    → dentry_inum buf i ≡ some (lookup_name xs es)
found_inum buf xs j i [] len d h e = cc
found_inum buf xs j i (x ∷ es) len d h e = elim (Bool-cases (has_name xs x)) [
  | inl y ↦
      let here : j ≡ i = ground (arith, e, y) in
      rw y (
        ap (dentry_inum buf) (sym here)
        ∙ dentry_inum_lem buf j x.inum len (omega (arith, h)) d.0.word d.0.inum)
  | inr z ↦ rw z (found_inum buf xs (j + 1) i es len d.1 (omega (arith, h)) (ground (arith, e, z)))
]

lookup-unused :
    (xs : Bytes) (j k : ℕ) (es : List Entry)
    → find_name xs j es ≡ Scan.unused k
    → lookup_name xs es ≡ 0
lookup-unused xs j k [] e = refl
lookup-unused xs j k (x ∷ es) e = elim (Bool-cases (has_name xs x)) [
  | inl y ↦ absurd (ground (arith, e, y))
  | inr z ↦ rw z (lookup-unused xs (j + 1) k es (ground (arith, e, z)))
]

pub lookup-append :
    (xs : Bytes) (j k : ℕ) (es : List Entry) (new : Entry)
    → find_name xs j es ≡ Scan.unused k
    → has_name xs new ≡ true
    → lookup_name xs (es ++ (new ∷ [])) ≡ new.inum
lookup-append xs j k [] new e y = rw y refl
lookup-append xs j k (x ∷ es) new e y = elim (Bool-cases (has_name xs x)) [
  | inl u ↦ absurd (ground (arith, e, u))
  | inr z ↦ rw z (lookup-append xs (j + 1) k es new (ground (arith, e, z)) y)
]

-- The first part of a path without a slash is all of it.
next_part_lem :
    (xs rest : Bytes)
    → IsString xs
    → has b'/' xs ≡ false
    → next_part (terminated xs rest) ≡ some rest
unfolding next_part
next_part_lem [] rest g h = ground arith
next_part_lem (x ∷ xs) rest g h = ground (arith, next_part_lem xs rest)

next_part-total : (xs rest : Bytes) → (r : Bytes) × (next_part (terminated xs rest) ≡ some r)
unfolding next_part
next_part-total [] rest = (rest, ground arith)
next_part-total (x ∷ xs) rest = elim (Bool-cases ((x == b'/') || (x == 0))) [
  | inl e ↦ (xs ++ (0 ∷ rest), rw e refl)
  | inr e ↦ let r = next_part-total xs rest in (r.0, rw e (r.1))
]

drop-replicate : (n m : ℕ) → drop {A = ℕ} n (replicate (n + m) 0) ≡ replicate m 0
drop-replicate zero m = let e : 0 + m ≡ m = omega arith in rw e refl
drop-replicate (suc n) m =
    let e : suc n + m ≡ suc (n + m) = omega arith in rw e (drop-replicate n m)

-- The rest of the copy of a name of at most 14 bytes is an empty string.
copy_rest :
    (xs : Bytes)
    → length xs ≤ 14
    → drop {A = ℕ} (length xs + 1) (replicate 16 0) ≡ 0 ∷ replicate (14 - length xs) 0
copy_rest xs h =
    let split : 16 ≡ length xs + 1 + suc (14 - length xs) = omega (arith, h) in
    ap (λ (n : ℕ). drop {A = ℕ} (length xs + 1) (replicate n 0)) split
    ∙ drop-replicate (length xs + 1) (suc (14 - length xs))

module _ {Disk : Type 0} (card : Card Disk) (s : FileSystem Disk) where
  empty_path :
      (fuel : ℕ) (rest : Bytes) (inum : ℕ)
      → parse_path_from card (suc fuel) s (0 ∷ rest) inum ≡ some (inum, s)
  unfolding parse_path_from
  empty_path fuel rest inum = refl

module _ {Disk : Type 0} (card : Card Disk) (s : FileSystem Disk) (cwd : ℕ) (inode : Inode) (b : ℕ)
    (more : List ℕ) (x : ℕ) (xs t : Bytes) (es : List Entry)
    (known : read_inode card s cwd ≡ some inode) (direct : inode.direct ≡ b ∷ more) (used : b ≢ 0)
    (len : length (read_block card s b).block_buf ≡ 4096)
    (holds : IsDir (read_block card s b).block_buf 0 es) (room : length es < 113)
    (string : IsString (x ∷ xs)) where
  scanned :
      scan_blocks card (λ name. strcmp name (terminated (x ∷ xs) t)) s 0 (b ∷ more)
      ≡ some (find_name (x ∷ xs) 0 es, b, read_block card s b)
  scanned =
      scan_blocks-first card (λ name. strcmp name (terminated (x ∷ xs) t)) (x ∷ xs)
        (name-first (x ∷ xs) t string) s 0 b more es used len holds (omega (arith, room))

  abbrev path : Bytes
  path = terminated (x ∷ xs) t

  abbrev copy : Bytes
  copy = terminated (x ∷ xs) (drop (length (x ∷ xs) + 1) (replicate 16 0))

  -- One round, of a path that is not empty.
  module _ (fuel : ℕ) (next : Bytes) (s1 : FileSystem Disk) where
    step-listed :
        (i inum : ℕ)
        → strcpy (replicate 16 0) path ≡ some copy
        → next_part copy ≡ some next
        → scan_blocks card (λ name. strcmp name path) s 0 (b ∷ more) ≡ some (Scan.listed i, b, s1)
        → dentry_inum s1.block_buf i ≡ some inum
        → parse_path_from card (suc fuel) s path cwd ≡ parse_path_from card fuel s1 next inum
    unfolding parse_path_from
    step-listed i inum copied part scan here =
        let nz : (x == 0) ≡ false = ground (arith, string) in
        rw (nz, copied, part, known, direct, scan, here) refl

    step-unused :
        (k : ℕ)
        → strcpy (replicate 16 0) path ≡ some copy
        → next_part copy ≡ some next
        → scan_blocks card (λ name. strcmp name path) s 0 (b ∷ more) ≡ some (Scan.unused k, b, s1)
        → parse_path_from card (suc fuel) s path cwd ≡ some (0, s1)
    unfolding parse_path_from
    step-unused k copied part scan =
        let nz : (x == 0) ≡ false = ground (arith, string) in
        rw (nz, copied, part, known, direct, scan) refl

  copied : length (x ∷ xs) ≤ 15 → strcpy (replicate 16 0) path ≡ some copy
  copied h = strcpy_lem (replicate 16 0) (x ∷ xs) t string (omega (arith, h))

  found_at :
      (r : Scan)
      → find_name (x ∷ xs) 0 es ≡ r
      → scan_blocks card (λ name. strcmp name path) s 0 (b ∷ more)
        ≡ some (r, b, read_block card s b)
  found_at r e = scanned ∙ ap (λ (q : Scan). some (q, b, read_block card s b)) e

  -- In a directory whose first block holds a list of entries and has room, parse_path of a name
  -- of 1 to 14 bytes without a slash gives the inode of the first entry in use with that name,
  -- and 0 if there is none.
  pub parse_path-lookup :
      has b'/' (x ∷ xs) ≡ false
      → length (x ∷ xs) ≤ 14
      → parse_path card s path cwd ≡ some (lookup_name (x ∷ xs) es, read_block card s b)
  parse_path-lookup plain short =
      let s1 = read_block card s b in
      elim (find_name-cases (x ∷ xs) 0 es) [
        | inl l ↦
            step-listed 17 (0 ∷ replicate (14 - length (x ∷ xs)) 0) s1 l.0 (lookup_name (x ∷ xs) es)
              (copied (omega (arith, short)))
              (next_part_lem (x ∷ xs) _ string plain
                ∙ ap some (copy_rest (x ∷ xs) (omega (arith, short))))
              (found_at (Scan.listed l.0) l.1)
              (found_inum s1.block_buf (x ∷ xs) 0 l.0 es len holds (omega (arith, room)) l.1)
            ∙ empty_path card s1 16 (replicate (14 - length (x ∷ xs)) 0) (lookup_name (x ∷ xs) es)
        | inr e ↦
            step-unused 17 _ s1 (0 + length es) (copied (omega (arith, short)))
              (next_part_lem (x ∷ xs) _ string plain) (found_at (Scan.unused (0 + length es)) e)
            ∙ ap (λ (n : ℕ). some (n, s1)) (sym (lookup-unused (x ∷ xs) 0 (0 + length es) es e))
      ]

  -- In such a directory a path of at most 15 bytes is compared as a whole, also where it has a
  -- slash: parse_path gives 0 if no entry in use has the whole path as its name, whatever its
  -- parts name.
  pub parse_path-whole :
      length (x ∷ xs) ≤ 15
      → (k : ℕ) → find_name (x ∷ xs) 0 es ≡ Scan.unused k
      → parse_path card s path cwd ≡ some (0, read_block card s b)
  parse_path-whole short k e =
      let part = next_part-total (x ∷ xs) (drop (length (x ∷ xs) + 1) (replicate 16 0)) in
      step-unused 17 part.0 (read_block card s b) k (copied short) part.1
        (found_at (Scan.unused k) e)
