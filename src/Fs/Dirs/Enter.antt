-- ===== src/Fs/Dirs/Enter.antt =====
-- What `do_mkdir` and `do_touch` share: the scan for the name, and the new entry.
use ucas_os_kernel.Base.{
  ℕ, ◌+◌, ◌*◌, ◌^◌, ◌<◌, ◌≤◌, ◌≡◌, ◌≢◌, refl, ◌⊎◌, inl, inr, List, [], ◌∷◌, ◌++◌, Option, some,
  arith, ap, ◌∙◌, sym, subst, length, ◌==◌, Bool-cases, false,
}
use ucas_os_kernel.Base.Int.{ℤ}
use ucas_os_kernel.Base.Bytes.{Bytes, AreBytes}
use ucas_os_kernel.Strings.Compare.{terminated, IsString}
use ucas_os_kernel.Fs.{Card, IsCard}
use ucas_os_kernel.Fs.Inode.{FileSystem, read_block, write_block}
use ucas_os_kernel.Fs.Inode.Store.{read_block-write_block}
use ucas_os_kernel.Fs.Blocks.Index.{read_block-AreBytes}
use ucas_os_kernel.Fs.Dentry.{Scan, scan_blocks}
use ucas_os_kernel.Fs.Dentry.Dir.{Entry, IsDir, find_name, has_name, scan-find_name, Compares}
use ucas_os_kernel.Fs.Dentry.Append.{
  named, length-named, named-AreBytes, put_dentry_lem, IsDir-named, first_unused_lem,
}
use ucas_os_kernel.Fs.Dirs.{append_dentry}

abbrev pub new_entry : (inum : ℕ) → (name : Bytes) → Entry
new_entry inum name = record { valid = 1; inum = inum; name = name }

-- A search finds the name, or comes to the end of the list.
pub find_name-cases :
    (xs : Bytes) (j : ℕ) (es : List Entry)
    → ((i : ℕ) × (find_name xs j es ≡ Scan.listed i))
      ⊎ (find_name xs j es ≡ Scan.unused (j + length es))
find_name-cases xs j [] = inr (ap Scan.unused (omega arith))
find_name-cases xs j (e ∷ es) = elim (Bool-cases (has_name xs e)) [
  | inl y ↦ inl (j, rw y refl)
  | inr z ↦ elim (find_name-cases xs (j + 1) es) [
    | inl l ↦ let found = l.1 in inl (l.0, rw (z, found) refl)
    | inr end ↦ inr (rw (z, end) (ap Scan.unused (omega arith)))
  ]
]

module _ {Disk : Type 0} (card : Card Disk) where
  -- The entries of block `b`.
  abbrev pub Holds : FileSystem Disk → (b : ℕ) → List Entry → Type 0
  Holds s b es = IsDir (read_block card s b).block_buf 0 es

  -- The first block of a directory decides, if it holds an entry that was never used.
  pub scan_blocks-first :
      (cmp : Bytes → Option ℤ) (xs : Bytes)
      → Compares cmp xs
      → (s : FileSystem Disk) → (last b : ℕ) (more : List ℕ) (es : List Entry) → b ≢ 0
      → length (read_block card s b).block_buf ≡ 4096
      → Holds s b es
      → length es < 114
      → scan_blocks card cmp s last (b ∷ more) ≡ some (find_name xs 0 es, b, read_block card s b)
  unfolding scan_blocks
  scan_blocks-first cmp xs compares s last b more es nz len holds few =
      let used : (b == 0) ≡ false = ground (arith, nz) in
      let found =
        scan-find_name cmp xs compares (read_block card s b).block_buf len 128 0 es holds
          (omega (arith, few)) (omega (arith, few)) in
      elim (find_name-cases xs 0 es) [
        | inl l ↦ let e = l.1 in rw (used, found, e) refl
        | inr e ↦ rw (used, found, e) refl
      ]

  -- The new entry is appended to the list of the block, and no other block changes.
  pub append_dentry_lem :
      IsCard card
      → (s : FileSystem Disk) → (b inum : ℕ) (xs t : Bytes) (es : List Entry)
      → length (read_block card s b).block_buf ≡ 4096
      → Holds s b es
      → length es < 113
      → IsString xs
      → AreBytes xs
      → length xs ≤ 26
      → inum ≢ 0
      → inum < 2 ^ 32
      → (s' : FileSystem Disk) × (append_dentry card s b inum (terminated xs t) ≡ some s')
        × Holds s' b (es ++ (new_entry inum xs ∷ []))
        × ((c : ℕ) → c ≢ b → (read_block card s' c).block_buf ≡ (read_block card s c).block_buf)
        × ((m : ℕ)
            → (m < s.superblock.start + b * 8) ⊎ (s.superblock.start + b * 8 + 8 ≤ m)
            → card.read s'.disk m ≡ card.read s.disk m)
        × (s' ≡ record s { disk = s'.disk; block_buf = s'.block_buf })
        × (length (read_block card s' b).block_buf ≡ 4096)
  unfolding append_dentry read_block write_block
  append_dentry_lem law s b inum xs t es len holds few str bytes short nz word =
      let buf = (read_block card s b).block_buf in
      let k = length es in
      let new = named buf k inum xs len few short in
      let free =
        first_unused_lem buf 128 0 es len holds (omega (arith, few)) (omega (arith, few)) in
      let zero_up : 0 + k ≡ k = omega arith in
      let put = put_dentry_lem buf k inum xs len few short t str in
      let w =
        read_block-write_block card law (record s { block_buf = new }) b
          (named-AreBytes buf k inum xs len few short (read_block-AreBytes card s b) bytes)
          (length-named buf k inum xs len few short) in
      (
        write_block card (record s { block_buf = new }) b,
        rw (free, zero_up, put) refl,
        subst (λ (c : Bytes). IsDir c 0 (es ++ (new_entry inum xs ∷ []))) (sym w.0)
            (IsDir-named buf k inum xs len few short nz word str 0 es zero_up holds),
        w.1,
        w.2,
        refl,
        ap length w.0 ∙ length-named buf k inum xs len few short,
      )
