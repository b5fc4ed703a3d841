-- ===== src/Fs/Blocks/FileMap.antt =====
-- The blocks of a file as a map from offsets: the index blocks, and which of them are in use.
use ucas_os_kernel.Base.{
  ℕ, zero, suc, ◌+◌, ◌*◌, ◌/◌, ◌<◌, ◌≤◌, ◌≡◌, ◌≢◌, ◌⊎◌, inl, inr, refl, arith, ap, some, get_or,
  Bool, true, not, ◌&&◌, ◌||◌, Option, none, ltb, ◌==◌, Bool-cases, if◌then◌else◌,
}
use ucas_os_kernel.Fs.{Card}
use ucas_os_kernel.Fs.Inode.{Inode, FileSystem, read_block, inode_sector}
use ucas_os_kernel.Fs.Blocks.{offset_to_blk}
use ucas_os_kernel.Fs.Blocks.Slots.{group, slot}
use ucas_os_kernel.Fs.Blocks.Index.{entry}

module _ {Disk : Type 0} (card : Card Disk) where
  -- The index blocks of an inode: the indirect one, and those in the double indirect one.
  abbrev pub leaf : FileSystem Disk → Inode → (group : ℕ) → ℕ
  leaf s inode zero = inode.indirect
  leaf s inode (suc j) = entry card s inode.double_indirect j

  abbrev pub file_block : FileSystem Disk → Inode → (k : ℕ) → ℕ
  file_block s inode k =
      if ltb k 10 then get_or inode.direct k 0 else entry card s (leaf s inode (group k)) (slot k)

  pub offset_to_blk_lem :
      (s : FileSystem Disk) (offset : ℕ) (inode : Inode)
      → (offset_to_blk card s offset inode).0 ≡ file_block s inode (offset / 4096)
  unfolding offset_to_blk read_block
  offset_to_blk_lem s offset inode = elim (Bool-cases (ltb (offset / 4096) 10)) [
    | inl e ↦ rw e refl
    | inr e ↦ elim (Bool-cases (ltb (offset / 4096) 1034)) [
      | inl f ↦ rw (e, f) refl
      | inr f ↦ rw (e, f) refl
    ]
  ]

  -- Whether an index block is allocated, with the double indirect block for all but the first.
  abbrev pub in_use : FileSystem Disk → Inode → (group : ℕ) → Bool
  in_use s inode zero = not (inode.indirect == 0)
  in_use s inode (suc j) = not (inode.double_indirect == 0) && not (leaf s inode (suc j) == 0)

  -- The file as a map: the block of an offset, where the index blocks that lead to it are allocated.
  abbrev pub reaches : FileSystem Disk → Inode → (k : ℕ) → Bool
  reaches s inode k = ltb k 10 || in_use s inode (group k)

  abbrev pub block_at : FileSystem Disk → Inode → (offset : ℕ) → Option ℕ
  block_at s inode offset =
      if reaches s inode (offset / 4096) then some (offset_to_blk card s offset inode).0 else none

  pub block_at-file_block :
      (s : FileSystem Disk) (inode : Inode) (offset : ℕ)
      → block_at s inode offset ≡ (
          if reaches s inode (offset / 4096)
          then some (file_block s inode (offset / 4096))
          else none)
  block_at-file_block s inode offset =
      ap
        (λ (b : ℕ).
          let r : Option ℕ = if reaches s inode (offset / 4096) then some b else none in r)
        (offset_to_blk_lem s offset inode)

  -- Index blocks in use are no two the same, none is the double indirect block, and the sector of
  -- inode `n + 1` is in none of the blocks that lead to the file's.
  pub record IsIndexed (s : FileSystem Disk) (inode : Inode) (n : ℕ) : Type 0 where
    pub apart : (g : ℕ) → in_use s inode g ≡ true → leaf s inode g ≢ inode.double_indirect
    pub distinct :
        (g h : ℕ)
        → in_use s inode g ≡ true
        → in_use s inode h ≡ true
        → leaf s inode h ≡ leaf s inode g
        → h ≡ g
    pub outside :
        (c : ℕ)
        → c ≢ 0
        → (c ≡ inode.double_indirect) ⊎ ((g : ℕ) × (in_use s inode g ≡ true) × (c ≡ leaf s inode g))
        → (inode_sector s n < s.superblock.start + c * 8)
          ⊎ (s.superblock.start + c * 8 + 8 ≤ inode_sector s n)

  pub in_use-leaf :
      (s : FileSystem Disk) (inode : Inode) (g : ℕ) → in_use s inode g ≡ true → leaf s inode g ≢ 0
  in_use-leaf s inode zero h = ground arith
  in_use-leaf s inode (suc j) h = ground arith
