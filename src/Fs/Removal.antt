-- ===== src/Fs/Removal.antt =====
-- `do_rmdir` and `do_rm` of kernel/fs/fs.c. The result is what the function returns, with the state.
use ucas_os_kernel.Base.{
  ℕ, zero, suc, ◌+◌, ◌-◌, ◌^◌, List, [], ◌∷◌, Option, some, ◌>>=◌, ◌==◌, ltb, if◌then◌else◌,
}
use ucas_os_kernel.Base.Bytes.{Bytes}
use ucas_os_kernel.Strings.{strcmp}
use ucas_os_kernel.Fs.{Card, free_inode, free_block}
use ucas_os_kernel.Fs.Inode.{
  Inode, FileSystem, file, imap_start, bmap_start, read_block, write_block, read_inode, write_inode,
}
use ucas_os_kernel.Fs.Dentry.{Scan, parse_path, unlist, matches, dentry_inum, ndentries_per_block}

-- `cwd_inode.direct` is gone through by its numbers, as `do_rmdir` also uses the number of
-- the block for an entry.
module _ (open_not : ℕ → ℕ) (before_zero : ℕ) {Disk : Type 0} (card : Card Disk) where
  abbrev pub drop_inode : FileSystem Disk → ℕ → FileSystem Disk
  drop_inode s n = record s { disk = free_inode open_not before_zero card s.disk (imap_start s) n }

  unfoldable pub drop_blocks : FileSystem Disk → (direct : List ℕ) → FileSystem Disk
  drop_blocks s [] = s
  drop_blocks s (b ∷ direct) =
      drop_blocks (record s { disk = free_block open_not before_zero card s.disk (bmap_start s) b })
        direct

  -- The inner loop of `do_rmdir` in block `i`: the match, or whether the function gives up. The test
  -- for an entry never used is of entry `i`.
  unfoldable pub scan_rmdir : (path : Bytes) → Bytes → (i n j : ℕ) → Option Scan
  scan_rmdir path buf i zero j = some Scan.no_more
  scan_rmdir path buf i (suc n) j =
      let rest = scan_rmdir path buf i n (j + 1) in
      let at_end =
        (dentry_inum buf i >>= λ inum. if inum == 0 then some (Scan.unused j) else rest) in
      matches (λ name. strcmp name path) buf j >>= λ hit.
      if hit then some (Scan.listed j) else at_end

  -- The loops of `do_rmdir`; a match is unlisted in the buffer.
  unfoldable pub unlist_dir :
      (path : Bytes)
      → FileSystem Disk
      → (i last : ℕ) → (direct : List ℕ) → Option (Scan × ℕ × FileSystem Disk)
  unlist_dir path s i last [] = some (Scan.no_more, last, s)
  unlist_dir path s i last (b ∷ direct) =
      let s1 = read_block card s b in
      let rest = unlist_dir path s1 (i + 1) b direct in
      let here =
        (scan_rmdir path s1.block_buf i ndentries_per_block 0 >>= λ r. elim r [
          | Scan.listed j ↦ some (Scan.listed j, b, record s1 { block_buf = unlist s1.block_buf j })
          | Scan.unused j ↦ some (Scan.unused j, b, s1)
          | Scan.no_more ↦ rest
        ]) in
      if b == 0 then some (Scan.no_more, b, s) else here

  unfoldable pub do_rmdir : FileSystem Disk → (path : Bytes) → Option (ℕ × FileSystem Disk)
  do_rmdir s path =
      let remove = λ (dir_inum : ℕ) (dir_inode : Inode) (block_num : ℕ) (s1 : FileSystem Disk).
        drop_blocks (drop_inode (write_block card s1 block_num) dir_inum) dir_inode.direct in
      let look = λ (p : ℕ × FileSystem Disk) (cwd_inode dir_inode : Inode).
        unlist_dir path p.1 0 0 cwd_inode.direct >>= λ r. elim r.0 [
          | Scan.listed j ↦ some (0, remove p.0 dir_inode r.1 r.2)
          | Scan.unused j ↦ some (1, r.2)
          | Scan.no_more ↦ some (0, remove p.0 dir_inode r.1 r.2)
        ] in
      parse_path card s path s.cwd_inum >>= λ p. read_inode card p.1 s.cwd_inum >>= λ cwd_inode.
      read_inode card p.1 p.0 >>= λ dir_inode.
      if dir_inode.type == file then some (1, p.1) else look p cwd_inode dir_inode

  -- The loops of `do_rm`, which look at every entry.
  unfoldable pub scan_rm : (path : Bytes) → Bytes → (n j : ℕ) → Option Scan
  scan_rm path buf zero j = some Scan.no_more
  scan_rm path buf (suc n) j =
      let rest = scan_rm path buf n (j + 1) in
      matches (λ name. strcmp name path) buf j >>= λ hit. if hit then some (Scan.listed j) else rest

  unfoldable pub unlist_file :
      (path : Bytes)
      → FileSystem Disk
      → (last : ℕ) → (direct : List ℕ) → Option (ℕ × FileSystem Disk)
  unlist_file path s last [] = some (last, s)
  unlist_file path s last (b ∷ direct) =
      let s1 = read_block card s b in
      let rest = unlist_file path s1 b direct in
      let here =
        (scan_rm path s1.block_buf ndentries_per_block 0 >>= λ r. elim r [
          | Scan.listed j ↦ some (b, record s1 { block_buf = unlist s1.block_buf j })
          | Scan.unused j ↦ rest
          | Scan.no_more ↦ rest
        ]) in
      if b == 0 then some (b, s) else here

  -- `ref` is a `uint32_t`, so that 0 less 1 is large.
  unfoldable pub do_rm : FileSystem Disk → (path : Bytes) → Option (ℕ × FileSystem Disk)
  do_rm s path =
      let remove = λ (p : ℕ × FileSystem Disk) (file_inode cwd_inode : Inode).
        let ref : ℕ = if file_inode.ref == 0 then 2 ^ 32 - 1 else file_inode.ref - 1 in
        unlist_file path p.1 0 cwd_inode.direct >>= λ r.
        let s1 = write_block card r.1 r.0 in
        let kept =
          (write_inode card s1 p.0 (record file_inode { ref = ref }) >>= λ s2. some (0, s2)) in
        if ltb 0 ref then kept else some (0, drop_blocks (drop_inode s1 p.0) file_inode.direct) in
      let in_cwd = λ (p : ℕ × FileSystem Disk) (file_inode : Inode).
        read_inode card p.1 s.cwd_inum >>= λ cwd_inode. remove p file_inode cwd_inode in
      let look = λ (p : ℕ × FileSystem Disk). read_inode card p.1 p.0 >>= λ file_inode.
      if file_inode.type == file then in_cwd p file_inode else some (1, p.1) in
      parse_path card s path s.cwd_inum >>= λ p. if p.0 == 0 then some (1, p.1) else look p
