-- ===== src/Fs/Dirs.antt =====
-- The operations on directories in kernel/fs/fs.c: `do_cd`, `do_mkdir`, `do_touch`, `do_ln`.
-- The result is what the function returns, with the state.
pub mod Enter
pub mod Lookup
pub mod Touch
pub mod Create
use ucas_os_kernel.Base.{
  ℕ, zero, suc, ◌+◌, ◌-◌, ◌*◌, ◌^◌, Bool, true, false, List, [], ◌∷◌, ◌++◌, Option, none, some,
  ◌>>=◌, ◌==◌, ltb, replicate, length, get_or, take, not, if◌then◌else◌,
}
use ucas_os_kernel.Base.Int.{ℤ}
use ucas_os_kernel.Base.Bytes.{Bytes, le_bytes, splice}
use ucas_os_kernel.Strings.{strlen, strcmp}
use ucas_os_kernel.Fs.{Card, alloc_inode, alloc_block, free_inode, free_block}
use ucas_os_kernel.Fs.Inode.{
  Inode, FileSystem, file, directory, imap_start, bmap_start, read_block, write_block, read_inode,
  write_inode, nbytes_per_block, ndirect_blocks,
}
use ucas_os_kernel.Fs.Dentry.{
  Scan, scan_blocks, parse_path, first_unused, put_dentry, unlist, matches, dentry_inum, is_zero,
  dentry_name_len, ndentries_per_block,
}

-- `memset(inode, 0, sizeof(inode_t))`
abbrev pub zero_inode : Inode
zero_inode = record {
  type = 0;
  permission = 0;
  size = 0;
  ref = 0;
  time_created = 0;
  direct = replicate ndirect_blocks 0;
  indirect = 0;
  double_indirect = 0;
}

-- A whole entry in use, with a short name.
abbrev pub dentry_bytes : (inum : ℕ) → (name : Bytes) → Bytes
dentry_bytes inum name =
    (1 ∷ 0 ∷ 0 ∷ 0 ∷ []) ++ (le_bytes 4 inum ++ (name ++ replicate (28 - length name) 0))

-- Whether a scan found the name.
abbrev pub is_listed : Scan → Bool
is_listed (Scan.listed j) = true
is_listed (Scan.unused j) = false
is_listed Scan.no_more = false

module _ {Disk : Type 0} (card : Card Disk) where
  -- The part that `do_mkdir` and `do_touch` share: the name is entered in the block.
  unfoldable pub append_dentry :
      FileSystem Disk → (block_num inum : ℕ) → (path : Bytes) → Option (FileSystem Disk)
  append_dentry s block_num inum path = do
    let s1 = read_block card s block_num
    j ← first_unused ndentries_per_block s1.block_buf 0
    buf ← put_dentry s1.block_buf j inum path
    some (write_block card (record s1 { block_buf = buf }) block_num)

module _ (open_shl : ℕ → ℕ) {Disk : Type 0} (card : Card Disk) where
  abbrev pub take_inode : FileSystem Disk → ℕ × FileSystem Disk
  take_inode s =
      let r = alloc_inode open_shl card s.disk (imap_start s) in (r.0, record s { disk = r.1 })

  abbrev pub take_block : FileSystem Disk → ℕ × FileSystem Disk
  take_block s =
      let r = alloc_block open_shl card s.disk (bmap_start s) in (r.0, record s { disk = r.1 })

  -- The inode's number and the inode.
  unfoldable pub init_dir_inode :
      FileSystem Disk → (parent_inum : ℕ) → Option (ℕ × Inode × FileSystem Disk)
  init_dir_inode s parent_inum =
      let a = take_inode s in
      let b = take_block a.1 in
      let inode : Inode = record zero_inode {
        type = directory;
        permission = 0x3ed;
        time_created = s.ticks;
        size = 0;
        direct = b.0 ∷ replicate 9 0;
        ref = 1;
      } in
      let entries = dentry_bytes a.0 (b'.' ∷ []) ++ dentry_bytes parent_inum (b'.' ∷ b'.' ∷ []) in
      write_inode card b.1 a.0 inode >>= λ s1. some (
        a.0,
        inode,
        write_block card (record s1 { block_buf = splice (replicate nbytes_per_block 0) 0 entries })
            b.0,
      )

  unfoldable pub do_mkdir : FileSystem Disk → (path : Bytes) → Option (ℕ × FileSystem Disk)
  do_mkdir s path =
      let make = λ (s1 : FileSystem Disk) (block_num : ℕ).
        let r = do
          r ← init_dir_inode s1 s.cwd_inum
          s2 ← append_dentry card r.2 block_num r.0 path
          some (0, s2)
        in r in
      let look = λ (cwd : Inode).
        scan_blocks card (λ name. strcmp path name) s 0 cwd.direct >>= λ r.
        if is_listed r.0 then some (1, r.2) else make r.2 r.1 in
      read_inode card s s.cwd_inum >>= λ cwd.
      strlen path >>= λ n. if ltb dentry_name_len n then some (1, s) else look cwd

  unfoldable pub do_touch : FileSystem Disk → (path : Bytes) → Option (ℕ × FileSystem Disk)
  do_touch s path =
      let new_file : Inode = record zero_inode {
        type = file;
        size = 0;
        time_created = s.ticks;
        permission = 0x1ed;
        ref = 1;
      } in
      let make = λ (s1 : FileSystem Disk) (block_num : ℕ).
        let a = take_inode s1 in
        let r = do
          s2 ← write_inode card a.1 a.0 new_file
          s3 ← append_dentry card s2 block_num a.0 path
          some (0, s3)
        in r in
      let look = λ (cwd : Inode).
        scan_blocks card (λ name. strcmp path name) s 0 cwd.direct >>= λ r.
        if is_listed r.0 then some (1, r.2) else make r.2 r.1 in
      read_inode card s s.cwd_inum >>= λ cwd.
      strlen path >>= λ n. if ltb dentry_name_len n then some (1, s) else look cwd

module _ {Disk : Type 0} (card : Card Disk) where
  unfoldable pub do_cd : FileSystem Disk → (path : Bytes) → Option (ℕ × FileSystem Disk)
  do_cd s path =
      let enter = λ (inum : ℕ) (s1 : FileSystem Disk). read_inode card s1 inum >>= λ new_cwd.
      if new_cwd.type == file then some (1, s1) else some (0, record s1 { cwd_inum = inum }) in
      parse_path card s path s.cwd_inum >>= λ r. if r.0 == 0 then some (1, r.1) else enter r.0 r.1

  -- `do_ln`'s scan, which only looks for an entry never used: how it ends does not matter, since the block
  -- then stands in the buffer. `block_num` and the state, with `block_num` before the loop as `last`.
  unfoldable pub has_unused : (n j : ℕ) → Bytes → Option Bool
  has_unused zero j buf = some false
  has_unused (suc n) j buf =
      let rest = has_unused n (j + 1) buf in
      dentry_inum buf j >>= λ inum. if inum == 0 then some true else rest

  unfoldable pub scan_unused :
      FileSystem Disk → (last : ℕ) → (direct : List ℕ) → Option (ℕ × FileSystem Disk)
  scan_unused s last [] = some (last, s)
  scan_unused s last (b ∷ direct) =
      let s1 = read_block card s b in
      let rest = scan_unused s1 b direct in
      let here =
        (has_unused ndentries_per_block 0 s1.block_buf >>= λ h. if h then some (b, s1) else rest) in
      if b == 0 then some (b, s) else here

  unfoldable pub do_ln :
      FileSystem Disk → (src_path dst_path : Bytes) → Option (ℕ × FileSystem Disk)
  do_ln s src_path dst_path =
      let link = do
        src ← parse_path card s src_path s.cwd_inum
        src_inode ← read_inode card src.1 src.0
        cwd_inode ← read_inode card src.1 s.cwd_inum
        r ← scan_unused src.1 0 cwd_inode.direct
        j ← first_unused ndentries_per_block r.1.block_buf 0
        buf ← put_dentry r.1.block_buf j src.0 dst_path
        s1 ←
            write_inode card (write_block card (record r.1 { block_buf = buf }) r.0) src.0
              (record src_inode { ref = src_inode.ref + 1 })
        some (0, s1)
      in strcmp src_path dst_path >>= λ c. if is_zero c then some (1, s) else link
