-- ===== src/Fs/Make.antt =====
-- Making a file system, and finding one at start-up, in kernel/fs/fs.c.
pub mod Numbers
pub mod Bigfile
use ucas_os_kernel.Base.{
  ℕ, zero, suc, ◌+◌, ◌*◌, List, [], ◌∷◌, ◌++◌, Option, none, some, ◌>>=◌, ◌==◌, replicate, take,
  drop, if◌then◌else◌,
}
use ucas_os_kernel.Base.Bytes.{Bytes, le_bytes, le_value, slice, splice}
use ucas_os_kernel.Fs.{Card, full_word, nsectors_bmap}
use ucas_os_kernel.Fs.Buffer.{bytes_of_words, words_of_bytes}
use ucas_os_kernel.Fs.Inode.{
  Superblock, Inode, FileSystem, bmap_start, imap_start, sizeof_inode, u32s, write_block,
  read_inode, write_inode,
}
use ucas_os_kernel.Fs.Dentry.{sizeof_dentry}
use ucas_os_kernel.Fs.Dirs.{init_dir_inode, do_touch}

abbrev pub superblock_magic : ℕ
superblock_magic = 0x20221205

abbrev pub fs_start_sector : ℕ
fs_start_sector = 0x100000

abbrev pub nsectors_fs : ℕ
nsectors_fs = 0x100000

abbrev pub nsectors_superblock : ℕ
nsectors_superblock = 1

abbrev pub nsectors_imap : ℕ
nsectors_imap = 1

abbrev pub nsectors_inodeblock : ℕ
nsectors_inodeblock = 512

abbrev pub root_dir_inum : ℕ
root_dir_inum = 1

abbrev pub test_big_file_inum : ℕ
test_big_file_inum = 2

-- The layout of `superblock_t`.
unfoldable pub encode_superblock : Superblock → Bytes
encode_superblock b =
    u32s (
      b.magic ∷ b.start ∷ b.size ∷ b.bmap_offset ∷ b.imap_offset ∷ b.inode_offset ∷ b.data_offset
      ∷ [])
    ++ (le_bytes 2 b.inode_size ++ le_bytes 2 b.dentry_size)

unfoldable pub decode_superblock : Bytes → Superblock
decode_superblock b = record {
  magic = le_value (slice b 0 4);
  start = le_value (slice b 4 4);
  size = le_value (slice b 8 4);
  bmap_offset = le_value (slice b 12 4);
  imap_offset = le_value (slice b 16 4);
  inode_offset = le_value (slice b 20 4);
  data_offset = le_value (slice b 24 4);
  inode_size = le_value (slice b 28 2);
  dentry_size = le_value (slice b 30 2);
}

-- What `do_mkfs` sets.
abbrev pub made_superblock : Superblock
made_superblock = record {
  magic = superblock_magic;
  start = fs_start_sector;
  size = nsectors_fs;
  bmap_offset = nsectors_superblock;
  imap_offset = nsectors_superblock + nsectors_bmap;
  inode_offset = nsectors_superblock + nsectors_bmap + nsectors_imap;
  data_offset = nsectors_superblock + nsectors_bmap + nsectors_imap + nsectors_inodeblock;
  inode_size = sizeof_inode;
  dentry_size = sizeof_dentry;
}

-- `n` numbers from `k` on: the blocks that a loop of `free_block++` hands out.
unfoldable pub count_from : (n k : ℕ) → List ℕ
count_from zero k = []
count_from (suc n) k = k ∷ count_from n (k + 1)

-- `8MB.dat`
abbrev pub big_file_name : Bytes
big_file_name = b'8' ∷ b'M' ∷ b'B' ∷ b'.' ∷ b'd' ∷ b'a' ∷ b't' ∷ 0 ∷ []

-- The first sector of the block map that `init_bigfile` writes, and the blocks of the file: ten direct
-- ones from 72 on, the indirect block and 1024 blocks, the double indirect block, and its only index
-- block and 1014 blocks.
abbrev pub big_file_map : List ℕ
big_file_map = replicate 33 full_word ++ 0x7f ∷ replicate 30 0

abbrev pub big_file_inode : Inode → Inode
big_file_inode i = record i {
  direct = count_from 10 72;
  indirect = 82;
  double_indirect = 1107;
  size = 8388608;
}

module _ {Disk : Type 0} (card : Card Disk) where
  -- A block of numbers, with zeros behind them.
  abbrev pub write_index :
      FileSystem Disk → (block_num : ℕ) → List ℕ → (zeros : ℕ) → FileSystem Disk
  write_index s block_num entries zeros =
      write_block card (record s { block_buf = u32s entries ++ replicate zeros 0 }) block_num

  unfoldable pub write_big_file : FileSystem Disk → Option (FileSystem Disk)
  write_big_file s = read_inode card s test_big_file_inum >>= λ big_file.
      let s1 : FileSystem Disk = record s {
        disk = card.write s.disk (bmap_start s) big_file_map;
      } in
      let s2 = write_index s1 82 (count_from 1024 83) 0 in
      let s3 = write_index s2 1107 (1108 ∷ []) 4092 in
      let s4 = write_index s3 1108 (count_from 1014 1109) 40 in
      write_inode card s4 test_big_file_inum (big_file_inode big_file)

  -- `n` sectors of zeros from sector `k` on.
  unfoldable pub zero_sectors : (n k : ℕ) → Disk → Disk
  zero_sectors zero k d = d
  zero_sectors (suc n) k d = zero_sectors n (k + 1) (card.write d k (replicate 64 0))

  -- The part of `do_mkfs` before the root directory is made.
  unfoldable pub write_maps : FileSystem Disk → FileSystem Disk
  write_maps s =
      let s1 : FileSystem Disk = record s { superblock = made_superblock } in
      let first =
        words_of_bytes 64 (splice (replicate 512 0) 0 (encode_superblock made_superblock)) in
      let d1 = card.write s.disk fs_start_sector first in
      let d2 = card.write d1 (bmap_start s1) (full_word ∷ 0x3f ∷ replicate 62 0) in
      let d3 = zero_sectors 31 (bmap_start s1 + 1) d2 in
      record s1 { disk = card.write d3 (imap_start s1) (replicate 64 0) }

module _ (open_shl : ℕ → ℕ) {Disk : Type 0} (card : Card Disk) where
  unfoldable pub init_bigfile : FileSystem Disk → Option (FileSystem Disk)
  init_bigfile s = do_touch open_shl card s big_file_name >>= λ r. write_big_file card r.1

  unfoldable pub do_mkfs : FileSystem Disk → Option (ℕ × FileSystem Disk)
  do_mkfs s = do
    r ← init_dir_inode open_shl card (write_maps card s) root_dir_inum
    s1 ← init_bigfile (record (r.2) { cwd_inum = root_dir_inum })
    some (0, s1)

module _ {Disk : Type 0} (card : Card Disk)
    (spill : Bytes → FileSystem Disk → FileSystem Disk) where
  -- A whole sector is copied to the superblock: what its last 480 bytes do to the globals that stand
  -- behind the superblock is the parameter `spill`.
  unfoldable pub load_superblock : FileSystem Disk → FileSystem Disk
  load_superblock s =
      let buf = bytes_of_words (card.read s.disk fs_start_sector) in
      spill (drop 32 buf) (record s { superblock = decode_superblock (take 32 buf) })

  unfoldable pub init_superblock : (open_shl : ℕ → ℕ) → FileSystem Disk → Option (FileSystem Disk)
  init_superblock open_shl s =
      let s1 = load_superblock s in
      let made = (do_mkfs open_shl card s1 >>= λ r. some r.1) in
      if s1.superblock.magic == superblock_magic
      then some (record s1 { cwd_inum = root_dir_inum })
      else made
