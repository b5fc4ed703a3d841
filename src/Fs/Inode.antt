-- ===== src/Fs/Inode.antt =====
-- The state of kernel/fs/fs.c, and its inodes and blocks on the card. `none` is an inode number 0, for
-- which `read_inode` and `write_inode` run out of their buffer.
pub mod Format
pub mod Store
use ucas_os_kernel.Base.{
  ℕ, zero, suc, ◌+◌, ◌*◌, ◌/◌, ◌%◌, List, [], ◌∷◌, ◌++◌, Option, none, some, take, drop,
}
use ucas_os_kernel.Base.Bytes.{Bytes, le_bytes, le_value, slice, splice}
use ucas_os_kernel.Fs.{Card}
use ucas_os_kernel.Fs.Buffer.{bytes_of_words, words_of_bytes, nbytes_per_sector}

abbrev pub nbytes_per_block : ℕ
nbytes_per_block = 4096

abbrev pub nsectors_per_block : ℕ
nsectors_per_block = 8

abbrev pub ndirect_blocks : ℕ
ndirect_blocks = 10

-- `superblock_t`
pub record Superblock : Type 0 where
  pub magic : ℕ
  pub start : ℕ
  pub size : ℕ
  pub bmap_offset : ℕ
  pub imap_offset : ℕ
  pub inode_offset : ℕ
  pub data_offset : ℕ
  pub inode_size : ℕ
  pub dentry_size : ℕ

-- `inode_t`, and its types.
pub record Inode : Type 0 where
  pub type : ℕ
  pub permission : ℕ
  pub size : ℕ
  pub ref : ℕ
  pub time_created : ℕ
  pub direct : List ℕ
  pub indirect : ℕ
  pub double_indirect : ℕ

abbrev pub file : ℕ
file = 1

abbrev pub directory : ℕ
directory = 2

-- `fdesc_t`
pub record Fdesc : Type 0 where
  pub inum : ℕ
  pub read : ℕ
  pub write : ℕ
  pub offset : ℕ

-- The globals of the file, `current_running->cwd_inum`, and what `get_ticks` gives.
pub record FileSystem (Disk : Type 0) : Type 0 where
  pub disk : Disk
  pub superblock : Superblock
  pub fdesc_array : ℕ → Fdesc
  pub block_buf : Bytes
  pub cwd_inum : ℕ
  pub ticks : ℕ

abbrev pub sizeof_inode : ℕ
sizeof_inode = 64

-- Element `i` of an array of `uint32_t` in a buffer.
unfoldable pub get_u32 : Bytes → ℕ → ℕ
get_u32 b i = le_value (slice b (4 * i) 4)

unfoldable pub put_u32 : Bytes → ℕ → ℕ → Bytes
put_u32 b i v = splice b (4 * i) (le_bytes 4 v)

-- The array of all given numbers, and the first `n` elements of one.
unfoldable pub u32s : List ℕ → Bytes
u32s [] = []
u32s (v ∷ vs) = le_bytes 4 v ++ u32s vs

unfoldable pub get_u32s : (n : ℕ) → Bytes → List ℕ
get_u32s zero b = []
get_u32s (suc n) b = le_value (take 4 b) ∷ get_u32s n (drop 4 b)

-- The layout of `inode_t`.
unfoldable pub encode_inode : Inode → Bytes
encode_inode i =
    le_bytes 2 i.type
    ++ (le_bytes 2 i.permission
        ++ (le_bytes 4 i.size
            ++ (le_bytes 4 i.ref
                ++ (le_bytes 4 i.time_created
                    ++ (u32s i.direct
                        ++ (le_bytes 4 i.indirect ++ le_bytes 4 i.double_indirect))))))

unfoldable pub decode_inode : Bytes → Inode
decode_inode b = record {
  type = le_value (slice b 0 2);
  permission = le_value (slice b 2 2);
  size = le_value (slice b 4 4);
  ref = le_value (slice b 8 4);
  time_created = le_value (slice b 12 4);
  direct = get_u32s ndirect_blocks (drop 16 b);
  indirect = le_value (slice b 56 4);
  double_indirect = le_value (slice b 60 4);
}

module _ {Disk : Type 0} where
  abbrev pub bmap_start : FileSystem Disk → ℕ
  bmap_start s = s.superblock.start + s.superblock.bmap_offset

  abbrev pub imap_start : FileSystem Disk → ℕ
  imap_start s = s.superblock.start + s.superblock.imap_offset

  -- The sector of inode `n + 1`.
  abbrev pub inode_sector : FileSystem Disk → ℕ → ℕ
  inode_sector s n = s.superblock.start + s.superblock.inode_offset + n / nsectors_per_block

module _ {Disk : Type 0} (card : Card Disk) where
  -- `bios_sdread` and `bios_sdwrite` of `n` sectors.
  unfoldable pub read_sectors : (n : ℕ) → Disk → (sector : ℕ) → Bytes
  read_sectors zero d sector = []
  read_sectors (suc n) d sector =
      bytes_of_words (card.read d sector) ++ read_sectors n d (sector + 1)

  unfoldable pub write_sectors : (n : ℕ) → Disk → (sector : ℕ) → Bytes → Disk
  write_sectors zero d sector b = d
  write_sectors (suc n) d sector b =
      write_sectors n (card.write d sector (words_of_bytes 64 (take nbytes_per_sector b)))
        (sector + 1) (drop nbytes_per_sector b)

  unfoldable pub read_block : FileSystem Disk → (block_num : ℕ) → FileSystem Disk
  read_block s block_num =
      let sector_num = s.superblock.start + block_num * nsectors_per_block in
      record s { block_buf = read_sectors nsectors_per_block s.disk sector_num }

  unfoldable pub write_block : FileSystem Disk → (block_num : ℕ) → FileSystem Disk
  write_block s block_num =
      let sector_num = s.superblock.start + block_num * nsectors_per_block in
      record s { disk = write_sectors nsectors_per_block s.disk sector_num s.block_buf }

  unfoldable pub read_inode : FileSystem Disk → (inode_num : ℕ) → Option Inode
  read_inode s zero = none
  read_inode s (suc n) =
      let sector_buf = bytes_of_words (card.read s.disk (inode_sector s n)) in
      let offset = n % nsectors_per_block in
      some (decode_inode (slice sector_buf (sizeof_inode * offset) sizeof_inode))

  unfoldable pub write_inode : FileSystem Disk → (inode_num : ℕ) → Inode → Option (FileSystem Disk)
  write_inode s zero i = none
  write_inode s (suc n) i =
      let sector_buf = bytes_of_words (card.read s.disk (inode_sector s n)) in
      let offset = n % nsectors_per_block in
      let changed = splice sector_buf (sizeof_inode * offset) (encode_inode i) in
      some (record s { disk = card.write s.disk (inode_sector s n) (words_of_bytes 64 changed) })
