-- ===== src/Tests/Disks.antt =====
-- A card in memory, with an inode map, a root directory (inode 1, its entries in block 70) and a file of 100 bytes
-- (inode 2, with block 71).
use ucas_os_kernel.Base.{
  ℕ, zero, suc, ◌+◌, ◌*◌, ◌^◌, ◌≤◌, ◌≡◌, refl, [], ◌∷◌, ◌++◌, some, arith, ap₂, upd, replicate,
  length, ◌==◌, if◌then◌else◌,
}
use ucas_os_kernel.Base.Bytes.{Bytes, le_bytes, le_value, slice}
use ucas_os_kernel.Fs.{Sector, Card, IsCard}
use ucas_os_kernel.Fs.Buffer.{bytes_of_words}
use ucas_os_kernel.Fs.Inode.{
  Inode, Fdesc, FileSystem, read_sectors, read_block, read_inode, decode_inode, get_u32s, file,
  directory,
}
use ucas_os_kernel.Fs.Inode.Store.{HasSectors}
use ucas_os_kernel.Fs.Blocks.Index.{length-read_block}
use ucas_os_kernel.Fs.Dirs.Enter.{Holds}

abbrev pub ram_card : Card (ℕ → Sector)
ram_card = record { read = λ d n. d n; write = λ d n s. upd d n s }

pub ram-IsCard : IsCard ram_card
ram-IsCard = record { same = λ d n s. ground arith; other = λ d n m s ne. ground arith }

abbrev pub map_sector : Sector
map_sector = 3 ∷ replicate 63 0

abbrev pub inodes_sector : Sector
inodes_sector =
    (2 + 0x3ed * 2 ^ 16)
    ∷ 1
    ∷ 70
    ∷ (replicate 5 0 ++ ((1 + 0x1ed * 2 ^ 16 + 100 * 2 ^ 32) ∷ 1 ∷ 71 ∷ replicate 53 0))

abbrev pub ram : ℕ → Sector
ram n = if n == 33 then map_sector else if n == 34 then inodes_sector else replicate 64 0

abbrev pub closed : Fdesc
closed = record { inum = 0; read = 0; write = 0; offset = 0 }

-- Descriptor 3 has the file open, at offset 10.
abbrev pub sample_fs : FileSystem (ℕ → Sector)
sample_fs = record {
  disk = ram;
  superblock = record {
    magic = 0x20221205;
    start = 0;
    size = 0x100000;
    bmap_offset = 1;
    imap_offset = 33;
    inode_offset = 34;
    data_offset = 546;
    inode_size = 64;
    dentry_size = 36;
  };
  fdesc_array =
      λ i. if i == 3 then record { inum = 2; read = 1; write = 1; offset = 10 } else closed;
  block_buf = [];
  cwd_inum = 1;
  ticks = 500;
}

abbrev pub root_inode : Inode
root_inode = record {
  type = directory;
  permission = 0x3ed;
  size = 0;
  ref = 1;
  time_created = 0;
  direct = 70 ∷ replicate 9 0;
  indirect = 0;
  double_indirect = 0;
}

abbrev pub file_inode : Inode
file_inode = record {
  type = file;
  permission = 0x1ed;
  size = 100;
  ref = 1;
  time_created = 0;
  direct = 71 ∷ replicate 9 0;
  indirect = 0;
  double_indirect = 0;
}

pub ram-HasSectors : HasSectors ram_card ram
ram-HasSectors n = ground arith

pub read-root : read_inode ram_card sample_fs 1 ≡ some root_inode
unfolding read_inode decode_inode bytes_of_words le_bytes le_value get_u32s
read-root = refl

pub read-file : read_inode ram_card sample_fs 2 ≡ some file_inode
unfolding read_inode decode_inode bytes_of_words le_bytes le_value get_u32s
read-file = refl

-- Blocks of zeros.
abbrev pub AllZero : Bytes → Type 0
AllZero [] = Unit {0}
AllZero (c ∷ cs) = (c ≡ 0) × AllZero cs

append-AllZero : (xs ys : Bytes) → AllZero xs → AllZero ys → AllZero (xs ++ ys)
append-AllZero [] ys h k = k
append-AllZero (x ∷ xs) ys h k = (h.0, append-AllZero xs ys h.1 k)

zero_sector : AllZero (bytes_of_words (replicate 64 0))
unfolding bytes_of_words le_bytes
zero_sector = omega arith

zero_sectors-AllZero : (n k : ℕ) → 35 ≤ k → AllZero (read_sectors ram_card n ram k)
unfolding read_sectors
zero_sectors-AllZero zero k h = tt
zero_sectors-AllZero (suc n) k h =
    let zeros : ram k ≡ replicate 64 0 = ground arith in
    append-AllZero (bytes_of_words (ram k)) _ (rw zeros zero_sector)
      (zero_sectors-AllZero n (k + 1) (omega (arith, h)))

slice-AllZero : (b : Bytes) (o n : ℕ) → AllZero b → o + n ≤ length b → slice b o n ≡ replicate n 0
slice-AllZero b o zero z h = refl
slice-AllZero [] o (suc n) z h = absurd (omega arith)
slice-AllZero (x ∷ b) zero (suc n) z h =
    ap₂ (λ (a : ℕ) (zs : Bytes). a ∷ zs) z.0 (slice-AllZero b 0 n z.1 (omega arith))
slice-AllZero (x ∷ b) (suc o) (suc n) z h = slice-AllZero b o (suc n) z.1 (omega (arith, h))

pub zero_block : (c : ℕ) → 5 ≤ c → AllZero (read_block ram_card sample_fs c).block_buf
unfolding read_block
zero_block c h = zero_sectors-AllZero 8 (0 + c * 8) (omega (arith, h))

pub root-Holds : Holds ram_card sample_fs 70 []
unfolding le_bytes
root-Holds k low high =
    let b = (read_block ram_card sample_fs 70).block_buf in
    let len = length-read_block ram_card sample_fs 70 ram-HasSectors in
    record {
      valid = slice-AllZero b (36 * k) 1 (zero_block 70 (omega arith)) (omega (arith, high, len));
      inum =
          slice-AllZero b (36 * k + 4) 4 (zero_block 70 (omega arith)) (omega (arith, high, len));
    }
