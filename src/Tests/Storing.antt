-- ===== src/Tests/Storing.antt =====
-- The theorems on inodes, blocks and open files, on the card in memory.
use ucas_os_kernel.Base.{
  true, ℕ, zero, suc, ◌+◌, ◌-◌, ◌*◌, ◌/◌, ◌%◌, ◌<◌, ◌≤◌, ◌≡◌, refl, ◌≢◌, ◌⊎◌, inl, inr, [], ◌∷◌,
  some, arith, ap, ◌∙◌, replicate, length, take, sym, subst, ◌==◌, if◌then◌else◌,
}
use ucas_os_kernel.Base.Int.{pos, negsuc, ◌+ℤ◌}
use ucas_os_kernel.Base.Bytes.{Bytes, AreBytes, slice}
use ucas_os_kernel.Fs.{Sector}
use ucas_os_kernel.Fs.Inode.{
  Inode, FileSystem, inode_sector, read_inode, write_inode, read_block, write_block,
}
use ucas_os_kernel.Fs.Inode.Format.{IsInode}
use ucas_os_kernel.Fs.Inode.Store.{read_inode-write_inode, read_block-write_block}
use ucas_os_kernel.Fs.Blocks.{set_inode_blk_num}
use ucas_os_kernel.Fs.Blocks.FileMap.{
  IsIndexed, in_use, block_at, leaf, file_block, offset_to_blk_lem,
}
use ucas_os_kernel.Fs.Blocks.Mapping.{set_inode_blk_num-mapping}
use ucas_os_kernel.Fs.Dentry.{parse_path, parse_path_from}
use ucas_os_kernel.Fs.Files.{do_lseek, do_fopen, do_fread, set_fdesc, set_mode, seek_end, o_rdonly}
use ucas_os_kernel.Fs.Files.Seek.{clamp, do_lseek-clamp}
use ucas_os_kernel.Fs.Files.Open.{do_fopen-free, do_fopen-refused}
use ucas_os_kernel.Fs.Files.Read.{block_of, content, last_start, do_fread_lem}
use ucas_os_kernel.Tests.Disks.{
  ram_card, ram, ram-IsCard, ram-HasSectors, sample_fs, file_inode, read-file,
}

-- A file whose indirect block is 80 and that has no double indirect block.
abbrev indexed : Inode
indexed = record file_inode { indirect = 80; double_indirect = 0 }

indexed-IsInode : IsInode indexed
indexed-IsInode = record {
  type = omega arith;
  permission = omega arith;
  size = omega arith;
  ref = omega arith;
  time_created = omega arith;
  blocks = refl;
  direct = omega arith;
  indirect = omega arith;
  double_indirect = omega arith;
}

read_inode-write_inode_example :
    (s' : FileSystem (ℕ → Sector)) × (write_inode ram_card sample_fs 4 indexed ≡ some s')
    × (read_inode ram_card s' 4 ≡ some indexed)
    × ((m : ℕ) → m ≢ 3 → read_inode ram_card s' (suc m) ≡ read_inode ram_card sample_fs (suc m))
    × ((k : ℕ) → k ≢ inode_sector sample_fs 3 → s'.disk k ≡ ram k)
    × (s' ≡ record sample_fs { disk = s'.disk })
read_inode-write_inode_example =
    read_inode-write_inode ram_card ram-IsCard sample_fs 3 indexed indexed-IsInode refl

abbrev filled : FileSystem (ℕ → Sector)
filled = record sample_fs { block_buf = replicate 4096 7 }

sevens : (n : ℕ) → AreBytes (replicate n 7)
sevens zero = tt
sevens (suc n) = (omega arith, sevens n)

sevens-length : (n : ℕ) → length {A = ℕ} (replicate n 7) ≡ n
sevens-length zero = refl
sevens-length (suc n) = ap suc (sevens-length n)

read_block-write_block_example :
    ((read_block ram_card (write_block ram_card filled 75) 75).block_buf ≡ replicate 4096 7)
    × ((c : ℕ)
        → c ≢ 75
        → (read_block ram_card (write_block ram_card filled 75) c).block_buf
          ≡ (read_block ram_card filled c).block_buf)
    × ((m : ℕ)
        → (m < 0 + 75 * 8) ⊎ (0 + 75 * 8 + 8 ≤ m)
        → (write_block ram_card filled 75).disk m ≡ ram m)
read_block-write_block_example =
    read_block-write_block ram_card ram-IsCard filled 75 (sevens 4096) (sevens-length 4096)

only_indirect : (g : ℕ) → in_use ram_card sample_fs indexed g ≡ true → g ≡ 0
only_indirect zero h = refl
only_indirect (suc g) h = absurd (ground arith)

indexed-IsIndexed : IsIndexed ram_card sample_fs indexed 1
indexed-IsIndexed = record {
  apart = λ g h.
      subst (λ (k : ℕ). leaf ram_card sample_fs indexed k ≢ 0) (sym (only_indirect g h))
        (omega arith);
  distinct = λ g h used other same. only_indirect h other ∙ sym (only_indirect g used);
  outside = λ c ne path. elim path [
    | inl e ↦ absurd (ne e)
    | inr l ↦
        let e : c ≡ 80 = l.2 ∙ ap (leaf ram_card sample_fs indexed) (only_indirect l.0 l.1) in
        inl (omega (arith, e))
  ];
}

set_inode_blk_num_example :
    (inode' : Inode) × (s' : FileSystem (ℕ → Sector)) × (set_inode_blk_num ram_card sample_fs
        (12 * 4096 + 5)
        90
        indexed
        2
      ≡ some (inode', s'))
    × ((o : ℕ)
        → block_at ram_card s' inode' o
          ≡ (if o / 4096 == 12 then some 90 else block_at ram_card sample_fs indexed o))
set_inode_blk_num_example =
    set_inode_blk_num-mapping ram_card ram-IsCard sample_fs ram-HasSectors indexed 1
      indexed-IsIndexed indexed-IsInode (12 * 4096 + 5) 90 (omega arith) refl

do_lseek-clamp_example :
    (do_lseek ram_card sample_fs (pos 0) 3 (negsuc 29) seek_end
      ≡ some (
        pos (clamp 100 (pos 100 +ℤ negsuc 29)),
        set_fdesc sample_fs 3
            (record (sample_fs.fdesc_array 3) { offset = clamp 100 (pos 100 +ℤ negsuc 29) }),
      ))
    × (clamp 100 (pos 100 +ℤ negsuc 29) ≤ 100)
unfolding ◌+ℤ◌
do_lseek-clamp_example =
    do_lseek-clamp ram_card sample_fs (pos 0) 3 file_inode read-file (omega arith) (omega arith)
      (negsuc 29) seek_end (omega arith) (omega arith) (omega arith)

seek_end_test : clamp 100 (pos 100 +ℤ negsuc 29) ≡ 70
unfolding ◌+ℤ◌
seek_end_test = refl

-- The empty path is the current directory.
here : parse_path ram_card sample_fs (0 ∷ []) 1 ≡ some (1, sample_fs)
unfolding parse_path_from
here = refl

do_fopen-free_example :
    do_fopen ram_card sample_fs (0 ∷ []) o_rdonly
    ≡ some (
      pos 0,
      set_fdesc sample_fs 0 (set_mode (record (sample_fs.fdesc_array 0) { inum = 1 }) o_rdonly),
    )
do_fopen-free_example =
    do_fopen-free ram_card sample_fs sample_fs (0 ∷ []) 1 o_rdonly here (omega arith) 0
      (omega arith) (λ j h. absurd (omega arith)) refl

abbrev all_taken : FileSystem (ℕ → Sector)
all_taken = record sample_fs {
  fdesc_array = λ i. record { inum = 2; read = 1; write = 0; offset = 0 };
}

here_taken : parse_path ram_card all_taken (0 ∷ []) 1 ≡ some (1, all_taken)
unfolding parse_path_from
here_taken = refl

do_fopen-refused_example :
    do_fopen ram_card all_taken (0 ∷ []) o_rdonly ≡ some (negsuc 0, all_taken)
do_fopen-refused_example =
    do_fopen-refused ram_card all_taken all_taken (0 ∷ []) 1 o_rdonly here_taken
      (inr (λ j h. omega arith))

first_block : (o : ℕ) → o < 4096 → block_of ram_card sample_fs file_inode o ≡ 71
first_block o h =
    let index : o / 4096 ≡ 0 = omega arith in
    offset_to_blk_lem ram_card sample_fs o file_inode
    ∙ ap (file_block ram_card sample_fs file_inode) index

do_fread_example :
    (buff' buf : Bytes) × (do_fread ram_card sample_fs 3 (replicate 20 1) 5
      ≡ some (
        pos 5,
        buff',
        set_fdesc
            (record sample_fs { block_buf = buf })
            3
            (record (sample_fs.fdesc_array 3) { offset = 10 + 5 }),
      ))
    × (0 < 5
        → take (10 + 5 - last_start 10 5) buff'
          ≡ slice
              (content ram_card sample_fs file_inode (last_start 10 5))
              (last_start 10 5 % 4096)
              (10 + 5 - last_start 10 5))
do_fread_example =
    do_fread_lem ram_card sample_fs 3 file_inode ram-HasSectors read-file (omega arith)
      (replicate 20 1) 5 (omega arith)
      (λ k h z. omega (arith, z, first_block (10 + k) (omega (arith, h))))
