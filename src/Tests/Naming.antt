-- ===== src/Tests/Naming.antt =====
-- The theorems on directories and on `init_bigfile`, on the card in memory.
use ucas_os_kernel.Base.{
  ℕ, suc, ◌+◌, ◌*◌, ◌<◌, ◌≤◌, ◌≡◌, refl, ◌≢◌, inl, [], ◌∷◌, some, arith, replicate, length,
}
use ucas_os_kernel.Base.Bytes.{Bytes}
use ucas_os_kernel.Strings.Compare.{terminated}
use ucas_os_kernel.Fs.{Sector, alloc_inode, alloc_words, skip_ones, alloc_block}
use ucas_os_kernel.Fs.Inode.{Inode, FileSystem, read_inode, read_block, bmap_start}
use ucas_os_kernel.Fs.Blocks.{offset_to_blk}
use ucas_os_kernel.Fs.Blocks.Index.{length-read_block}
use ucas_os_kernel.Fs.Dentry.{parse_path}
use ucas_os_kernel.Fs.Dirs.{take_inode, do_touch}
use ucas_os_kernel.Fs.Dirs.Enter.{Holds, new_entry}
use ucas_os_kernel.Fs.Dirs.Lookup.{parse_path-lookup, parse_path-whole}
use ucas_os_kernel.Fs.Dirs.Touch.{touched, do_touch_lem, do_touch-refused}
use ucas_os_kernel.Fs.Dirs.Create.{parse_path-do_touch}
use ucas_os_kernel.Fs.Inode.Format.{IsInode}
use ucas_os_kernel.Fs.Make.{write_big_file}
use ucas_os_kernel.Fs.Make.Bigfile.{write_big_file-overlap}
use ucas_os_kernel.Tests.Disks.{
  ram_card, ram-IsCard, ram-HasSectors, sample_fs, root_inode, file_inode, read-root, read-file,
  root-Holds,
}

abbrev open_bits : ℕ → ℕ
open_bits k = 0

-- "notes"
abbrev notes : Bytes
notes = b'n' ∷ b'o' ∷ b't' ∷ b'e' ∷ b's' ∷ []

free_inode_number : (take_inode open_bits ram_card sample_fs).0 ≡ 3
unfolding alloc_inode alloc_words skip_ones
free_inode_number = refl

do_touch_example :
    (s' : FileSystem (ℕ → Sector)) × (do_touch open_bits ram_card sample_fs (terminated notes [])
      ≡ some (0, s'))
    × (read_inode ram_card s' (take_inode open_bits ram_card sample_fs).0 ≡ some (touched 500))
    × Holds ram_card s' 70 (new_entry (take_inode open_bits ram_card sample_fs).0 notes ∷ [])
    × ((c : ℕ)
        → c ≢ 70
        → 34 + 512 ≤ c * 8
        → (read_block ram_card s' c).block_buf ≡ (read_block ram_card sample_fs c).block_buf)
    × ((m : ℕ)
        → m < 4096
        → suc m ≢ (take_inode open_bits ram_card sample_fs).0
        → read_inode ram_card s' (suc m) ≡ read_inode ram_card sample_fs (suc m))
    × (length (read_block ram_card s' 70).block_buf ≡ 4096)
do_touch_example =
    do_touch_lem open_bits ram_card ram-IsCard sample_fs ram-HasSectors 70 (omega arith)
      (omega arith) root_inode (replicate 9 0) notes [] [] read-root refl root-Holds refl refl
      (omega arith) (omega arith) (omega arith) (omega (arith, free_inode_number)) (omega arith)

abbrev long_name : Bytes
long_name = replicate 27 b'a'

do_touch-refused_example :
    (buf : Bytes) × (do_touch open_bits ram_card sample_fs (terminated long_name [])
      ≡ some (1, record sample_fs { block_buf = buf }))
do_touch-refused_example =
    do_touch-refused open_bits ram_card ram-IsCard sample_fs ram-HasSectors 70 (omega arith)
      (omega arith) root_inode (replicate 9 0) long_name [] [] read-root refl root-Holds refl
      (omega arith) (inl (omega arith))

parse_path-do_touch_example :
    (s' : FileSystem (ℕ → Sector)) × (do_touch open_bits ram_card sample_fs (terminated notes [])
      ≡ some (0, s'))
    × (parse_path ram_card s' (terminated notes []) 1
        ≡ some ((take_inode open_bits ram_card sample_fs).0, read_block ram_card s' 70))
    × (read_inode ram_card s' (take_inode open_bits ram_card sample_fs).0 ≡ some (touched 500))
parse_path-do_touch_example =
    parse_path-do_touch open_bits ram_card ram-IsCard sample_fs ram-HasSectors 70 (omega arith)
      (omega arith) root_inode 0 (replicate 9 0) b'n' (b'o' ∷ b't' ∷ b'e' ∷ b's' ∷ []) [] refl
      (omega arith) read-root refl root-Holds (omega arith) refl refl (omega arith) refl
      (omega arith) (omega (arith, free_inode_number)) (λ e. omega (arith, e, free_inode_number))
      (omega arith) []

parse_path-lookup_example :
    parse_path ram_card sample_fs (terminated notes []) 1
    ≡ some (0, read_block ram_card sample_fs 70)
parse_path-lookup_example =
    parse_path-lookup ram_card sample_fs 1 root_inode 70 (replicate 9 0) b'n'
      (b'o' ∷ b't' ∷ b'e' ∷ b's' ∷ []) [] [] read-root refl (omega arith)
      (length-read_block ram_card sample_fs 70 ram-HasSectors) root-Holds (omega arith) refl refl
      (omega arith)

-- "a/b"
parse_path-whole_example :
    parse_path ram_card sample_fs (terminated (b'a' ∷ b'/' ∷ b'b' ∷ []) []) 1
    ≡ some (0, read_block ram_card sample_fs 70)
parse_path-whole_example =
    parse_path-whole ram_card sample_fs 1 root_inode 70 (replicate 9 0) b'a' (b'/' ∷ b'b' ∷ []) []
      [] read-root refl (omega arith) (length-read_block ram_card sample_fs 70 ram-HasSectors)
      root-Holds (omega arith) refl (omega arith) 0 refl

file-IsInode : IsInode file_inode
file-IsInode = record {
  type = omega arith;
  permission = omega arith;
  size = omega arith;
  ref = omega arith;
  time_created = omega arith;
  blocks = refl;
  direct = omega arith;
  indirect = omega arith;
  double_indirect = omega arith;
}

write_big_file-overlap_example :
    (s' : FileSystem (ℕ → Sector)) × (i' : Inode) × (write_big_file ram_card sample_fs ≡ some s')
    × (read_inode ram_card s' 2 ≡ some i')
    × ((alloc_block open_bits ram_card s'.disk (bmap_start s')).0 ≡ 2120)
    × (8376320 < i'.size)
    × ((offset_to_blk ram_card s' 8376320 i').0 ≡ 2120)
write_big_file-overlap_example =
    write_big_file-overlap open_bits ram_card ram-IsCard sample_fs file_inode file-IsInode read-file
      refl (omega arith) (omega arith) (omega arith)
