-- ===== src/Fs/Blocks.antt =====
-- The blocks of a file in kernel/fs/fs.c: direct, through the indirect block, or through two levels.
pub mod Index
pub mod Slots
pub mod FileMap
pub mod Mapping
use ucas_os_kernel.Base.{
  ℕ, ◌+◌, ◌-◌, ◌*◌, ◌/◌, ◌%◌, Option, some, ltb, get_or, set, Option, ◌>>=◌, if◌then◌else◌,
}
use ucas_os_kernel.Fs.{Card}
use ucas_os_kernel.Fs.Inode.{
  Inode, FileSystem, read_block, write_block, write_inode, get_u32, put_u32, nbytes_per_block,
  ndirect_blocks,
}

abbrev pub nindirect_blocks : ℕ
nindirect_blocks = 1024

module _ {Disk : Type 0} (card : Card Disk) where
  unfoldable pub offset_to_blk : FileSystem Disk → (offset : ℕ) → Inode → ℕ × FileSystem Disk
  offset_to_blk s offset inode =
      let blk_num = offset / nbytes_per_block in
      let deep = blk_num - (ndirect_blocks + nindirect_blocks) in
      let in_indirect = read_block card s inode.indirect in
      let in_double = read_block card s inode.double_indirect in
      let db_indirect_blk_num = get_u32 in_double.block_buf (deep / nindirect_blocks) in
      let in_second = read_block card in_double db_indirect_blk_num in
      if ltb blk_num ndirect_blocks
      then (get_or inode.direct blk_num 0, s)
      else if ltb blk_num (ndirect_blocks + nindirect_blocks)
      then (get_u32 in_indirect.block_buf (blk_num - ndirect_blocks), in_indirect)
      else (get_u32 in_second.block_buf (deep % nindirect_blocks), in_second)

  -- `indirect[index] = new_blk` in the block that stands in the buffer, and its write.
  abbrev pub put_entry : FileSystem Disk → (block_num index new_blk : ℕ) → FileSystem Disk
  put_entry s block_num index new_blk =
      write_block card (record s { block_buf = put_u32 s.block_buf index new_blk }) block_num

  -- The inode is the caller's, which has the new one.
  unfoldable pub set_inode_blk_num :
      FileSystem Disk → (offset new_blk : ℕ) → Inode → (inum : ℕ) → Option (Inode × FileSystem Disk)
  set_inode_blk_num s offset new_blk inode inum =
      let blk_num = offset / nbytes_per_block in
      let deep = blk_num - (ndirect_blocks + nindirect_blocks) in
      let changed : Inode = record inode { direct = set inode.direct blk_num new_blk } in
      let direct = (write_inode card s inum changed >>= λ s1. some (changed, s1)) in
      let in_indirect = read_block card s inode.indirect in
      let in_double = read_block card s inode.double_indirect in
      let db_indirect_blk_num = get_u32 in_double.block_buf (deep / nindirect_blocks) in
      let in_second = read_block card in_double db_indirect_blk_num in
      if ltb blk_num ndirect_blocks
      then direct
      else if ltb blk_num (ndirect_blocks + nindirect_blocks)
      then some (inode, put_entry in_indirect inode.indirect (blk_num - ndirect_blocks) new_blk)
      else some (inode, put_entry in_second db_indirect_blk_num (deep % nindirect_blocks) new_blk)
