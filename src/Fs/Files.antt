-- ===== src/Fs/Files.antt =====
-- Open files in kernel/fs/fs.c. `fd` is a number of the table, and lengths are not negative.
pub mod Seek
pub mod Open
pub mod Read
use ucas_os_kernel.Base.{
  ℕ, zero, suc, ◌+◌, ◌%◌, ◌^◌, ◌-◌, ◌*◌, ◌%◌, Option, none, some, ◌>>=◌, ◌==◌, ltb, upd, replicate,
  drop, take, ◌++◌, if◌then◌else◌,
}
use ucas_os_kernel.Base.Int.{ℤ, pos, negsuc, ◌+ℤ◌, ltb_ℤ}
use ucas_os_kernel.Base.Bytes.{Bytes}
use ucas_os_kernel.Mm.Pgtable.{word}
use ucas_os_kernel.Strings.{memcpy}
use ucas_os_kernel.Fs.{Card}
use ucas_os_kernel.Fs.Inode.{
  Inode, Fdesc, FileSystem, read_block, write_block, read_inode, write_inode, nbytes_per_block,
}
use ucas_os_kernel.Fs.Blocks.{offset_to_blk, set_inode_blk_num}
use ucas_os_kernel.Fs.Dentry.{parse_path}
use ucas_os_kernel.Fs.Dirs.{take_block}

abbrev pub num_fdescs : ℕ
num_fdescs = 16

abbrev pub o_rdonly : ℕ
o_rdonly = 1

abbrev pub o_wronly : ℕ
o_wronly = 2

abbrev pub o_rdwr : ℕ
o_rdwr = 3

-- `whence` of `do_lseek`
abbrev pub seek_set : ℕ
seek_set = 0

abbrev pub seek_cur : ℕ
seek_cur = 1

abbrev pub seek_end : ℕ
seek_end = 2

-- The `switch` of `do_fopen`; another mode leaves the permissions.
abbrev pub set_mode : Fdesc → (mode : ℕ) → Fdesc
set_mode f mode =
    if mode == o_rdonly
    then record f { read = 1; write = 0 }
    else if mode == o_wronly
    then record f { read = 0; write = 1 }
    else if mode == o_rdwr
    then record f { read = 1; write = 1 }
    else f

-- A number cut to an `int`, and a sum of `int`s as the processor adds them, modulo 2^32; C leaves a
-- sum that is out of range open.
unfoldable pub to_int : ℕ → ℤ
to_int n = let r = n % 2 ^ 32 in if ltb r (2 ^ 31) then pos r else negsuc (2 ^ 32 - 1 - r)

unfoldable pub wrap_int : ℤ → ℤ
unfolding to_int
wrap_int (pos n) = to_int n
wrap_int (negsuc n) = to_int (2 ^ 32 - 1 - n % 2 ^ 32)

-- The offset that `do_lseek` comes to; for another `whence` it is `unset`, a variable that was never set.
unfoldable pub seek_to : (file_size cur_offset unset offset : ℤ) → (whence : ℕ) → ℤ
unfolding wrap_int
seek_to file_size cur_offset unset offset whence =
    let from_cur = wrap_int (offset +ℤ cur_offset) in
    let from_end = wrap_int (file_size +ℤ offset) in
    if whence == seek_set
    then (if ltb_ℤ offset (pos 0)
        then pos 0
        else if ltb_ℤ file_size offset
        then file_size
        else offset)
    else if whence == seek_cur
    then (if ltb_ℤ offset (pos 0)
        then (if ltb_ℤ from_cur (pos 0) then pos 0 else from_cur)
        else if ltb_ℤ file_size from_cur
        then file_size
        else from_cur)
    else if whence == seek_end
    then (if ltb_ℤ offset (pos 0)
        then (if ltb_ℤ from_end (pos 0) then pos 0 else from_end)
        else file_size)
    else unset

-- A signed number as it is stored in 64 bits.
abbrev pub to_u64 : ℤ → ℕ
to_u64 (pos n) = n
to_u64 (negsuc n) = word - suc n

-- How much is moved at one time.
abbrev pub chunk : (inblk_offset length : ℕ) → ℕ
chunk inblk_offset length =
    if ltb nbytes_per_block (inblk_offset + length) then nbytes_per_block - inblk_offset else length

module _ {Disk : Type 0} where
  abbrev pub set_fdesc : FileSystem Disk → ℕ → Fdesc → FileSystem Disk
  set_fdesc s fd f = record s { fdesc_array = upd s.fdesc_array fd f }

  -- The loop of `do_fopen`, with `n` descriptors left from `i` on.
  unfoldable pub open_from : (n i : ℕ) → FileSystem Disk → (inum mode : ℕ) → ℤ × FileSystem Disk
  open_from zero i s inum mode = (negsuc 0, s)
  open_from (suc n) i s inum mode =
      let rest = open_from n (i + 1) s inum mode in
      let f = s.fdesc_array i in
      if f.inum == 0
      then (pos i, set_fdesc s i (set_mode (record f { inum = inum }) mode))
      else rest

  unfoldable pub do_fclose : FileSystem Disk → (fd : ℕ) → ℕ × FileSystem Disk
  do_fclose s fd = (0, set_fdesc s fd (record { inum = 0; read = 0; write = 0; offset = 0 }))

module _ {Disk : Type 0} (card : Card Disk) where
  unfoldable pub do_fopen :
      FileSystem Disk → (path : Bytes) → (mode : ℕ) → Option (ℤ × FileSystem Disk)
  do_fopen s path mode = parse_path card s path s.cwd_inum >>= λ r.
      if r.0 == 0 then some (negsuc 0, r.1) else some (open_from num_fdescs 0 r.1 r.0 mode)

  -- `offset` is an `int` here, and the new one goes to 64 bits.
  unfoldable pub do_lseek :
      FileSystem Disk
      → (unset : ℤ) → (fd : ℕ) → (offset : ℤ) → (whence : ℕ) → Option (ℤ × FileSystem Disk)
  do_lseek s unset fd offset whence =
      let f = s.fdesc_array fd in
      read_inode card s f.inum >>= λ inode.
      let result = seek_to (to_int inode.size) (to_int f.offset) unset offset whence in
      some (result, set_fdesc s fd (record f { offset = to_u64 result }))

  -- The loop of `do_fread`: the bytes read, the caller's buffer and the state. Every block goes to the
  -- buffer's start. `none` is that the buffer is too short.
  unfoldable pub fread_loop :
      (fuel : ℕ)
      → FileSystem Disk
      → Inode
      → (buff : Bytes) → (offset length bytes_read : ℕ) → Option (ℕ × Bytes × FileSystem Disk)
  fread_loop zero s inode buff offset length bytes_read = none
  fread_loop (suc fuel) s inode buff offset length bytes_read =
      let b = offset_to_blk card s offset inode in
      let inblk_offset = offset % nbytes_per_block in
      let len = chunk inblk_offset length in
      let s1 = read_block card b.1 b.0 in
      let more =
        (memcpy buff (drop inblk_offset s1.block_buf) len >>= λ filled.
        fread_loop fuel s1 inode filled (offset + len) (length - len) (bytes_read + len)) in
      if length == 0
      then some (bytes_read, buff, s)
      else if b.0 == 0
      then some (bytes_read, buff, b.1)
      else more

  unfoldable pub do_fread :
      FileSystem Disk
      → (fd : ℕ) → (buff : Bytes) → (length : ℕ) → Option (ℤ × Bytes × FileSystem Disk)
  do_fread s fd buff length =
      let f = s.fdesc_array fd in
      let body = do
        inode ← read_inode card s f.inum
        r ← fread_loop (suc length) s inode buff f.offset length 0
        some (pos r.0, r.1, set_fdesc r.2 fd (record f { offset = f.offset + r.0 }))
      in if f.read == 0 then some (negsuc 0, buff, s) else body

module _ (open_shl : ℕ → ℕ) {Disk : Type 0} (card : Card Disk) where
  -- The block that `do_fwrite` writes to, with its content or zeros in the buffer.
  unfoldable pub write_target :
      FileSystem Disk → (offset : ℕ) → Inode → (inum : ℕ) → Option (ℕ × Inode × FileSystem Disk)
  write_target s offset inode inum =
      let b = offset_to_blk card s offset inode in
      let a = take_block open_shl card b.1 in
      let new = do
        r ← set_inode_blk_num card a.1 offset a.0 inode inum
        some (a.0, r.0, record (r.1) { block_buf = replicate nbytes_per_block 0 })
      in if b.0 == 0 then new else some (b.0, inode, read_block card b.1 b.0)

  -- Each block is given the start of the caller's buffer.
  unfoldable pub fwrite_loop :
      (fuel : ℕ)
      → FileSystem Disk
      → Inode
      → (inum : ℕ) → (buff : Bytes) → (offset length : ℕ) → Option (Inode × FileSystem Disk)
  fwrite_loop zero s inode inum buff offset length = none
  fwrite_loop (suc fuel) s inode inum buff offset length =
      let inblk_offset = offset % nbytes_per_block in
      let len = chunk inblk_offset length in
      let further = λ (s1 : FileSystem Disk) (inode1 : Inode).
        fwrite_loop fuel s1 inode1 inum buff (offset + len) (length - len) in
      let more = do
        t ← write_target s offset inode inum
        let buf = t.2.block_buf
        filled ← memcpy (drop inblk_offset buf) buff len
        let s1 = record (t.2) { block_buf = take inblk_offset buf ++ filled }
        further (write_block card s1 t.0) t.1
      in if length == 0 then some (inode, s) else more

  -- What is returned is the length that is left, which is 0.
  unfoldable pub do_fwrite :
      FileSystem Disk → (fd : ℕ) → (buff : Bytes) → (length : ℕ) → Option (ℤ × FileSystem Disk)
  do_fwrite s fd buff length =
      let f = s.fdesc_array fd in
      let s0 = set_fdesc s fd (record f { offset = f.offset + length }) in
      let body = do
        inode ← read_inode card s f.inum
        let size = if ltb inode.size (f.offset + length) then f.offset + length else inode.size
        r ← fwrite_loop (suc length) s0 (record inode { size = size }) f.inum buff f.offset length
        s1 ← write_inode card r.1 f.inum r.0
        some (pos 0, s1)
      in if f.write == 0 then some (negsuc 0, s) else body
