-- ===== src/Fs/Show.antt =====
-- The parts of kernel/fs/fs.c that print: `do_statfs`, `do_ls`, `do_cat`. What goes to the console is a value.
use ucas_os_kernel.Base.{
  ℕ, zero, suc, ◌+◌, ◌*◌, ◌/◌, List, [], ◌∷◌, ◌++◌, Option, none, some, ◌>>=◌, ◌==◌, ◌||◌, ltb,
  bit_and, get_elem?, get_or, Bool, true, false, if◌then◌else◌,
}
use ucas_os_kernel.Base.Bytes.{Bytes, slice}
use ucas_os_kernel.Fs.{Card, nsectors_bmap}
use ucas_os_kernel.Fs.Inode.{
  FileSystem, file, directory, bmap_start, imap_start, read_block, read_inode,
}
use ucas_os_kernel.Fs.Dentry.{
  dentry_valid, dentry_inum, dentry_name, ndentries_per_block, parse_path,
}
use ucas_os_kernel.Fs.Make.{load_superblock}

-- A number of 64 bits is 0 after 64 rounds.
unfoldable pub popcnt : (fuel val : ℕ) → ℕ
popcnt zero val = 0
popcnt (suc fuel) val =
    let rest = popcnt fuel (val / 2) in
    if val == 0 then 0 else if bit_and val 1 == 0 then rest else suc rest

-- The words of one sector of the block map: the count, and whether a word had no bit, which ends all.
unfoldable pub count_words : List ℕ → (used : ℕ) → ℕ × Bool
count_words [] used = (used, false)
count_words (w ∷ ws) used =
    let cnt = popcnt 64 w in
    let rest = count_words ws (used + cnt) in if cnt == 0 then (used, true) else rest

-- The words of the inode map, up to one with fewer than 32 bits.
unfoldable pub count_inodes : List ℕ → (used : ℕ) → ℕ
count_inodes [] used = used
count_inodes (w ∷ ws) used =
    let cnt = popcnt 64 w in
    let rest = count_inodes ws (used + cnt) in if ltb cnt 32 then used + cnt else rest

-- What `print_dentry` prints of an entry: its name, or all of its inode.
pub data Printed : Type 0 where
  short : (name : Bytes) → Printed
  long : (type size time_created : ℕ) → (name : Bytes) → Printed

-- `enum LS_MODE`
abbrev pub default : ℕ
default = 0

abbrev pub all_mode : ℕ
all_mode = 1

abbrev pub long_mode : ℕ
long_mode = 2

module _ {Disk : Type 0} (card : Card Disk) where
  -- With `n` sectors left from sector `i` on.
  unfoldable pub count_sectors : (n i : ℕ) → Disk → (bmap_start used : ℕ) → ℕ
  count_sectors zero i d bmap_start used = used
  count_sectors (suc n) i d bmap_start used =
      let r = count_words (card.read d (bmap_start + i)) used in
      let rest = count_sectors n (i + 1) d bmap_start r.0 in if r.1 then r.0 else rest

  -- The blocks and inodes in use that are printed.
  unfoldable pub do_statfs :
      (spill : Bytes → FileSystem Disk → FileSystem Disk)
      → FileSystem Disk
      → ℕ × ℕ × FileSystem Disk
  do_statfs spill s =
      let s1 = load_superblock card spill s in
      (
        count_sectors nsectors_bmap 0 s1.disk (bmap_start s1) 0,
        count_inodes (card.read s1.disk (imap_start s1)) 0,
        s1,
      )

  -- `none` also is an assertion that fails.
  unfoldable pub print_dentry :
      FileSystem Disk → (inum : ℕ) → (name : Bytes) → (option : ℕ) → Option (List Printed)
  print_dentry s inum name option =
      let plain =
        (get_elem? name 0 >>= λ c. if c == b'.' then some [] else some (short name ∷ [])) in
      let full =
        (read_inode card s inum >>= λ i.
        if (i.type == file) || (i.type == directory)
        then some (long i.type i.size i.time_created name ∷ [])
        else none) in
      if option == default
      then plain
      else if option == all_mode
      then some (short name ∷ [])
      else if option == long_mode
      then full
      else some []

  -- The entries of one block, with `n` left from `j` on.
  unfoldable pub ls_dentries : FileSystem Disk → (n j option : ℕ) → Option (List Printed)
  ls_dentries s zero j option = some []
  ls_dentries s (suc n) j option =
      let rest = ls_dentries s n (j + 1) option in
      let shown = do
        inum ← dentry_inum s.block_buf j
        out ← print_dentry s inum (dentry_name s.block_buf j) option
        more ← rest
        some (out ++ more)
      in let skipped =
          (dentry_inum s.block_buf j >>= λ inum. if inum == 0 then some [] else rest) in
        dentry_valid s.block_buf j >>= λ valid. if valid == 0 then skipped else shown

  unfoldable pub ls_blocks :
      FileSystem Disk → (direct : List ℕ) → (option : ℕ) → Option (List Printed × FileSystem Disk)
  ls_blocks s [] option = some ([], s)
  ls_blocks s (b ∷ direct) option =
      let s1 = read_block card s b in
      let rest = ls_blocks s1 direct option in
      let here = do
        out ← ls_dentries s1 ndentries_per_block 0 option
        r ← rest
        some (out ++ r.0, r.1)
      in if b == 0 then some ([], s) else here

  unfoldable pub do_ls :
      FileSystem Disk → (path : Bytes) → (option : ℕ) → Option (ℕ × List Printed × FileSystem Disk)
  do_ls s path option = do
    p ← parse_path card s path s.cwd_inum
    inode ← read_inode card p.1 p.0
    let list = (ls_blocks p.1 inode.direct option >>= λ r. some (0, r.0, r.1))
    if inode.type == file then some (1, [], p.1) else list

  -- The lines of one block for `do_cat`, with `n` left from `j` on, and whether an empty one ended all.
  unfoldable pub cat_lines : Bytes → (n j : ℕ) → List Bytes × Bool
  cat_lines buf zero j = ([], false)
  cat_lines buf (suc n) j =
      let rest = cat_lines buf n (j + 1) in
      let str_buf = slice buf (j * 32) 32 in
      if get_or str_buf 0 0 == 0 then ([], true) else (str_buf ∷ rest.0, rest.1)

  unfoldable pub cat_blocks : FileSystem Disk → (direct : List ℕ) → List Bytes × FileSystem Disk
  cat_blocks s [] = ([], s)
  cat_blocks s (b ∷ direct) =
      let s1 = read_block card s b in
      let lines = cat_lines s1.block_buf 128 0 in
      let rest = cat_blocks s1 direct in
      if lines.1 then (lines.0, s1) else (lines.0 ++ rest.0, rest.1)

  unfoldable pub do_cat :
      FileSystem Disk → (path : Bytes) → Option (ℕ × List Bytes × FileSystem Disk)
  do_cat s path = do
    p ← parse_path card s path s.cwd_inum
    inode ← read_inode card p.1 p.0
    let r = cat_blocks p.1 inode.direct
    if inode.type == directory then some (1, [], p.1) else some (0, r.0, r.1)
