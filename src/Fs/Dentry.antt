-- ===== src/Fs/Dentry.antt =====
-- Directory entries in kernel/fs/fs.c. A `dentry_t` takes 36 bytes: `valid` stands at 0, `inum` at 4 and `name`
-- at 8. `none` is a read or a write behind the end of a buffer, an inode number 0, or a path of too many parts.
pub mod Dir
pub mod Append
use ucas_os_kernel.Base.{
  ℕ, zero, suc, ◌+◌, ◌*◌, Bool, true, false, List, [], ◌∷◌, ◌++◌, Option, none, some, ◌>>=◌, ◌==◌,
  ltb, ◌||◌, get_elem?, take, drop, length, replicate, if◌then◌else◌,
}
use ucas_os_kernel.Base.Int.{ℤ, pos, negsuc}
use ucas_os_kernel.Base.Bytes.{Bytes, le_bytes, le_value, slice, splice}
use ucas_os_kernel.Strings.{strcpy, strcmp}
use ucas_os_kernel.Fs.{Card}
use ucas_os_kernel.Fs.Inode.{FileSystem, read_block, read_inode}

abbrev pub dentry_name_len : ℕ
dentry_name_len = 26

abbrev pub ndentries_per_block : ℕ
ndentries_per_block = 128

abbrev pub sizeof_dentry : ℕ
sizeof_dentry = 36

-- The fields of `dentries[j]` in a buffer; the name is the pointer to it.
abbrev pub dentry_valid : Bytes → ℕ → Option ℕ
dentry_valid buf j = get_elem? buf (sizeof_dentry * j)

abbrev pub dentry_inum : Bytes → ℕ → Option ℕ
dentry_inum buf j =
    if ltb (length buf) (sizeof_dentry * j + 8)
    then none
    else some (le_value (slice buf (sizeof_dentry * j + 4) 4))

abbrev pub dentry_name : Bytes → ℕ → Bytes
dentry_name buf j = drop (sizeof_dentry * j + 8) buf

-- Whether `strcmp` gave 0.
abbrev pub is_zero : ℤ → Bool
is_zero (pos n) = n == 0
is_zero (negsuc n) = false

-- `dentries[j].valid && strcmp(…) == 0`, where `cmp` is the call at the name.
unfoldable pub matches : (cmp : Bytes → Option ℤ) → Bytes → ℕ → Option Bool
matches cmp buf j = do
  valid ← dentry_valid buf j
  if valid == 0 then some false else (cmp (dentry_name buf j) >>= λ c. some (is_zero c))

-- How the loop over a block's entries ends: at a match, at an entry that was never used, or behind
-- the last.
pub data Scan : Type 0 where
  listed : ℕ → Scan
  unused : ℕ → Scan
  no_more : Scan

-- With `n` entries left from entry `j` on.
unfoldable pub scan : (cmp : Bytes → Option ℤ) → Bytes → (n j : ℕ) → Option Scan
scan cmp buf zero j = some no_more
scan cmp buf (suc n) j =
    let rest = scan cmp buf n (j + 1) in
    let at_end = (dentry_inum buf j >>= λ inum. if inum == 0 then some (unused j) else rest) in
    matches cmp buf j >>= λ hit. if hit then some (listed j) else at_end

-- What stands behind the first part of a path, which ends at a slash or at the end.
unfoldable pub next_part : Bytes → Option Bytes
next_part [] = none
next_part (c ∷ path) = if (c == b'/') || (c == 0) then some path else next_part path

module _ {Disk : Type 0} (card : Card Disk) where
  -- The loop over the direct blocks: how it ends, `block_num` then, and the state. Before the loop
  -- `block_num` is `last`.
  unfoldable pub scan_blocks :
      (cmp : Bytes → Option ℤ)
      → FileSystem Disk
      → (last : ℕ) → (direct : List ℕ) → Option (Scan × ℕ × FileSystem Disk)
  scan_blocks cmp s last [] = some (no_more, last, s)
  scan_blocks cmp s last (b ∷ direct) =
      let s1 = read_block card s b in
      let rest = scan_blocks cmp s1 b direct in
      let here =
        (scan cmp s1.block_buf ndentries_per_block 0 >>= λ r. elim r [
          | listed j ↦ some (listed j, b, s1)
          | unused j ↦ some (unused j, b, s1)
          | no_more ↦ rest
        ]) in
      if b == 0 then some (no_more, b, s) else here

  -- Each call is for a shorter path, of which 15 characters are left at most after the first.
  unfoldable pub parse_path_from :
      (fuel : ℕ) → FileSystem Disk → (path : Bytes) → (cwnd_inum : ℕ) → Option (ℕ × FileSystem Disk)
  parse_path_from zero s path cwnd_inum = none
  parse_path_from (suc fuel) s path cwnd_inum =
      let further =
        λ (s1 : FileSystem Disk) (next : Bytes) (inum : ℕ). parse_path_from fuel s1 next inum in
      let look = do
        path_copy ← strcpy (replicate 16 0) path
        next ← next_part path_copy
        inode ← read_inode card s cwnd_inum
        r ← scan_blocks (λ name. strcmp name path) s 0 inode.direct
        elim r.0 [
          | listed j ↦ (dentry_inum r.2.block_buf j >>= λ inum. further r.2 next inum)
          | unused j ↦ some (0, r.2)
          | no_more ↦ some (0, r.2)
        ]
      in get_elem? path 0 >>= λ c. if c == 0 then some (cwnd_inum, s) else look

  abbrev pub parse_path :
      FileSystem Disk → (path : Bytes) → (cwnd_inum : ℕ) → Option (ℕ × FileSystem Disk)
  parse_path s path cwnd_inum = parse_path_from 18 s path cwnd_inum

-- `while (dentry->inum != 0) dentry++`, which ends at the buffer's end at the latest.
unfoldable pub first_unused : (fuel : ℕ) → Bytes → (j : ℕ) → Option ℕ
first_unused zero buf j = none
first_unused (suc fuel) buf j =
    let rest = first_unused fuel buf (j + 1) in
    dentry_inum buf j >>= λ inum. if inum == 0 then some j else rest

-- The entry's three fields.
unfoldable pub put_dentry : Bytes → (j inum : ℕ) → (path : Bytes) → Option Bytes
put_dentry buf j inum path =
    let numbered = splice buf (sizeof_dentry * j + 4) (le_bytes 4 inum) in
    let valid = splice numbered (sizeof_dentry * j) (1 ∷ []) in
    strcpy (dentry_name valid j) path >>= λ named.
    some (take (sizeof_dentry * j + 8) valid ++ named)

abbrev pub unlist : Bytes → (j : ℕ) → Bytes
unlist buf j = splice buf (sizeof_dentry * j) (0 ∷ [])
