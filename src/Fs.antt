-- ===== src/Fs.antt =====
-- The block and inode maps of kernel/fs/fs.c; the children have the rest of the file.
pub mod Bitmap
pub mod Alloc
pub mod Free
pub mod Buffer
pub mod Inode
pub mod Blocks
pub mod Dentry
pub mod Dirs
pub mod Removal
pub mod Files
pub mod Show
pub mod Make
use ucas_os_kernel.Base.{
  ℕ, zero, suc, ◌+◌, ◌-◌, ◌*◌, ◌/◌, ◌%◌, ◌^◌, ◌≡◌, ◌≢◌, Bool, List, [], ◌∷◌, Option, none, some,
  bit_and, bit_or, ltb, ◌==◌, set, get_or, if◌then◌else◌,
}
use ucas_os_kernel.Mm.Pgtable.{word}

-- A sector of the card as its 64 words; `bios_sdread` and `bios_sdwrite` of one sector.
abbrev pub Sector : Type 0
Sector = List ℕ

pub record Card (Disk : Type 0) : Type 0 where
  pub read : Disk → (sector : ℕ) → Sector
  pub write : Disk → (sector : ℕ) → Sector → Disk

-- What is written is read.
pub record IsCard {Disk : Type 0} (c : Card Disk) : Type 0 where
  pub same : (d : Disk) (n : ℕ) (s : Sector) → c.read (c.write d n s) n ≡ s
  pub other : (d : Disk) (n m : ℕ) (s : Sector) → m ≢ n → c.read (c.write d n s) m ≡ c.read d m

abbrev pub nsectors_bmap : ℕ
nsectors_bmap = 32

abbrev pub nbits_per_sector : ℕ
nbits_per_sector = 4096

abbrev pub full_word : ℕ
full_word = word - 1

-- `1 << k` as it is joined to a word of 64 bits. The 1 is an `int`: at 31 it is the least `int`, whose
-- sign fills the upper half, and from 32 on the language leaves it open.
abbrev pub one_shl : (open_shl : ℕ → ℕ) → ℕ → ℕ
one_shl open_shl k = if ltb k 31 then 2 ^ k else if k == 31 then word - 2 ^ 31 else open_shl k

-- `while (val & 1) { val >>= 1; bnum++; }`
unfoldable pub skip_ones : (fuel val bnum : ℕ) → ℕ
skip_ones zero val bnum = bnum
skip_ones (suc fuel) val bnum =
    let rest = skip_ones fuel (val / 2) (bnum + 1) in if bit_and val 1 == 0 then bnum else rest

-- `~(1 << k)` as it meets a word of 64 bits: below 31 it is a negative `int`, whose sign fills the
-- upper half; at 31 it is the greatest `int`.
abbrev pub not_one_shl : (open_not : ℕ → ℕ) → ℕ → ℕ
not_one_shl open_not k =
    if ltb k 31 then full_word - 2 ^ k else if k == 31 then 2 ^ 31 - 1 else open_not k

module _ (open_shl : ℕ → ℕ) where
  -- The loop over the words of a sector: the changed words if a bit was free, and the number.
  unfoldable pub alloc_words : Sector → (bnum : ℕ) → Option Sector × ℕ
  alloc_words [] bnum = (none, bnum)
  alloc_words (w ∷ ws) bnum =
      let (r, n) = alloc_words ws (bnum + 64) in
      let b = skip_ones 64 w bnum in
      if w == full_word
      then (elim r [ none ↦ none | some vs ↦ some (w ∷ vs) ], n)
      else (some (bit_or w (one_shl open_shl (b % 64)) ∷ ws), b)

  module _ {Disk : Type 0} (card : Card Disk) where
    unfoldable pub alloc_inode : Disk → (imap_start : ℕ) → ℕ × Disk
    alloc_inode d imap_start =
        let words = card.read d imap_start in
        let (r, inum) = alloc_words words 0 in
        (inum + 1, card.write d imap_start (elim r [ none ↦ words | some changed ↦ changed ]))

    -- The loop of `alloc_block` over the sectors of the map, with `n` left from sector `i` on.
    unfoldable pub alloc_block_from : (n i bnum : ℕ) → Disk → (bmap_start : ℕ) → ℕ × Disk
    alloc_block_from zero i bnum d bmap_start = (bnum + 1, d)
    alloc_block_from (suc n) i bnum d bmap_start =
        let words = card.read d (bmap_start + i) in
        let (r, b) = alloc_words words bnum in
        let rest = alloc_block_from n (i + 1) b (card.write d (bmap_start + i) words) bmap_start in
        elim r [ none ↦ rest | some changed ↦ (b + 1, card.write d (bmap_start + i) changed) ]

    unfoldable pub alloc_block : Disk → (bmap_start : ℕ) → ℕ × Disk
    alloc_block d bmap_start = alloc_block_from nsectors_bmap 0 0 d bmap_start

-- Freeing. `before_zero` is what the mask is for the bit -1, to which the number of a block at a
-- multiple of 64 leads.
module _ (open_not : ℕ → ℕ) (before_zero : ℕ) where
  abbrev pub free_mask : (number : ℕ) → ℕ
  free_mask number =
      if number % 64 == 0 then before_zero else not_one_shl open_not (number % 64 - 1)

  module _ {Disk : Type 0} (card : Card Disk) where
    unfoldable pub free_block : Disk → (bmap_start block_num : ℕ) → Disk
    free_block d bmap_start block_num =
        let sector_offset = block_num / nbits_per_sector in
        let arr_offset = block_num % nbits_per_sector / 64 in
        let buf = card.read d (bmap_start + sector_offset) in
        let word_left =
          bit_and (get_or buf arr_offset 0) (free_mask (block_num % nbits_per_sector)) in
        if block_num == 0
        then d
        else card.write d (bmap_start + sector_offset) (set buf arr_offset word_left)

    unfoldable pub free_inode : Disk → (imap_start inode_num : ℕ) → Disk
    free_inode d imap_start inode_num =
        let buf = card.read d imap_start in
        let offset = inode_num / 64 in
        card.write d imap_start
          (set buf offset (bit_and (get_or buf offset 0) (free_mask inode_num)))
