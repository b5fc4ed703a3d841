-- ===== src/Fs/Make/Bigfile.antt =====
-- `init_bigfile` marks fewer blocks in the map than it gives to the file.
use ucas_os_kernel.Base.{
  ℕ, zero, suc, ◌+◌, ◌*◌, ◌/◌, ◌<◌, ◌≤◌, ◌≡◌, ◌≢◌, ◌⊎◌, inl, refl, some, arith, ap, ◌∙◌, sym, subst,
  List, [], ◌∷◌, ◌++◌, length, get_or, replicate, length-append, length-replicate,
}
use ucas_os_kernel.Base.Bytes.{Bytes, append-AreBytes}
use ucas_os_kernel.Fs.{Card, IsCard, full_word, alloc_block}
use ucas_os_kernel.Fs.Bitmap.{FirstFree}
use ucas_os_kernel.Fs.Alloc.{alloc_block_lem}
use ucas_os_kernel.Fs.Inode.{
  Inode, Superblock, FileSystem, u32s, get_u32, read_block, write_block, read_inode, write_inode,
  bmap_start, inode_sector, read_sectors,
}
use ucas_os_kernel.Fs.Inode.Format.{IsInode, AreU32, length-u32s, u32s-AreBytes}
use ucas_os_kernel.Fs.Inode.Store.{
  read_inode-write_inode, read_block-write_block, read_sectors-same,
}
use ucas_os_kernel.Fs.Blocks.{offset_to_blk}
use ucas_os_kernel.Fs.Blocks.Index.{entry}
use ucas_os_kernel.Fs.Blocks.FileMap.{offset_to_blk_lem}
use ucas_os_kernel.Fs.Make.{count_from, big_file_map, big_file_inode, write_index, write_big_file}
use ucas_os_kernel.Fs.Make.Numbers.{
  get_or-count_from, length-count_from, count_from-AreU32, get_u32-u32s, replicate-AreBytes,
  first_free_7f,
}

module _ {Disk : Type 0} (card : Card Disk) (law : IsCard card) where
  module _ (s : FileSystem Disk) (c zeros : ℕ) (entries : List ℕ) (words : AreU32 entries)
      (full : 4 * length entries + zeros ≡ 4096) where
    abbrev written : FileSystem Disk
    written = write_index card s c entries zeros

    abbrev buffer : Bytes
    buffer = u32s entries ++ replicate zeros 0

    length-buffer : length buffer ≡ 4096
    length-buffer = omega (
      arith,
      full,
      length-append (u32s entries) (replicate zeros 0),
      length-u32s entries,
      length-replicate {A = ℕ} zeros 0,
    )

    stored :
        ((read_block card written c).block_buf ≡ buffer)
        × ((d : ℕ)
            → d ≢ c
            → (read_block card written d).block_buf ≡ (read_block card s d).block_buf)
        × ((m : ℕ)
            → (m < s.superblock.start + c * 8) ⊎ (s.superblock.start + c * 8 + 8 ≤ m)
            → card.read written.disk m ≡ card.read s.disk m)
    unfolding read_block
    stored =
        read_block-write_block card law (record s { block_buf = buffer }) c
          (append-AreBytes (u32s entries) _ (u32s-AreBytes entries) (replicate-AreBytes zeros))
          length-buffer

    entry-stored : (i : ℕ) → i < length entries → entry card written c i ≡ get_or entries i 0
    entry-stored i h =
        ap (λ (b : Bytes). get_u32 b i) stored.0
        ∙ get_u32-u32s entries (replicate zeros 0) i words h

    entry-other : (d i : ℕ) → d ≢ c → entry card written d i ≡ entry card s d i
    entry-other d i ne = ap (λ (b : Bytes). get_u32 b i) (stored.1 d ne)

  -- The state of the card when the blocks of the file are written, before its inode is.
  module _ (s : FileSystem Disk) (low : s.superblock.bmap_offset < 560) where
    s1 : FileSystem Disk
    s1 = record s { disk = card.write s.disk (bmap_start s) big_file_map }

    s2 : FileSystem Disk
    s2 = write_index card s1 82 (count_from 1024 83) 0

    s3 : FileSystem Disk
    s3 = write_index card s2 1107 (1108 ∷ []) 4092

    s4 : FileSystem Disk
    s4 = write_index card s3 1108 (count_from 1014 1109) 40

    words2 : AreU32 (count_from 1024 83)
    words2 = count_from-AreU32 1024 83 (omega arith)

    full2 : 4 * length (count_from 1024 83) + 0 ≡ 4096
    full2 = omega (arith, length-count_from 1024 83)

    words4 : AreU32 (count_from 1014 1109)
    words4 = count_from-AreU32 1014 1109 (omega arith)

    full4 : 4 * length (count_from 1014 1109) + 40 ≡ 4096
    full4 = omega (arith, length-count_from 1014 1109)

    superblock-s4 : s4.superblock ≡ s.superblock
    unfolding s1 s2 s3 s4 write_block
    superblock-s4 = refl

    -- What stands in front of the data blocks, the map apart, is not written.
    kept-s4 :
        (m : ℕ)
        → m < s.superblock.start + 560
        → m ≢ bmap_start s
        → card.read s4.disk m ≡ card.read s.disk m
    unfolding s1 s2 s3 s4 write_block
    kept-s4 m h ne =
        (stored s3 1108 40 (count_from 1014 1109) words4 full4).2 m (inl (omega (arith, h)))
        ∙ (stored s2 1107 4092 (1108 ∷ []) (omega arith, tt) refl).2 m (inl (omega (arith, h)))
        ∙ (stored s1 82 0 (count_from 1024 83) words2 full2).2 m (inl (omega (arith, h)))
        ∙ law.other s.disk (bmap_start s) m big_file_map ne

    map-s4 : card.read s4.disk (bmap_start s) ≡ big_file_map
    unfolding s1 s2 s3 s4 write_block
    map-s4 =
        (stored s3 1108 40 (count_from 1014 1109) words4 full4).2 (bmap_start s)
          (inl (omega (arith, low)))
        ∙ (stored s2 1107 4092 (1108 ∷ []) (omega arith, tt) refl).2 (bmap_start s)
            (inl (omega (arith, low)))
        ∙ (stored s1 82 0 (count_from 1024 83) words2 full2).2 (bmap_start s)
            (inl (omega (arith, low)))
        ∙ law.same s.disk (bmap_start s) big_file_map

    first-s4 : entry card s4 1107 0 ≡ 1108
    unfolding s3 s4
    first-s4 =
        entry-other s3 1108 40 (count_from 1014 1109) words4 full4 1107 0 (omega arith)
        ∙ entry-stored s2 1107 4092 (1108 ∷ []) (omega arith, tt) refl 0 (omega arith)

    last-s4 : entry card s4 1108 1011 ≡ 2120
    unfolding s4
    last-s4 =
        entry-stored s3 1108 40 (count_from 1014 1109) words4 full4 1011
          (omega (arith, length-count_from 1014 1109))
        ∙ get_or-count_from 1014 1109 1011 (omega arith)

big_file-IsInode : (i : Inode) → IsInode i → IsInode (big_file_inode i)
big_file-IsInode i is = record {
  type = is.type;
  permission = is.permission;
  size = omega arith;
  ref = is.ref;
  time_created = is.time_created;
  blocks = length-count_from 10 72;
  direct = count_from-AreU32 10 72 (omega arith);
  indirect = omega arith;
  double_indirect = omega arith;
}

get_or-full :
    (n : ℕ) (rest : List ℕ) (j : ℕ) → j < n → get_or (replicate n full_word ++ rest) j 0 ≡ full_word
get_or-full zero rest j h = absurd (omega arith)
get_or-full (suc n) rest zero h = refl
get_or-full (suc n) rest (suc j) h = get_or-full n rest j (omega arith)

-- The block that is taken with the map that `init_bigfile` writes.
taken :
    (open_shl : ℕ → ℕ) {Disk : Type 0} (card : Card Disk)
    → IsCard card
    → (d : Disk) (start : ℕ) → card.read d (start + 0) ≡ big_file_map
    → (alloc_block open_shl card d start).0 ≡ 2120
taken open_shl card law d start held =
    let b =
      alloc_block_lem open_shl card law start d 0 33 (omega arith) (λ j h. absurd (omega arith))
        (rw held (omega arith))
        (λ j h.
          ap (λ (ws : List ℕ). get_or ws j 0) held ∙ get_or-full 33 (0x7f ∷ replicate 30 0) j h)
        (rw held (omega arith)) in
    let found : FirstFree 0x7f b.bit =
      subst (λ (ws : List ℕ). FirstFree (get_or ws 33 0) b.bit) held b.marked.first in
    b.number ∙ omega (arith, first_free_7f b.bit found)

module _ {Disk : Type 0} (card : Card Disk) (s : FileSystem Disk) where
  write_big_file-s4 :
      (law : IsCard card) (low : s.superblock.bmap_offset < 560) (i : Inode)
      → read_inode card s 2 ≡ some i
      → write_big_file card s ≡ write_inode card (s4 card law s low) 2 (big_file_inode i)
  unfolding write_big_file s1 s2 s3 s4
  write_big_file-s4 law low i known = rw known refl

-- The last step: the inode is written, with the blocks of the file in place.
module _ {Disk : Type 0} (card : Card Disk) (law : IsCard card) (t : FileSystem Disk)
    (map : card.read t.disk (bmap_start t) ≡ big_file_map) (first : entry card t 1107 0 ≡ 1108)
    (last : entry card t 1108 1011 ≡ 2120) (low : t.superblock.inode_offset < 560)
    (apart : t.superblock.bmap_offset ≢ t.superblock.inode_offset) (s' : FileSystem Disk)
    (others : (k : ℕ) → k ≢ inode_sector t 1 → card.read s'.disk k ≡ card.read t.disk k)
    (rest : s' ≡ record t { disk = s'.disk }) where
  same_superblock : s'.superblock ≡ t.superblock
  same_superblock = ap (λ (u : FileSystem Disk). u.superblock) rest

  entry-end : (c j : ℕ) → 560 ≤ 8 * c → entry card s' c j ≡ entry card t c j
  unfolding read_block
  entry-end c j high =
      ap (λ (b : Superblock). get_u32 (read_sectors card 8 s'.disk (b.start + c * 8)) j)
        same_superblock
      ∙ ap (λ (b : Bytes). get_u32 b j)
          (read_sectors-same card law 8 s'.disk t.disk (t.superblock.start + c * 8)
            (λ m a z. others m (λ e. omega (arith, e, a, high, low))))

  map-end : card.read s'.disk (bmap_start s' + 0) ≡ big_file_map
  map-end =
      ap (λ (b : Superblock). card.read s'.disk (b.start + b.bmap_offset + 0)) same_superblock
      ∙ ap (card.read s'.disk) (omega arith)
      ∙ others (bmap_start t) (λ e. apart (omega (arith, e)))
      ∙ map

  block-end :
      (inode : Inode)
      → inode.double_indirect ≡ 1107
      → (offset_to_blk card s' 8376320 inode).0 ≡ 2120
  block-end inode d =
      offset_to_blk_lem card s' 8376320 inode
      ∙ ap (λ (c : ℕ). entry card s' (entry card s' c 0) 1011) d
      ∙ ap (λ (c : ℕ). entry card s' c 1011) (entry-end 1107 0 (omega arith) ∙ first)
      ∙ entry-end 1108 1011 (omega arith)
      ∙ last

module _ (open_shl : ℕ → ℕ) {Disk : Type 0} (card : Card Disk) (law : IsCard card)
    (s : FileSystem Disk) (i : Inode) where
  -- On a card that keeps what is written, with the map and the inodes in front of the data
  -- blocks and apart, the part of init_bigfile behind do_touch does not fault, and the next
  -- block that alloc_block then hands out, 2120, is a block of the file that it has made.
  pub write_big_file-overlap :
      IsInode i
      → read_inode card s 2 ≡ some i
      → length (card.read s.disk (inode_sector s 1)) ≡ 64
      → s.superblock.bmap_offset < 560
      → s.superblock.inode_offset < 560
      → s.superblock.bmap_offset ≢ s.superblock.inode_offset
      → (s' : FileSystem Disk) × (i' : Inode) × (write_big_file card s ≡ some s')
        × (read_inode card s' 2 ≡ some i')
        × ((alloc_block open_shl card s'.disk (bmap_start s')).0 ≡ 2120)
        × (8376320 < i'.size)
        × ((offset_to_blk card s' 8376320 i').0 ≡ 2120)
  write_big_file-overlap is known words low inodes apart =
      let t = s4 card law s low in
      let sb = superblock-s4 card law s low in
      let base : inode_sector t 1 ≡ inode_sector s 1 =
        ap (λ (b : Superblock). b.start + b.inode_offset + 1 / 8) sb in
      let same : card.read t.disk (inode_sector t 1) ≡ card.read s.disk (inode_sector s 1) =
        ap (card.read t.disk) base
        ∙ kept-s4 card law s low (inode_sector s 1) (omega (arith, inodes))
            (λ e. apart (omega (arith, e))) in
      let w =
        read_inode-write_inode card law t 1 (big_file_inode i) (big_file-IsInode i is)
          (ap length same ∙ words) in
      let map : card.read t.disk (bmap_start t) ≡ big_file_map =
        ap (λ (b : Superblock). card.read t.disk (b.start + b.bmap_offset)) sb
        ∙ map-s4 card law s low in
      let inodes_t : t.superblock.inode_offset < 560 =
        subst (λ (b : Superblock). b.inode_offset < 560) (sym sb) inodes in
      let apart_t : t.superblock.bmap_offset ≢ t.superblock.inode_offset =
        subst (λ (b : Superblock). b.bmap_offset ≢ b.inode_offset) (sym sb) apart in
      let first = first-s4 card law s low in
      let last = last-s4 card law s low in
      (
        w.0,
        big_file_inode i,
        write_big_file-s4 card s law low i known ∙ w.1,
        w.2,
        taken open_shl card law w.0.disk (bmap_start w.0)
            (map-end card law t map first last inodes_t apart_t w.0 w.4 w.5),
        omega arith,
        block-end card law t map first last inodes_t apart_t w.0 w.4 w.5 (big_file_inode i) refl,
      )
