-- ===== src/Fs/Inode/Store.antt =====
-- `read_inode` and `write_inode`, `read_block` and `write_block`, on a card that keeps what is written.
use ucas_os_kernel.Base.{
  ℕ, zero, suc, ◌+◌, ◌*◌, ◌/◌, ◌%◌, ◌<◌, ◌≤◌, ◌≡◌, refl, ◌≢◌, ◌++◌, List, [], ◌∷◌, some, arith, ap,
  ap₂, ◌∙◌, sym, length, length-take, length-drop, take, drop, take-append-drop, ltb, ◌==◌,
  Bool-cases, inl, inr, ◌⊎◌,
}
use ucas_os_kernel.Base.Bytes.{
  Bytes, AreBytes, slice, splice, take-AreBytes, drop-AreBytes, splice-AreBytes, length-splice,
  slice-splice, slice-splice_left, drop-splice_right,
}
use ucas_os_kernel.Fs.{Card, IsCard}
use ucas_os_kernel.Fs.Buffer.{
  bytes_of_words, words_of_bytes, bytes-words, bytes_of_words-AreBytes, length-bytes_of_words,
}
use ucas_os_kernel.Fs.Inode.{
  Inode, Superblock, FileSystem, encode_inode, decode_inode, inode_sector, read_inode, write_inode,
  read_block, write_block, read_sectors, write_sectors,
}
use ucas_os_kernel.Fs.Inode.Format.{IsInode, decode-encode, encode-AreBytes, length-encode}

-- Every sector that is read has 64 words.
abbrev pub HasSectors : {Disk : Type 0} (card : Card Disk) → Disk → Type 0
HasSectors card d = (n : ℕ) → length (card.read d n) ≡ 64

-- Inode `n` in the bytes of its sector.
abbrev inode_at : Bytes → ℕ → Inode
inode_at b n = decode_inode (slice b (64 * (n % 8)) 64)

module _ (b : Bytes) (n : ℕ) (i : Inode) (h : IsInode i) (len : length b ≡ 512) where
  abbrev changed : Bytes
  changed = splice b (64 * (n % 8)) (encode_inode i)

  fits : 64 * (n % 8) + length (encode_inode i) ≤ length b
  fits = omega (arith, len, length-encode i h.blocks)

  changed-AreBytes : AreBytes b → AreBytes changed
  changed-AreBytes k = splice-AreBytes b _ (encode_inode i) k (encode-AreBytes i)

  length-changed : length changed ≡ 512
  length-changed = length-splice b _ (encode_inode i) fits ∙ len

  inode_at-changed : inode_at changed n ≡ i
  inode_at-changed =
      ap (λ (k : ℕ). decode_inode (slice changed (64 * (n % 8)) k)) (sym (length-encode i h.blocks))
      ∙ ap decode_inode (slice-splice b (64 * (n % 8)) (encode_inode i) fits)
      ∙ decode-encode i h

  inode_at-other : (m : ℕ) → m % 8 ≢ n % 8 → inode_at changed m ≡ inode_at b m
  inode_at-other m ne = elim (Bool-cases (ltb (m % 8) (n % 8))) [
    | inl lt ↦
        let before : m % 8 < n % 8 = ground arith in
        ap decode_inode
          (slice-splice_left b (64 * (n % 8)) (encode_inode i) fits (64 * (m % 8)) 64 (omega arith))
    | inr ge ↦
        let behind : n % 8 < m % 8 = ground arith in
        ap (λ (c : Bytes). decode_inode (take 64 c))
          (drop-splice_right b (64 * (n % 8)) (encode_inode i) fits (64 * (m % 8))
            (omega (arith, length-encode i h.blocks)))
  ]

module _ {Disk : Type 0} (card : Card Disk) (law : IsCard card) where
  -- What a written sector holds as bytes.
  pub bytes_written :
      (d : Disk) (k : ℕ) (b : Bytes)
      → AreBytes b
      → length b ≡ 512
      → bytes_of_words (card.read (card.write d k (words_of_bytes 64 b)) k) ≡ b
  bytes_written d k b h l =
      ap bytes_of_words (law.same d k (words_of_bytes 64 b)) ∙ bytes-words 64 b h l

  -- On a card that keeps what is written and has 64 words in the sector of the inode,
  -- write_inode of an inode n + 1 whose fields fit their widths does not fault; read_inode then
  -- gives that inode, every other inode, of the same sector or not, is as before, and no other
  -- sector and nothing else of the state changes.
  pub read_inode-write_inode :
      (s : FileSystem Disk) (n : ℕ) (i : Inode)
      → IsInode i
      → length (card.read s.disk (inode_sector s n)) ≡ 64
      → (s' : FileSystem Disk) × (write_inode card s (suc n) i ≡ some s')
        × (read_inode card s' (suc n) ≡ some i)
        × ((m : ℕ) → m ≢ n → read_inode card s' (suc m) ≡ read_inode card s (suc m))
        × ((k : ℕ) → k ≢ inode_sector s n → card.read s'.disk k ≡ card.read s.disk k)
        × (s' ≡ record s { disk = s'.disk })
  unfolding read_inode write_inode
  read_inode-write_inode s n i h words =
      let sector = inode_sector s n in
      let b = bytes_of_words (card.read s.disk sector) in
      let len : length b ≡ 512 =
        omega (arith, length-bytes_of_words (card.read s.disk sector), words) in
      let new = changed b n i h len in
      let d1 = card.write s.disk sector (words_of_bytes 64 new) in
      let held : bytes_of_words (card.read d1 sector) ≡ new =
        bytes_written s.disk sector new
          (changed-AreBytes b n i h len (bytes_of_words-AreBytes (card.read s.disk sector)))
          (length-changed b n i h len) in
      (
        record s { disk = d1 },
        refl,
        ap some (ap (λ (c : Bytes). inode_at c n) held ∙ inode_at-changed b n i h len),
        λ m ne. ap some (elim (Bool-cases (m / 8 == n / 8)) [
          | inl e ↦
              let same : m / 8 ≡ n / 8 = ground arith in
              let place = λ (q : ℕ). s.superblock.start + s.superblock.inode_offset + q in
              ap (λ (q : ℕ). inode_at (bytes_of_words (card.read d1 (place q))) m) same
              ∙ ap (λ (c : Bytes). inode_at c m) held
              ∙ inode_at-other b n i h len m (λ r. ne (omega arith))
              ∙ ap (λ (q : ℕ). inode_at (bytes_of_words (card.read s.disk (place q))) m) (sym same)
          | inr e ↦
              let apart : m / 8 ≢ n / 8 = ground arith in
              ap (λ (ws : List ℕ). inode_at (bytes_of_words ws) m)
                (law.other s.disk sector (inode_sector s m) (words_of_bytes 64 new)
                  (λ r. apart (omega arith)))
        ]),
        λ k ne. law.other s.disk sector k _ ne,
        refl,
      )

  -- Sectors outside a run that is written stay.
  pub write_sectors-other :
      (n : ℕ) (d : Disk) (k : ℕ) (b : Bytes) (m : ℕ)
      → (m < k) ⊎ (k + n ≤ m)
      → card.read (write_sectors card n d k b) m ≡ card.read d m
  unfolding write_sectors
  write_sectors-other zero d k b m out = refl
  write_sectors-other (suc n) d k b m out =
      let away : m ≢ k = λ e. elim out [ inl h ↦ omega arith | inr h ↦ omega arith ] in
      let rest : (m < k + 1) ⊎ (k + 1 + n ≤ m) = elim out [
        | inl h ↦ inl (omega arith)
        | inr h ↦ inr (omega arith)
      ] in
      write_sectors-other n (card.write d k (words_of_bytes 64 (take 512 b))) (k + 1) (drop 512 b) m
        rest
      ∙ law.other d k m _ away

  -- A run of sectors that is read depends on these sectors alone.
  pub read_sectors-same :
      (n : ℕ) (d d' : Disk) (k : ℕ)
      → ((m : ℕ) → k ≤ m → m < k + n → card.read d m ≡ card.read d' m)
      → read_sectors card n d k ≡ read_sectors card n d' k
  unfolding read_sectors
  read_sectors-same zero d d' k h = refl
  read_sectors-same (suc n) d d' k h =
      ap₂ (λ (ws : List ℕ) (b : Bytes). bytes_of_words ws ++ b) (h k (omega arith) (omega arith))
        (read_sectors-same n d d' (k + 1) (λ m a z. h m (omega arith) (omega arith)))

  pub read-write_sectors :
      (n : ℕ) (d : Disk) (k : ℕ) (b : Bytes)
      → AreBytes b
      → length b ≡ 512 * n
      → read_sectors card n (write_sectors card n d k b) k ≡ b
  unfolding read_sectors write_sectors
  read-write_sectors zero d k [] h l = refl
  read-write_sectors zero d k (c ∷ b) h l = absurd (omega arith)
  read-write_sectors (suc n) d k b h l =
      let d1 = card.write d k (words_of_bytes 64 (take 512 b)) in
      let first : card.read (write_sectors card n d1 (k + 1) (drop 512 b)) k ≡ card.read d1 k =
        write_sectors-other n d1 (k + 1) (drop 512 b) k (inl (omega arith)) in
      ap₂ (λ (xs ys : Bytes). xs ++ ys)
        (ap bytes_of_words first
          ∙ bytes_written d k (take 512 b) (take-AreBytes 512 b h)
              (omega (arith, length-take 512 b)))
        (read-write_sectors n d1 (k + 1) (drop 512 b) (drop-AreBytes 512 b h)
          (omega (arith, length-drop 512 b)))
      ∙ take-append-drop 512 b

  -- On a card that keeps what is written, after write_block of a buffer of 4096 bytes as block
  -- b, read_block of b gives the buffer, read_block of any other block what it gave before, and
  -- no sector outside the block changes.
  pub read_block-write_block :
      (s : FileSystem Disk) (b : ℕ)
      → AreBytes s.block_buf
      → length s.block_buf ≡ 4096
      → let s' = write_block card s b in
        ((read_block card s' b).block_buf ≡ s.block_buf)
        × ((c : ℕ) → c ≢ b → (read_block card s' c).block_buf ≡ (read_block card s c).block_buf)
        × ((m : ℕ)
            → (m < s.superblock.start + b * 8) ⊎ (s.superblock.start + b * 8 + 8 ≤ m)
            → card.read s'.disk m ≡ card.read s.disk m)
  unfolding read_block write_block
  read_block-write_block s b h l =
      let k = s.superblock.start + b * 8 in
      (
        read-write_sectors 8 s.disk k s.block_buf h (omega (arith, l)),
        λ c ne.
            read_sectors-same 8 (write_sectors card 8 s.disk k s.block_buf) s.disk
              (s.superblock.start + c * 8)
              λ m a z. write_sectors-other 8 s.disk k s.block_buf m (elim (Bool-cases (ltb c b)) [
                | inl lt ↦ let before : c < b = ground arith in inl (omega arith)
                | inr ge ↦ let behind : b < c = ground (arith, ne) in inr (omega arith)
              ]),
        write_sectors-other 8 s.disk k s.block_buf,
      )

module _ {Disk : Type 0} (card : Card Disk) (s s' : FileSystem Disk)
    (kept : s'.superblock ≡ s.superblock) where
  -- What is read depends on the superblock and on the sectors that are read.
  pub read_inode-same :
      (n : ℕ)
      → card.read s'.disk (inode_sector s n) ≡ card.read s.disk (inode_sector s n)
      → read_inode card s' (suc n) ≡ read_inode card s (suc n)
  unfolding read_inode
  read_inode-same n same =
      ap
        (λ (b : Superblock).
          some (inode_at (bytes_of_words (card.read s'.disk (b.start + b.inode_offset + n / 8))) n))
        kept
      ∙ ap (λ (ws : List ℕ). some (inode_at (bytes_of_words ws) n)) same

  pub read_block-same :
      IsCard card
      → (c : ℕ)
      → ((m : ℕ)
          → s.superblock.start + c * 8 ≤ m
          → m < s.superblock.start + c * 8 + 8
          → card.read s'.disk m ≡ card.read s.disk m)
      → (read_block card s' c).block_buf ≡ (read_block card s c).block_buf
  unfolding read_block
  read_block-same law c same =
      ap (λ (b : Superblock). read_sectors card 8 s'.disk (b.start + c * 8)) kept
      ∙ read_sectors-same card law 8 s'.disk s.disk (s.superblock.start + c * 8) same
