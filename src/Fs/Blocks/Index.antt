-- ===== src/Fs/Blocks/Index.antt =====
-- One index block: an array of 1024 block numbers.
use ucas_os_kernel.Base.{
  ℕ, ◌+◌, ◌*◌, ◌^◌, ◌<◌, ◌≤◌, ◌≡◌, ◌≢◌, arith, ap, ◌∙◌, sym, length, length-append, ltb, ◌==◌,
  Bool-cases, inl, inr, if◌then◌else◌, take, suc, zero,
}
use ucas_os_kernel.Base.Bytes.{
  Bytes, AreBytes, le_bytes, le_value, slice, splice, splice-AreBytes, length-splice, slice-splice,
  slice-splice_left, drop-splice_right, append-AreBytes, length-le_bytes, le_bytes-AreBytes,
  le_value-le_bytes,
}
use ucas_os_kernel.Fs.{Card, IsCard}
use ucas_os_kernel.Fs.Buffer.{bytes_of_words, bytes_of_words-AreBytes, length-bytes_of_words}
use ucas_os_kernel.Fs.Inode.{FileSystem, read_block, read_sectors, get_u32, put_u32}
use ucas_os_kernel.Fs.Inode.Store.{HasSectors, read_block-write_block}
use ucas_os_kernel.Fs.Blocks.{put_entry}

module _ (b : Bytes) (i v : ℕ) (inside : 4 * i + 4 ≤ length b) where
  fits : 4 * i + length (le_bytes 4 v) ≤ length b
  fits = omega (arith, length-le_bytes 4 v)

  pub length-put_u32 : length (put_u32 b i v) ≡ length b
  unfolding put_u32
  length-put_u32 = length-splice b (4 * i) (le_bytes 4 v) fits

  pub put_u32-AreBytes : AreBytes b → AreBytes (put_u32 b i v)
  unfolding put_u32
  put_u32-AreBytes h = splice-AreBytes b (4 * i) (le_bytes 4 v) h (le_bytes-AreBytes 4 v)

  pub get_u32-put_u32 :
      (j : ℕ) → v < 2 ^ 32 → get_u32 (put_u32 b i v) j ≡ (if j == i then v else get_u32 b j)
  unfolding get_u32 put_u32
  get_u32-put_u32 j h = elim (Bool-cases (j == i)) [
    | inl e ↦
        let same : j ≡ i = ground arith in
        rw e (
          ap (λ (k : ℕ). le_value (slice (splice b (4 * i) (le_bytes 4 v)) (4 * k) 4)) same
          ∙ ap (λ (k : ℕ). le_value (slice (splice b (4 * i) (le_bytes 4 v)) (4 * i) k))
              (sym (length-le_bytes 4 v))
          ∙ ap le_value (slice-splice b (4 * i) (le_bytes 4 v) fits)
          ∙ le_value-le_bytes 4 v (omega (arith, h)))
    | inr e ↦
        let apart : j ≢ i = ground arith in
        rw e (
          ap le_value (elim (Bool-cases (ltb j i)) [
            | inl lt ↦
                let before : j < i = ground arith in
                slice-splice_left b (4 * i) (le_bytes 4 v) fits (4 * j) 4 (omega arith)
            | inr ge ↦
                let behind : i < j = ground (arith, apart) in
                ap (take 4) (
                  drop-splice_right b (4 * i) (le_bytes 4 v) fits (4 * j)
                    (omega (arith, length-le_bytes 4 v)))
          ]))
  ]

module _ {Disk : Type 0} (card : Card Disk) where
  pub read_sectors-AreBytes : (n : ℕ) (d : Disk) (k : ℕ) → AreBytes (read_sectors card n d k)
  unfolding read_sectors
  read_sectors-AreBytes zero d k = tt
  read_sectors-AreBytes (suc n) d k =
      append-AreBytes _ _ (bytes_of_words-AreBytes (card.read d k))
        (read_sectors-AreBytes n d (k + 1))

  pub length-read_sectors :
      (n : ℕ) (d : Disk) (k : ℕ) → HasSectors card d → length (read_sectors card n d k) ≡ 512 * n
  unfolding read_sectors
  length-read_sectors zero d k h = omega arith
  length-read_sectors (suc n) d k h = omega (
    arith,
    length-append (bytes_of_words (card.read d k)) (read_sectors card n d (k + 1)),
    length-bytes_of_words (card.read d k),
    h k,
    length-read_sectors n d (k + 1) h,
  )

  -- Entry `i` of index block `c`.
  abbrev pub entry : FileSystem Disk → (c i : ℕ) → ℕ
  entry s c i = get_u32 (read_block card s c).block_buf i

  pub read_block-AreBytes : (s : FileSystem Disk) (c : ℕ) → AreBytes (read_block card s c).block_buf
  unfolding read_block
  read_block-AreBytes s c = read_sectors-AreBytes 8 s.disk (s.superblock.start + c * 8)

  pub length-read_block :
      (s : FileSystem Disk) (c : ℕ)
      → HasSectors card s.disk
      → length (read_block card s c).block_buf ≡ 4096
  unfolding read_block
  length-read_block s c h =
      omega (arith, length-read_sectors 8 s.disk (s.superblock.start + c * 8) h)

  -- Writing an entry changes that entry alone, of all entries of all blocks.
  pub entry-put_entry :
      IsCard card
      → (s : FileSystem Disk) → HasSectors card s.disk
      → (c i v : ℕ) → i < 1024
      → v < 2 ^ 32
      → (c' i' : ℕ)
      → entry (put_entry card (read_block card s c) c i v) c' i'
        ≡ (if c' == c then if i' == i then v else entry s c i' else entry s c' i')
  unfolding read_block
  entry-put_entry law s has c i v inside word c' i' =
      let b = (read_block card s c).block_buf in
      let room : 4 * i + 4 ≤ length b = omega (arith, length-read_block s c has) in
      let t : FileSystem Disk = record s { block_buf = put_u32 b i v } in
      let stored =
        read_block-write_block card law t c (put_u32-AreBytes b i v room (read_block-AreBytes s c))
          (length-put_u32 b i v room ∙ length-read_block s c has) in
      elim (Bool-cases (c' == c)) [
        | inl e ↦
            let same : c' ≡ c = ground arith in
            rw (e, same)
              (ap (λ (buf : Bytes). get_u32 buf i') stored.0 ∙ get_u32-put_u32 b i v room i' word)
        | inr e ↦
            let apart : c' ≢ c = ground arith in
            rw e (ap (λ (buf : Bytes). get_u32 buf i') (stored.1 c' apart))
      ]
