-- ===== src/Fs/Alloc.antt =====
-- `alloc_inode` and `alloc_block`: the number of the first free bit, on any card that keeps sectors.
use ucas_os_kernel.Base.{
  ℕ, zero, suc, ◌+◌, ◌*◌, ◌<◌, ◌≤◌, ◌≡◌, refl, ◌≢◌, Option, none, some, arith, ap, sym, subst, ◌∙◌,
  set, get_or, length, ◌==◌, Bool-cases, inl, inr,
}
use ucas_os_kernel.Fs.{
  Sector, Card, IsCard, full_word, nsectors_bmap, alloc_words, alloc_inode, alloc_block_from,
  alloc_block,
}
use ucas_os_kernel.Fs.Bitmap.{Marked, alloc_words-full, alloc_words-first}

-- All words of a sector are full.
abbrev pub IsFull : Sector → Type 0
IsFull ws = (length ws ≡ 64) × ((j : ℕ) → j < 64 → get_or ws j 0 ≡ full_word)

module _ (open_shl : ℕ → ℕ) {Disk : Type 0} (card : Card Disk) (start : ℕ) where
  -- What `alloc_block` leaves of the map, with the first free bit in word `i` of sector `s`.
  pub record BlockTaken (d : Disk) (s i : ℕ) (b : ℕ) (d' : Disk) : Type 0 where
    pub bit : ℕ
    pub new_word : ℕ
    pub number : b ≡ 4096 * s + 64 * i + bit + 1
    pub marked : Marked open_shl (get_or (card.read d (start + s)) i 0) bit new_word
    pub sector : card.read d' (start + s) ≡ set (card.read d (start + s)) i new_word
    pub others : (m : ℕ) → m ≢ start + s → card.read d' m ≡ card.read d m

module _ (open_shl : ℕ → ℕ) {Disk : Type 0} (card : Card Disk) (law : IsCard card) where
  -- On a card that keeps what is written, where word i is the first of the inode map that is not
  -- full, alloc_inode gives 64 i + t + 1, where t is the first free bit of the word; no other
  -- sector and no other word changes; the word has bit t added if t is below 31, and is full if
  -- t is 31.
  pub alloc_inode_lem :
      (d : Disk) (imap_start i : ℕ)
      → i < length (card.read d imap_start)
      → ((j : ℕ) → j < i → get_or (card.read d imap_start) j 0 ≡ full_word)
      → get_or (card.read d imap_start) i 0 < full_word
      → (t v : ℕ) × Marked open_shl (get_or (card.read d imap_start) i 0) t v
        × ((alloc_inode open_shl card d imap_start).0 ≡ 64 * i + t + 1)
        × (card.read (alloc_inode open_shl card d imap_start).1 imap_start
            ≡ set (card.read d imap_start) i v)
        × ((m : ℕ)
            → m ≢ imap_start
            → card.read (alloc_inode open_shl card d imap_start).1 m ≡ card.read d m)
  unfolding alloc_inode
  alloc_inode_lem d s i h full free =
      let a = alloc_words-first open_shl (card.read d s) 0 i h full free refl in
      (
        a.0,
        a.1,
        a.3,
        rw a.2 (omega arith),
        rw a.2 (law.same d s (set (card.read d s) i a.1)),
        λ m ne. rw a.2 (law.other d s m _ ne),
      )

  -- What is read of a card on which a sector is written as it was read.
  rewrite_same : (d : Disk) (n m : ℕ) → card.read (card.write d n (card.read d n)) m ≡ card.read d m
  rewrite_same d n m = elim (Bool-cases (m == n)) [
    | inl e ↦ let same : m ≡ n = ground arith in rw same (law.same d n (card.read d n))
    | inr e ↦ law.other d n m (card.read d n) (ground arith)
  ]

  module _ (start : ℕ) where
    step-hit :
        (n k bnum : ℕ) (d : Disk) (vs : Sector) (b : ℕ)
        → alloc_words open_shl (card.read d (start + k)) bnum ≡ (some vs, b)
        → alloc_block_from open_shl card (suc n) k bnum d start
          ≡ (b + 1, card.write d (start + k) vs)
    unfolding alloc_block_from
    step-hit n k bnum d vs b e =
        let e0 = ap (λ (r : Option Sector × ℕ). r.0) e in
        let e1 = ap (λ (r : Option Sector × ℕ). r.1) e in rw (alloc_block_from, e0, e1) refl

    step-miss :
        (n k bnum : ℕ) (d : Disk) (b : ℕ)
        → alloc_words open_shl (card.read d (start + k)) bnum ≡ (none, b)
        → alloc_block_from open_shl card (suc n) k bnum d start
          ≡ alloc_block_from open_shl card n
              (k + 1)
              b
              (card.write d (start + k) (card.read d (start + k)))
              start
    unfolding alloc_block_from
    step-miss n k bnum d b e =
        let e0 = ap (λ (r : Option Sector × ℕ). r.0) e in
        let e1 = ap (λ (r : Option Sector × ℕ). r.1) e in rw (alloc_block_from, e0, e1) refl

    -- The sector that has a free bit.
    alloc_block-hit :
        (n : ℕ) (d : Disk) (s i : ℕ)
        → i < length (card.read d (start + s))
        → ((j : ℕ) → j < i → get_or (card.read d (start + s)) j 0 ≡ full_word)
        → get_or (card.read d (start + s)) i 0 < full_word
        → let r = alloc_block_from open_shl card (suc n) s (4096 * s) d start in
          BlockTaken open_shl card start d s i r.0 r.1
    alloc_block-hit n d s i h before free =
        let w =
          alloc_words-first open_shl (card.read d (start + s)) (4096 * s) i h before free
            (omega arith) in
        rw
          (step-hit n s (4096 * s) d (set (card.read d (start + s)) i w.1) (4096 * s + 64 * i + w.0)
            w.2)
          (record {
            bit = w.0;
            new_word = w.1;
            number = refl;
            marked = w.3;
            sector = law.same d (start + s) _;
            others = λ m ne. law.other d (start + s) m _ ne;
          })

    alloc_block_loop :
        (n k : ℕ) (d : Disk) (s i : ℕ)
        → k ≤ s
        → s < k + n
        → ((j : ℕ) → j < s → IsFull (card.read d (start + j)))
        → i < length (card.read d (start + s))
        → ((j : ℕ) → j < i → get_or (card.read d (start + s)) j 0 ≡ full_word)
        → get_or (card.read d (start + s)) i 0 < full_word
        → let r = alloc_block_from open_shl card n k (4096 * k) d start in
          BlockTaken open_shl card start d s i r.0 r.1
    alloc_block_loop zero k d s i a b full h before free = absurd (omega arith)
    alloc_block_loop (suc n) k d s i a b full h before free = elim (Bool-cases (k == s)) [
      | inl e ↦
          let same : k ≡ s = ground arith in
          subst
            (λ (u : ℕ).
              let r = alloc_block_from open_shl card (suc n) u (4096 * u) d start in
              BlockTaken open_shl card start d s i r.0 r.1)
            (sym same) (alloc_block-hit n d s i h before free)
      | inr e ↦
          let ahead : k < s = ground (arith, a) in
          let f = full k ahead in
          let w =
            alloc_words-full open_shl (card.read d (start + k)) (4096 * k)
              (λ j l. f.1 j (omega (arith, l, f.0))) in
          let next : 4096 * k + 64 * length (card.read d (start + k)) ≡ 4096 * (k + 1) =
            omega (arith, f.0) in
          let d1 = card.write d (start + k) (card.read d (start + k)) in
          let here : card.read d1 (start + s) ≡ card.read d (start + s) =
            rewrite_same d (start + k) (start + s) in
          let r =
            alloc_block_loop n (k + 1) d1 s i (omega arith) (omega arith)
              (λ j l. rw (rewrite_same d (start + k) (start + j)) (full j l)) (rw here h)
              (λ j l. rw here (before j l)) (rw here free) in
          rw (step-miss n k (4096 * k) d _ w, next)
            (record {
              bit = r.bit;
              new_word = r.new_word;
              number = r.number;
              marked =
                  subst (λ (ws : Sector). Marked open_shl (get_or ws i 0) r.bit r.new_word) here
                    r.marked;
              sector = r.sector ∙ ap (λ (ws : Sector). set ws i r.new_word) here;
              others = λ m ne. r.others m ne ∙ rewrite_same d (start + k) m;
            })
    ]

    -- On a card that keeps what is written, where sector s of the block map is the first that is
    -- not full and word i the first in it, alloc_block gives 4096 s + 64 i + t + 1, where t is
    -- the first free bit of the word; no other sector changes; the word has bit t added if t is
    -- below 31, and is full, with 32 blocks lost, if t is 31.
    pub alloc_block_lem :
        (d : Disk) (s i : ℕ)
        → s < nsectors_bmap
        → ((j : ℕ) → j < s → IsFull (card.read d (start + j)))
        → i < length (card.read d (start + s))
        → ((j : ℕ) → j < i → get_or (card.read d (start + s)) j 0 ≡ full_word)
        → get_or (card.read d (start + s)) i 0 < full_word
        → BlockTaken open_shl card start d s i
            (alloc_block open_shl card d start).0
            (alloc_block open_shl card d start).1
    unfolding alloc_block
    alloc_block_lem d s i h full inside before free =
        alloc_block_loop nsectors_bmap 0 d s i (omega arith) (omega arith) full inside before free
