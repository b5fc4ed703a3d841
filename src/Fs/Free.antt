-- ===== src/Fs/Free.antt =====
-- Freeing what was allocated.
use ucas_os_kernel.Base.{
  ℕ, zero, suc, ◌+◌, ◌-◌, ◌*◌, ◌/◌, ◌%◌, ◌^◌, ◌<◌, ◌≡◌, refl, ◌≢◌, true, false, [], ◌∷◌, arith, ap,
  ◌∙◌, bit_and, set, get_or, length, ltb, ◌==◌, Bool-cases, inl, inr,
}
use ucas_os_kernel.Base.Bits.{bit_and_clear, set_bit-lt, pow_pos}
use ucas_os_kernel.Fs.{
  Sector, Card, IsCard, full_word, nsectors_bmap, not_one_shl, alloc_block, free_block,
}
use ucas_os_kernel.Fs.Bitmap.{FirstFree}
use ucas_os_kernel.Fs.Alloc.{IsFull, alloc_block_lem}

set-set : (ws : Sector) (i v w : ℕ) → set (set ws i v) i w ≡ set ws i w
set-set [] i v w = refl
set-set (x ∷ ws) zero v w = refl
set-set (x ∷ ws) (suc i) v w = ap (λ ys. x ∷ ys) (set-set ws i v w)

get_or-set : (ws : Sector) (i v : ℕ) → i < length ws → get_or (set ws i v) i 0 ≡ v
get_or-set [] i v h = absurd (omega arith)
get_or-set (x ∷ ws) zero v h = refl
get_or-set (x ∷ ws) (suc i) v h = get_or-set ws i v (omega arith)

set-get_or : (ws : Sector) (i : ℕ) → set ws i (get_or ws i 0) ≡ ws
set-get_or [] i = refl
set-get_or (x ∷ ws) zero = refl
set-get_or (x ∷ ws) (suc i) = ap (λ ys. x ∷ ys) (set-get_or ws i)

-- Clearing the bit that an allocation set gives the old word.
clear-mark :
    (open_not : ℕ → ℕ) (w t : ℕ)
    → w < full_word
    → FirstFree w t
    → t < 31
    → bit_and (w + 2 ^ t) (not_one_shl open_not t) ≡ w
clear-mark open_not w t h f lt =
    let low : ltb t 31 ≡ true = ground arith in
    let bit : (w + 2 ^ t) / 2 ^ t % 2 ≡ 1 = grind (arith, pow_pos t, f.free) in
    rw low (
      omega (
        arith,
        bit_and_clear t 64 (w + 2 ^ t) (omega arith)
            (set_bit-lt t 64 w (omega arith) (omega arith) f.free) bit,
      ))

module _ (open_not : ℕ → ℕ) (before_zero : ℕ) {Disk : Type 0} (card : Card Disk) (start : ℕ) where
  -- The word and the bit that the number of a block leads to.
  free_block-eq :
      (d : Disk) (n s i t : ℕ)
      → n ≡ 4096 * s + 64 * i + t + 1
      → i < 64
      → t < 31
      → let buf = card.read d (start + s) in
        free_block open_not before_zero card d start n
        ≡ card.write d (start + s) (set buf i (bit_and (get_or buf i 0) (not_one_shl open_not t)))
  unfolding free_block
  free_block-eq d n s i t e h l =
      let some_block : (n == 0) ≡ false = ground arith in
      let sector : n / 4096 ≡ s = omega arith in
      let place : n % 4096 / 64 ≡ i = omega arith in
      let bit : n % 4096 % 64 ≡ t + 1 = omega arith in
      let not_zero : (t + 1 == 0) ≡ false = ground arith in
      let back : t + 1 - 1 ≡ t = omega arith in
      rw (some_block, sector, place, bit, not_zero, back) refl

module _ (open_shl open_not : ℕ → ℕ) (before_zero : ℕ) {Disk : Type 0} (card : Card Disk)
    (law : IsCard card) (start : ℕ) where
  -- On a card that keeps what is written, with the first free bit of the block map in word i of
  -- sector s, freeing the block that alloc_block gave leaves every sector as it was before, if
  -- the block's number modulo 64 is below 32 and not 0.
  pub free_block-alloc_block :
      (d : Disk) (s i : ℕ)
      → s < nsectors_bmap
      → ((j : ℕ) → j < s → IsFull (card.read d (start + j)))
      → length (card.read d (start + s)) ≡ 64
      → i < 64
      → ((j : ℕ) → j < i → get_or (card.read d (start + s)) j 0 ≡ full_word)
      → get_or (card.read d (start + s)) i 0 < full_word
      → (alloc_block open_shl card d start).0 % 64 < 32
      → (alloc_block open_shl card d start).0 % 64 ≢ 0
      → (m : ℕ)
      → card.read
          (free_block open_not before_zero card
            (alloc_block open_shl card d start).1
            start
            (alloc_block open_shl card d start).0)
          m
        ≡ card.read d m
  unfolding free_block
  free_block-alloc_block d s i h full len inside before free low nz m =
      let r = alloc_block open_shl card d start in
      let b =
        alloc_block_lem open_shl card law start d s i h full (omega (arith, len, inside)) before
          free in
      let w = get_or (card.read d (start + s)) i 0 in
      let bit_low : b.bit < 31 = omega (arith, low, nz, b.number, b.marked.bit) in
      let marked : b.new_word ≡ w + 2 ^ b.bit = b.marked.low bit_low in
      let in_word : get_or (card.read r.1 (start + s)) i 0 ≡ b.new_word =
        ap (λ (ws : Sector). get_or ws i 0) b.sector
        ∙ get_or-set (card.read d (start + s)) i b.new_word (omega (arith, len, inside)) in
      let cleared : bit_and (get_or (card.read r.1 (start + s)) i 0) (not_one_shl open_not b.bit)
          ≡ w =
        ap (λ (v : ℕ). bit_and v (not_one_shl open_not b.bit)) (in_word ∙ marked)
        ∙ clear-mark open_not w b.bit free b.marked.first bit_low in
      let restored : set (card.read r.1 (start + s)) i w ≡ card.read d (start + s) =
        ap (λ (ws : Sector). set ws i w) b.sector
        ∙ set-set (card.read d (start + s)) i b.new_word w
        ∙ set-get_or (card.read d (start + s)) i in
      let freed =
        free_block-eq open_not before_zero card start r.1 r.0 s i b.bit b.number inside bit_low in
      ap (λ (e : Disk). card.read e m) freed
      ∙ ap
          (λ (v : ℕ).
            card.read (card.write r.1 (start + s) (set (card.read r.1 (start + s)) i v)) m)
          cleared
      ∙ ap (λ (ws : Sector). card.read (card.write r.1 (start + s) ws) m) restored
      ∙ elim (Bool-cases (m == start + s)) [
        | inl e ↦
            let same : m ≡ start + s = ground arith in
            rw same (law.same r.1 (start + s) (card.read d (start + s)))
        | inr e ↦
            let apart : m ≢ start + s = ground arith in
            law.other r.1 (start + s) m (card.read d (start + s)) apart ∙ b.others m apart
      ]
