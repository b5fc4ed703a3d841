-- ===== src/Tests/Files.antt =====
-- The theorems on the block and inode maps, on a card that is a map from numbers to sectors, with the
-- block map that `do_mkfs` writes.
use ucas_os_kernel.Base.{ℕ, ◌+◌, ◌*◌, ◌<◌, ◌≡◌, refl, ◌≢◌, ◌∷◌, arith, upd, replicate, get_or, set}
use ucas_os_kernel.Fs.{
  Sector, Card, IsCard, full_word, alloc_words, skip_ones, alloc_block, alloc_block_from,
  alloc_inode, free_block,
}
use ucas_os_kernel.Fs.Bitmap.{Marked}
use ucas_os_kernel.Fs.Alloc.{BlockTaken, alloc_inode_lem, alloc_block_lem}
use ucas_os_kernel.Fs.Free.{free_block-alloc_block}

abbrev sample_card : Card (ℕ → Sector)
sample_card = record { read = λ d n. d n; write = λ d n s. upd d n s }

sample-IsCard : IsCard sample_card
sample-IsCard = record { same = λ d n s. ground arith; other = λ d n m s ne. ground arith }

abbrev made_map : Sector
made_map = full_word ∷ 0x3f ∷ replicate 62 0

abbrev made_card : ℕ → Sector
made_card n = made_map

abbrev open_bits : ℕ → ℕ
open_bits k = 0

before_word : (j : ℕ) → j < 1 → get_or made_map j 0 ≡ full_word
before_word j h = let first : j ≡ 0 = omega arith in rw first refl

alloc_block_example :
    BlockTaken open_bits sample_card 5 made_card 0 1
      (alloc_block open_bits sample_card made_card 5).0
      (alloc_block open_bits sample_card made_card 5).1
alloc_block_example =
    alloc_block_lem open_bits sample_card sample-IsCard 5 made_card 0 1 (omega arith)
      (λ j h. absurd (omega arith)) (omega arith) before_word (omega arith)

alloc_inode_example :
    (t v : ℕ) × Marked open_bits 0x3f t v
    × ((alloc_inode open_bits sample_card made_card 5).0 ≡ 64 * 1 + t + 1)
    × (sample_card.read (alloc_inode open_bits sample_card made_card 5).1 5 ≡ set made_map 1 v)
    × ((m : ℕ)
        → m ≢ 5
        → sample_card.read (alloc_inode open_bits sample_card made_card 5).1 m ≡ made_map)
alloc_inode_example =
    alloc_inode_lem open_bits sample_card sample-IsCard made_card 5 1 (omega arith) before_word
      (omega arith)

taken_number : (alloc_block open_bits sample_card made_card 5).0 ≡ 71
unfolding alloc_block alloc_block_from alloc_words skip_ones
taken_number = refl

free_block_example :
    sample_card.read
      (free_block open_bits 0 sample_card
        (alloc_block open_bits sample_card made_card 5).1
        5
        (alloc_block open_bits sample_card made_card 5).0)
      5
    ≡ made_map
free_block_example =
    free_block-alloc_block open_bits open_bits 0 sample_card sample-IsCard 5 made_card 0 1
      (omega arith) (λ j h. absurd (omega arith)) refl (omega arith) before_word (omega arith)
      (omega (arith, taken_number)) (λ e. omega (arith, taken_number, e)) 5
