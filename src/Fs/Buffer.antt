-- ===== src/Fs/Buffer.antt =====
-- The bytes of a sector, for the `char` and struct buffers of kernel/fs/fs.c.
use ucas_os_kernel.Base.{
  ℕ, zero, suc, ◌*◌, ◌≡◌, refl, List, [], ◌∷◌, ◌++◌, arith, ap, ap₂, sym, ◌∙◌, length,
  length-append, take, drop, length-take, length-drop, take-append-drop,
}
use ucas_os_kernel.Base.Bytes.{
  Bytes, AreBytes, le_bytes, le_value, length-le_bytes, le_bytes-AreBytes, le_bytes-le_value,
  append-AreBytes, take-AreBytes, drop-AreBytes,
}

abbrev pub nbytes_per_sector : ℕ
nbytes_per_sector = 512

-- The bytes of 64-bit words, and `n` words of bytes.
unfoldable pub bytes_of_words : List ℕ → Bytes
bytes_of_words [] = []
bytes_of_words (w ∷ ws) = le_bytes 8 w ++ bytes_of_words ws

unfoldable pub words_of_bytes : (n : ℕ) → Bytes → List ℕ
words_of_bytes zero b = []
words_of_bytes (suc n) b = le_value (take 8 b) ∷ words_of_bytes n (drop 8 b)

pub length-bytes_of_words : (ws : List ℕ) → length (bytes_of_words ws) ≡ 8 * length ws
unfolding bytes_of_words
length-bytes_of_words [] = omega arith
length-bytes_of_words (w ∷ ws) = omega (
  arith,
  length-append (le_bytes 8 w) (bytes_of_words ws),
  length-le_bytes 8 w,
  length-bytes_of_words ws,
)

pub bytes_of_words-AreBytes : (ws : List ℕ) → AreBytes (bytes_of_words ws)
unfolding bytes_of_words
bytes_of_words-AreBytes [] = tt
bytes_of_words-AreBytes (w ∷ ws) =
    append-AreBytes (le_bytes 8 w) _ (le_bytes-AreBytes 8 w) (bytes_of_words-AreBytes ws)

pub length-words_of_bytes : (n : ℕ) (b : Bytes) → length (words_of_bytes n b) ≡ n
unfolding words_of_bytes
length-words_of_bytes zero b = refl
length-words_of_bytes (suc n) b = ap suc (length-words_of_bytes n (drop 8 b))

-- Bytes survive the card, where they come as words.
pub bytes-words :
    (n : ℕ) (b : Bytes) → AreBytes b → length b ≡ 8 * n → bytes_of_words (words_of_bytes n b) ≡ b
unfolding bytes_of_words words_of_bytes
bytes-words zero [] h l = refl
bytes-words zero (c ∷ b) h l = absurd (omega arith)
bytes-words (suc n) b h l =
    let eight : length (take 8 b) ≡ 8 = omega (arith, length-take 8 b) in
    let first : le_bytes 8 (le_value (take 8 b)) ≡ take 8 b =
      ap (λ (k : ℕ). le_bytes k (le_value (take 8 b))) (sym eight)
      ∙ le_bytes-le_value (take 8 b) (take-AreBytes 8 b h) in
    ap₂ (λ (xs ys : Bytes). xs ++ ys) first
      (bytes-words n (drop 8 b) (drop-AreBytes 8 b h) (omega (arith, length-drop 8 b)))
    ∙ take-append-drop 8 b
