-- ===== src/Fs/Bitmap.antt =====
-- The first free bit of a map is found, and what setting it does.
use ucas_os_kernel.Base.{
  ℕ, zero, suc, ◌+◌, ◌-◌, ◌*◌, ◌/◌, ◌%◌, ◌^◌, ◌<◌, ◌≡◌, true, false, [], ◌∷◌, none, some, arith, ap,
  sym, subst, ◌∙◌, bit_and, bit_or, ltb, ◌==◌, set, get_or, length, Bool-cases, inl, inr,
}
use ucas_os_kernel.Base.Bits.{
  bit_and_mask, bit_or_step, bit_or-zero, pow_pos, pow_double, mod_double, div_double, bit_or_shift,
  bit_or_ones,
}
use ucas_os_kernel.Mm.Pgtable.{word}
use ucas_os_kernel.Fs.{Sector, full_word, one_shl, skip_ones, alloc_words}

-- The `t` lowest bits of `w` are set, and the next one is not.
pub record FirstFree (w t : ℕ) : Type 0 where
  pub below : w % 2 ^ t ≡ 2 ^ t - 1
  pub free : w / 2 ^ t % 2 ≡ 0

skip_ones_lem :
    (fuel val bnum : ℕ)
    → val + 1 < 2 ^ fuel
    → (t : ℕ) × (skip_ones fuel val bnum ≡ bnum + t) × (t < fuel) × FirstFree val t
unfolding skip_ones
skip_ones_lem zero val bnum h = absurd (omega arith)
skip_ones_lem (suc fuel) val bnum h = elim (Bool-cases (bit_and val 1 == 0)) [
  | inl e ↦ rw e (
    0,
    omega arith,
    omega arith,
    record { below = omega arith; free = ground (arith, bit_and_mask 1 val) },
  )
  | inr e ↦
      let odd : val % 2 ≡ 1 = ground (arith, bit_and_mask 1 val) in
      let r = skip_ones_lem fuel (val / 2) (bnum + 1) (omega (arith, pow_double fuel)) in
      let p = pow_double r.0 in
      rw e (
        suc r.0,
        omega (arith, r.1),
        omega (arith, r.2),
        record {
          below =
              rw p (
                omega (arith, mod_double (2 ^ r.0) val (pow_pos r.0), r.3.below, odd, pow_pos r.0));
          free = rw (p, div_double (2 ^ r.0) val (pow_pos r.0)) r.3.free;
        },
      )
]

-- The free bit is set and no other, if it is one of the lowest 31; at the next one the upper half
-- of the word is set as well.
mark_low :
    (open_shl : ℕ → ℕ) (w t : ℕ)
    → FirstFree w t
    → t < 31
    → bit_or w (one_shl open_shl t) ≡ w + 2 ^ t
mark_low open_shl w t f h =
    let low : ltb t 31 ≡ true = ground arith in
    let one : 1 * 2 ^ t ≡ 2 ^ t = omega arith in
    let set_bit : bit_or (w / 2 ^ t) 1 ≡ w / 2 ^ t + 1 =
      omega (arith, bit_or_step (w / 2 ^ t) 1, bit_or-zero (w / 2 ^ t / 2), f.free) in
    let joined = bit_or_shift t w 1 in
    rw low (ap (bit_or w) (sym one) ∙ joined ∙ rw set_bit (grind (arith, pow_pos t)))

mark_sign :
    (open_shl : ℕ → ℕ) (w : ℕ)
    → w < word
    → FirstFree w 31
    → bit_or w (one_shl open_shl 31) ≡ full_word
mark_sign open_shl w h f =
    omega
      (arith, bit_or_shift 31 w (2 ^ 33 - 1), bit_or_ones 33 (w / 2 ^ 31) (omega arith), f.below)

-- What becomes of a word with its first free bit at `t`.
pub record Marked (open_shl : ℕ → ℕ) (w t v : ℕ) : Type 0 where
  pub bit : t < 64
  pub first : FirstFree w t
  pub low : t < 31 → v ≡ w + 2 ^ t
  pub sign : t ≡ 31 → v ≡ full_word

module _ (open_shl : ℕ → ℕ) where
  pub alloc_words-full :
      (ws : Sector) (bnum : ℕ)
      → ((j : ℕ) → j < length ws → get_or ws j 0 ≡ full_word)
      → alloc_words open_shl ws bnum ≡ (none, bnum + 64 * length ws)
  unfolding alloc_words
  alloc_words-full [] bnum h = ap (λ (n : ℕ). (none, n)) (omega arith)
  alloc_words-full (w ∷ ws) bnum h =
      let e : (w == full_word) ≡ true = ground (arith, h 0 (omega arith)) in
      rw (e, alloc_words-full ws (bnum + 64) (λ j l. h (suc j) (omega arith)))
        (ap (λ (n : ℕ). (none, n)) (omega arith))

  pub alloc_words-first :
      (ws : Sector) (bnum i : ℕ)
      → i < length ws
      → ((j : ℕ) → j < i → get_or ws j 0 ≡ full_word)
      → get_or ws i 0 < full_word
      → bnum % 64 ≡ 0
      → (t v : ℕ) × (alloc_words open_shl ws bnum ≡ (some (set ws i v), bnum + 64 * i + t))
        × Marked open_shl (get_or ws i 0) t v
  unfolding alloc_words
  alloc_words-first [] bnum i h full free al = absurd (omega arith)
  alloc_words-first (w ∷ ws) bnum zero h full free al =
      let e : (w == full_word) ≡ false = ground arith in
      let s = skip_ones_lem 64 w bnum (omega arith) in
      let at : skip_ones 64 w bnum % 64 ≡ s.0 = omega (arith, s.1, s.2) in
      (
        s.0,
        bit_or w (one_shl open_shl s.0),
        rw (e, at)
            (ap (λ (n : ℕ). (some (bit_or w (one_shl open_shl s.0) ∷ ws), n)) (omega (arith, s.1))),
        record {
          bit = s.2;
          first = s.3;
          low = mark_low open_shl w s.0 s.3;
          sign = λ z.
              rw z (mark_sign open_shl w (omega arith) (subst (λ (u : ℕ). FirstFree w u) z s.3));
        },
      )
  alloc_words-first (w ∷ ws) bnum (suc i) h full free al =
      let e : (w == full_word) ≡ true = ground (arith, full 0 (omega arith)) in
      let r =
        alloc_words-first ws (bnum + 64) i (omega arith) (λ j l. full (suc j) (omega arith)) free
          (omega arith) in
      (r.0, r.1, rw (e, r.2) (ap (λ (n : ℕ). (some (w ∷ set ws i r.1), n)) (omega arith)), r.3)
