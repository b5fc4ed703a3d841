-- ===== src/Fs/Make/Numbers.antt =====
-- Arrays of numbers that count up, and the free bit in the map of `init_bigfile`.
use ucas_os_kernel.Base.{
  ℕ, zero, suc, ◌+◌, ◌*◌, ◌%◌, ◌^◌, ◌<◌, ◌≤◌, ◌≡◌, refl, arith, ap, ◌∙◌, List, [], ◌∷◌, ◌++◌,
  length, get_or, replicate, take, append_assoc,
}
use ucas_os_kernel.Base.Bits.{pow_pos, pow_double}
use ucas_os_kernel.Base.Bytes.{Bytes, AreBytes, le_bytes, le_value}
use ucas_os_kernel.Fs.Bitmap.{FirstFree}
use ucas_os_kernel.Fs.Inode.{u32s, get_u32}
use ucas_os_kernel.Fs.Inode.Format.{AreU32, value-field, drop-field}
use ucas_os_kernel.Fs.Make.{count_from}
use native.Mathlib.Nat.{mod-eq_of_lt}

pub get_or-count_from : (n k i : ℕ) → i < n → get_or (count_from n k) i 0 ≡ k + i
unfolding count_from
get_or-count_from zero k i h = absurd (omega arith)
get_or-count_from (suc n) k zero h = omega arith
get_or-count_from (suc n) k (suc i) h = get_or-count_from n (k + 1) i (omega arith) ∙ omega arith

pub length-count_from : (n k : ℕ) → length (count_from n k) ≡ n
unfolding count_from
length-count_from zero k = refl
length-count_from (suc n) k = ap suc (length-count_from n (k + 1))

pub count_from-AreU32 : (n k : ℕ) → k + n ≤ 2 ^ 32 → AreU32 (count_from n k)
unfolding count_from
count_from-AreU32 zero k h = tt
count_from-AreU32 (suc n) k h = (omega (arith, h), count_from-AreU32 n (k + 1) (omega (arith, h)))

pub get_u32-u32s :
    (vs : List ℕ) (rest : Bytes) (i : ℕ)
    → AreU32 vs
    → i < length vs
    → get_u32 (u32s vs ++ rest) i ≡ get_or vs i 0
unfolding get_u32 u32s
get_u32-u32s [] rest i h l = absurd (omega arith)
get_u32-u32s (v ∷ vs) rest zero h l =
    rw (append_assoc (le_bytes 4 v) (u32s vs) rest) (value-field 4 v _ (omega (arith, h.0)))
get_u32-u32s (v ∷ vs) rest (suc i) h l =
    let place : 4 * suc i ≡ 4 + 4 * i = omega arith in
    rw (append_assoc (le_bytes 4 v) (u32s vs) rest, place)
      (ap (λ (b : Bytes). le_value (take 4 b)) (drop-field 4 v (u32s vs ++ rest) (4 * i))
        ∙ get_u32-u32s vs rest i h.1 (omega arith))

pub replicate-AreBytes : (n : ℕ) → AreBytes (replicate n 0)
replicate-AreBytes zero = tt
replicate-AreBytes (suc n) = (omega arith, replicate-AreBytes n)

pub pow_256 : (k : ℕ) → 2 ^ suc (suc (suc (suc (suc (suc (suc (suc k))))))) ≡ 256 * 2 ^ k
pow_256 k = omega (
  arith,
  pow_double k,
  pow_double (suc k),
  pow_double (suc (suc k)),
  pow_double (suc (suc (suc k))),
  pow_double (suc (suc (suc (suc k)))),
  pow_double (suc (suc (suc (suc (suc k))))),
  pow_double (suc (suc (suc (suc (suc (suc k)))))),
  pow_double (suc (suc (suc (suc (suc (suc (suc k))))))),
)

pub first_free_7f : (t : ℕ) → FirstFree 0x7f t → t ≡ 7
first_free_7f zero f = absurd (omega (arith, f.free))
first_free_7f (suc zero) f = absurd (omega (arith, f.free))
first_free_7f (suc (suc zero)) f = absurd (omega (arith, f.free))
first_free_7f (suc (suc (suc zero))) f = absurd (omega (arith, f.free))
first_free_7f (suc (suc (suc (suc zero)))) f = absurd (omega (arith, f.free))
first_free_7f (suc (suc (suc (suc (suc zero))))) f = absurd (omega (arith, f.free))
first_free_7f (suc (suc (suc (suc (suc (suc zero)))))) f = absurd (omega (arith, f.free))
first_free_7f (suc (suc (suc (suc (suc (suc (suc zero))))))) f = refl
first_free_7f (suc (suc (suc (suc (suc (suc (suc (suc k)))))))) f =
    let t = suc (suc (suc (suc (suc (suc (suc (suc k))))))) in
    let big : 2 ^ t ≡ 256 * 2 ^ k = pow_256 k in
    let small : 0x7f % 2 ^ t ≡ 0x7f = mod-eq_of_lt (omega (arith, big, pow_pos k)) in
    absurd (omega (arith, f.below, big, small, pow_pos k))
