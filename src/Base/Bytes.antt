-- ===== src/Base/Bytes.antt =====
-- Memory as lists of bytes: numbers in little-endian order, and what is stored inside a buffer.
use Prim.Native.Nat.{ℕ, zero, suc, ◌+◌, ◌-◌, ◌*◌, ◌/◌, ◌%◌, ◌^◌, ◌<◌, ◌≤◌}
use mathlib.Core.Path.{◌≡◌, refl, ap, ap₂, sym, ◌∙◌}
use mathlib.Core.List.{List, [], ◌∷◌, ◌++◌}
use native.Mathlib.Omega.{arith}
use ucas_os_kernel.Base.Lists.{length, take, drop, length-append, length-take, length-drop}

abbrev pub Bytes : Type 0
Bytes = List ℕ

-- All are bytes.
abbrev pub AreBytes : Bytes → Type 0
AreBytes [] = Unit {0}
AreBytes (c ∷ cs) = (c < 256) × AreBytes cs

-- The `n` low bytes of a number, and the number that bytes make.
unfoldable pub le_bytes : (n v : ℕ) → Bytes
le_bytes zero v = []
le_bytes (suc n) v = v % 256 ∷ le_bytes n (v / 256)

unfoldable pub le_value : Bytes → ℕ
le_value [] = 0
le_value (c ∷ cs) = c + 256 * le_value cs

-- `n` bytes at offset `o`.
abbrev pub slice : Bytes → (o n : ℕ) → Bytes
slice b o n = take n (drop o b)

-- The buffer with bytes stored at offset `o`.
unfoldable pub splice : Bytes → (o : ℕ) → Bytes → Bytes
splice b o s = take o b ++ (s ++ drop (o + length s) b)

pub length-le_bytes : (n v : ℕ) → length (le_bytes n v) ≡ n
unfolding le_bytes
length-le_bytes zero v = refl
length-le_bytes (suc n) v = ap suc (length-le_bytes n (v / 256))

pub le_bytes-AreBytes : (n v : ℕ) → AreBytes (le_bytes n v)
unfolding le_bytes
le_bytes-AreBytes zero v = tt
le_bytes-AreBytes (suc n) v = (omega arith, le_bytes-AreBytes n (v / 256))

pow256 : (n : ℕ) → 256 ^ suc n ≡ 256 * 256 ^ n
pow256 n = grind arith

pub le_value-le_bytes : (n v : ℕ) → v < 256 ^ n → le_value (le_bytes n v) ≡ v
unfolding le_bytes le_value
le_value-le_bytes zero v h = omega arith
le_value-le_bytes (suc n) v h =
    omega (arith, pow256 n, le_value-le_bytes n (v / 256) (omega (arith, pow256 n)))

pub le_bytes-le_value : (cs : Bytes) → AreBytes cs → le_bytes (length cs) (le_value cs) ≡ cs
unfolding le_bytes le_value
le_bytes-le_value [] h = refl
le_bytes-le_value (c ∷ cs) h =
    ap₂ (λ (a : ℕ) (zs : Bytes). a ∷ zs) (omega arith)
      (ap (le_bytes (length cs)) (omega arith) ∙ le_bytes-le_value cs h.1)

pub le_value-lt : (cs : Bytes) → AreBytes cs → le_value cs < 256 ^ length cs
unfolding le_value
le_value-lt [] h = omega arith
le_value-lt (c ∷ cs) h = omega (arith, pow256 (length cs), le_value-lt cs h.1)

pub append-AreBytes : (xs ys : Bytes) → AreBytes xs → AreBytes ys → AreBytes (xs ++ ys)
append-AreBytes [] ys h k = k
append-AreBytes (x ∷ xs) ys h k = (h.0, append-AreBytes xs ys h.1 k)

pub take-AreBytes : (n : ℕ) (xs : Bytes) → AreBytes xs → AreBytes (take n xs)
take-AreBytes zero xs h = tt
take-AreBytes (suc n) [] h = tt
take-AreBytes (suc n) (x ∷ xs) h = (h.0, take-AreBytes n xs h.1)

pub drop-AreBytes : (n : ℕ) (xs : Bytes) → AreBytes xs → AreBytes (drop n xs)
drop-AreBytes zero xs h = h
drop-AreBytes (suc n) [] h = tt
drop-AreBytes (suc n) (x ∷ xs) h = drop-AreBytes n xs h.1

pub splice-AreBytes :
    (b : Bytes) (o : ℕ) (s : Bytes) → AreBytes b → AreBytes s → AreBytes (splice b o s)
unfolding splice
splice-AreBytes b o s h k =
    append-AreBytes _ _ (take-AreBytes o b h)
      (append-AreBytes s _ k (drop-AreBytes (o + length s) b h))

pub length-splice :
    (b : Bytes) (o : ℕ) (s : Bytes) → o + length s ≤ length b → length (splice b o s) ≡ length b
unfolding splice
length-splice b o s h = omega (
  arith,
  length-append (take o b) (s ++ drop (o + length s) b),
  length-append s (drop (o + length s) b),
  length-take o b,
  length-drop (o + length s) b,
)

-- Slices of lists that are joined.
pub take-append : (xs ys : Bytes) (n : ℕ) → n ≤ length xs → take n (xs ++ ys) ≡ take n xs
take-append xs ys zero h = refl
take-append [] ys (suc n) h = absurd (omega arith)
take-append (x ∷ xs) ys (suc n) h = ap (λ (zs : Bytes). x ∷ zs) (take-append xs ys n (omega arith))

pub take-append_all : (xs ys : Bytes) (n : ℕ) → n ≡ length xs → take n (xs ++ ys) ≡ xs
take-append_all [] ys n h = rw h refl
take-append_all (x ∷ xs) ys zero h = absurd (omega arith)
take-append_all (x ∷ xs) ys (suc n) h =
    ap (λ (zs : Bytes). x ∷ zs) (take-append_all xs ys n (omega arith))

pub drop-append : (xs ys : Bytes) (n : ℕ) → drop (length xs + n) (xs ++ ys) ≡ drop n ys
drop-append [] ys n = let e : 0 + n ≡ n = omega arith in rw e refl
drop-append (x ∷ xs) ys n =
    let e : suc (length xs) + n ≡ suc (length xs + n) = omega arith in rw e (drop-append xs ys n)

pub drop-append_left : (xs ys : Bytes) (n : ℕ) → n ≤ length xs → drop n (xs ++ ys) ≡ drop n xs ++ ys
drop-append_left xs ys zero h = refl
drop-append_left [] ys (suc n) h = absurd (omega arith)
drop-append_left (x ∷ xs) ys (suc n) h = drop-append_left xs ys n (omega arith)

drop-nil : (m : ℕ) → drop {A = ℕ} m [] ≡ []
drop-nil zero = refl
drop-nil (suc m) = refl

take-nil : (n : ℕ) → take {A = ℕ} n [] ≡ []
take-nil zero = refl
take-nil (suc n) = refl

pub drop-drop : (m n : ℕ) (xs : Bytes) → drop m (drop n xs) ≡ drop (n + m) xs
drop-drop m zero xs = let e : 0 + m ≡ m = omega arith in rw e refl
drop-drop m (suc n) [] = let e : suc n + m ≡ suc (n + m) = omega arith in rw e (drop-nil m)
drop-drop m (suc n) (x ∷ xs) =
    let e : suc n + m ≡ suc (n + m) = omega arith in rw e (drop-drop m n xs)

pub take-take : (m n : ℕ) (xs : Bytes) → m ≤ n → take m (take n xs) ≡ take m xs
take-take zero n xs h = refl
take-take (suc m) zero xs h = absurd (omega arith)
take-take (suc m) (suc n) [] h = refl
take-take (suc m) (suc n) (x ∷ xs) h = ap (λ (zs : Bytes). x ∷ zs) (take-take m n xs (omega arith))

pub drop-take : (m n : ℕ) (xs : Bytes) → drop m (take (m + n) xs) ≡ take n (drop m xs)
drop-take zero n xs = let e : 0 + n ≡ n = omega arith in rw e refl
drop-take (suc m) n [] = let e : suc m + n ≡ suc (m + n) = omega arith in rw e (sym (take-nil n))
drop-take (suc m) n (x ∷ xs) =
    let e : suc m + n ≡ suc (m + n) = omega arith in rw e (drop-take m n xs)

module _ (b : Bytes) (o : ℕ) (s : Bytes) (inside : o + length s ≤ length b) where
  -- How the buffer falls apart, and how long its parts are.
  before-length : length (take o b) ≡ o
  before-length = omega (arith, length-take o b)

  pub drop-splice : (n : ℕ) → drop (o + n) (splice b o s) ≡ drop n (s ++ drop (o + length s) b)
  unfolding splice
  drop-splice n =
      ap (λ (k : ℕ). drop (k + n) (take o b ++ (s ++ drop (o + length s) b))) (sym before-length)
      ∙ drop-append (take o b) (s ++ drop (o + length s) b) n

  -- What was stored is read.
  pub slice-splice : slice (splice b o s) o (length s) ≡ s
  slice-splice =
      let start : o + 0 ≡ o = omega arith in
      ap (λ (k : ℕ). take (length s) (drop k (splice b o s))) (sym start)
      ∙ ap (take (length s)) (drop-splice 0)
      ∙ take-append_all s (drop (o + length s) b) (length s) refl

  -- A part of it.
  pub slice-splice_part :
      (p n : ℕ) → p + n ≤ length s → slice (splice b o s) (o + p) n ≡ slice s p n
  slice-splice_part p n h =
      ap (take n) (drop-splice p ∙ drop-append_left s (drop (o + length s) b) p (omega arith))
      ∙ take-append (drop p s) _ n (omega (arith, length-drop p s))

  -- What stands in front of it, and behind it.
  pub slice-splice_left : (p n : ℕ) → p + n ≤ o → slice (splice b o s) p n ≡ slice b p n
  unfolding splice
  slice-splice_left p n h =
      let rest = s ++ drop (o + length s) b in
      let split : o ≡ p + (o - p) = omega arith in
      ap (take n) (drop-append_left (take o b) rest p (omega (arith, before-length)))
      ∙ take-append (drop p (take o b)) rest n
          (omega (arith, length-drop p (take o b), before-length))
      ∙ ap (λ (k : ℕ). take n (drop p (take k b))) split
      ∙ ap (take n) (drop-take p (o - p) b)
      ∙ take-take n (o - p) (drop p b) (omega arith)

  pub drop-splice_right : (p : ℕ) → o + length s ≤ p → drop p (splice b o s) ≡ drop p b
  drop-splice_right p h =
      let d = p - (o + length s) in
      let place : p ≡ o + (length s + d) = omega arith in
      ap (λ (k : ℕ). drop k (splice b o s)) place
      ∙ drop-splice (length s + d)
      ∙ drop-append s (drop (o + length s) b) d
      ∙ drop-drop d (o + length s) b
      ∙ ap (λ (k : ℕ). drop k b) (omega arith)
