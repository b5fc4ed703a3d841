-- ===== src/Strings/Compare.antt =====
-- `strlen`, `strcmp` and `strncmp` on strings: bytes that are not 0, then a 0.
use ucas_os_kernel.Base.{
  ℕ, ◌+◌, ◌≡◌, refl, false, [], ◌∷◌, ◌++◌, some, arith, ap, ◌∙◌, length, has, ◌==◌, Bool-cases, inl,
  inr, ◌↔◌,
}
use ucas_os_kernel.Base.Int.{ℤ, pos, sub_ℕ}
use ucas_os_kernel.Strings.{Bytes, strlen, strlen_from, strcmp, strncmp}

-- The buffer of the string `xs`, with `rest` behind it.
abbrev pub terminated : (xs rest : Bytes) → Bytes
terminated xs rest = xs ++ (0 ∷ rest)

-- No byte of a string is 0.
abbrev pub IsString : Bytes → Type 0
IsString xs = has 0 xs ≡ false

strlen_from_lem :
    (i : ℕ) (xs rest : Bytes)
    → IsString xs
    → strlen_from i (terminated xs rest) ≡ some (i + length xs)
unfolding strlen_from
strlen_from_lem i [] rest h = ground arith
strlen_from_lem i (x ∷ xs) rest h = ground (arith, strlen_from_lem (i + 1) xs rest)

pub strlen_lem : (xs rest : Bytes) → IsString xs → strlen (terminated xs rest) ≡ some (length xs)
strlen_lem xs rest h =
    let e : 0 + length xs ≡ length xs = omega arith in strlen_from_lem 0 xs rest h ∙ ap some e

-- The two strings' first difference, or that there is none.
pub strcmp_same :
    (xs r s : Bytes) → IsString xs → strcmp (terminated xs r) (terminated xs s) ≡ some (pos 0)
unfolding strcmp
strcmp_same [] r s h = ground arith
strcmp_same (x ∷ xs) r s h = ground (arith, strcmp_same xs r s)

pub strcmp_zero :
    (xs ys r s : Bytes)
    → IsString xs
    → IsString ys
    → strcmp (terminated xs r) (terminated ys s) ≡ some (pos 0)
    → xs ≡ ys
unfolding strcmp
strcmp_zero [] [] r s h g e = refl
strcmp_zero [] (y ∷ ys) r s h g e = absurd (ground arith)
strcmp_zero (x ∷ xs) [] r s h g e = absurd (ground arith)
strcmp_zero (x ∷ xs) (y ∷ ys) r s h g e = ground (arith, strcmp_zero xs ys r s)

strcmp_total :
    (xs ys r s : Bytes)
    → IsString xs
    → IsString ys
    → (d : ℤ) × (strcmp (terminated xs r) (terminated ys s) ≡ some d)
unfolding strcmp
strcmp_total [] [] r s h g = (pos 0, ground arith)
strcmp_total [] (y ∷ ys) r s h g = (sub_ℕ 0 y, ground arith)
strcmp_total (x ∷ xs) [] r s h g = (sub_ℕ x 0, ground arith)
strcmp_total (x ∷ xs) (y ∷ ys) r s h g = elim (Bool-cases (x == y)) [
  | inl e ↦
      let t = strcmp_total xs ys r s (ground arith) (ground arith) in (t.0, ground (arith, t.1))
  | inr e ↦ (sub_ℕ x y, ground arith)
]

-- On two terminated strings strcmp stays within both, and its result is 0 exactly if the strings
-- are equal.
pub strcmp_lem :
    (xs ys r s : Bytes)
    → IsString xs
    → IsString ys
    → (d : ℤ) × (strcmp (terminated xs r) (terminated ys s) ≡ some d) × ((d ≡ pos 0) ↔ (xs ≡ ys))
strcmp_lem xs ys r s h g =
    let t = strcmp_total xs ys r s h g in
    (
      t.0,
      t.1,
      (
        (λ z. strcmp_zero xs ys r s h g (t.1 ∙ ap some z)),
        (λ e. ground (
          arith,
          strcmp_same xs r s h,
          t.1,
          ap (λ (zs : Bytes). strcmp (terminated xs r) (terminated zs s)) e,
        )),
      ),
    )

-- On two buffers that start with the same string of n bytes, strncmp with the count n gives the
-- difference of the bytes behind it.
pub strncmp-next_byte :
    (xs r s : Bytes) (a b : ℕ)
    → IsString xs
    → strncmp (xs ++ (a ∷ r)) (xs ++ (b ∷ s)) (length xs) ≡ some (sub_ℕ a b)
unfolding strncmp
strncmp-next_byte [] r s a b h = ground arith
strncmp-next_byte (x ∷ xs) r s a b h = ground (arith, strncmp-next_byte xs r s a b)
