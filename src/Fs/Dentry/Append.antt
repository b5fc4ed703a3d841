-- ===== src/Fs/Dentry/Append.antt =====
-- Entering a name in a block appends it to the block's list.
use ucas_os_kernel.Base.{
  ℕ, zero, suc, ◌+◌, ◌-◌, ◌*◌, ◌^◌, ◌<◌, ◌≤◌, ◌≡◌, ◌≢◌, refl, false, List, [], ◌∷◌, ◌++◌, some,
  arith, ap, ◌∙◌, sym, subst, length, length-append, length-drop, take, drop, append_assoc, ltb,
  ◌==◌, Bool-cases, inl, inr,
}
use ucas_os_kernel.Base.Bytes.{
  Bytes, AreBytes, le_bytes, slice, splice, length-le_bytes, le_bytes-AreBytes, length-splice,
  slice-splice, slice-splice_left, drop-splice, drop-splice_right, drop-drop, splice-AreBytes,
  append-AreBytes,
}
use ucas_os_kernel.Strings.{strcpy}
use ucas_os_kernel.Strings.Compare.{terminated, IsString}
use ucas_os_kernel.Strings.Copy.{strcpy_lem}
use ucas_os_kernel.Fs.Dentry.{first_unused, put_dentry}
use ucas_os_kernel.Fs.Dentry.Dir.{Entry, EntryAt, IsUnused, IsDir, dentry_inum_lem}

take-append_long : (ys r : Bytes) (m : ℕ) → take (length ys + m) (ys ++ r) ≡ ys ++ take m r
take-append_long [] r m = let e : 0 + m ≡ m = omega arith in rw e refl
take-append_long (y ∷ ys) r m =
    let e : suc (length ys) + m ≡ suc (length ys + m) = omega arith in
    rw e (ap (λ (zs : Bytes). y ∷ zs) (take-append_long ys r m))

-- A write inside entry `k` leaves the fields of the others.
other_entry :
    (b : Bytes) (o : ℕ) (s : Bytes) (k j p n : ℕ)
    → o + length s ≤ length b
    → 36 * k ≤ o
    → o + length s ≤ 36 * k + 36
    → j ≢ k
    → p + n ≤ 36
    → slice (splice b o s) (36 * j + p) n ≡ slice b (36 * j + p) n
other_entry b o s k j p n inside low high ne field = elim (Bool-cases (ltb j k)) [
  | inl lt ↦
      let before : j < k = ground arith in
      slice-splice_left b o s inside (36 * j + p) n (omega arith)
  | inr ge ↦
      let behind : k < j = ground (arith, ne) in
      ap (take n) (drop-splice_right b o s inside (36 * j + p) (omega arith))
]

splice_lem :
    (b : Bytes) (o : ℕ) (s : Bytes) → splice b o s ≡ take o b ++ (s ++ drop (o + length s) b)
unfolding splice
splice_lem b o s = refl

module _ (buf : Bytes) (k inum : ℕ) (xs : Bytes) (len : length buf ≡ 4096) (room : k < 113)
    (short : length xs ≤ 26) where
  abbrev numbered : Bytes
  numbered = splice buf (36 * k + 4) (le_bytes 4 inum)

  abbrev marked : Bytes
  marked = splice numbered (36 * k) (1 ∷ [])

  abbrev pub named : Bytes
  named = splice marked (36 * k + 8) (xs ++ (0 ∷ []))

  fits1 : 36 * k + 4 + length (le_bytes 4 inum) ≤ length buf
  fits1 = omega (arith, len, room, length-le_bytes 4 inum)

  length1 : length numbered ≡ 4096
  length1 = length-splice buf (36 * k + 4) (le_bytes 4 inum) fits1 ∙ len

  fits2 : 36 * k + 1 ≤ length numbered
  fits2 = omega (arith, length1, room)

  length2 : length marked ≡ 4096
  length2 = length-splice numbered (36 * k) (1 ∷ []) fits2 ∙ length1

  fits3 : 36 * k + 8 + length (xs ++ (0 ∷ [])) ≤ length marked
  fits3 = omega (arith, length2, room, short, length-append xs (0 ∷ []))

  pub length-named : length named ≡ 4096
  length-named = length-splice marked (36 * k + 8) (xs ++ (0 ∷ [])) fits3 ∙ length2

  pub named-AreBytes : AreBytes buf → AreBytes xs → AreBytes named
  named-AreBytes h g =
      splice-AreBytes marked _ (xs ++ (0 ∷ []))
        (splice-AreBytes numbered _ (1 ∷ [])
          (splice-AreBytes buf _ (le_bytes 4 inum) h (le_bytes-AreBytes 4 inum)) (omega arith, tt))
        (append-AreBytes xs (0 ∷ []) g (omega arith, tt))

  put_dentry-strcpy :
      (path name : Bytes)
      → strcpy (drop (36 * k + 8) marked) path ≡ some name
      → put_dentry buf k inum path ≡ some (take (36 * k + 8) marked ++ name)
  unfolding put_dentry
  put_dentry-strcpy path name h = rw h refl

  -- What `put_dentry` writes.
  pub put_dentry_lem :
      (t : Bytes) → IsString xs → put_dentry buf k inum (terminated xs t) ≡ some named
  put_dentry_lem t str =
      let copied =
        strcpy_lem (drop (36 * k + 8) marked) xs t str
          (omega (arith, length2, length-drop (36 * k + 8) marked, room, short)) in
      let behind : drop (length xs + 1) (drop (36 * k + 8) marked)
          ≡ drop (36 * k + 8 + length (xs ++ (0 ∷ []))) marked =
        drop-drop (length xs + 1) (36 * k + 8) marked
        ∙ ap (λ (n : ℕ). drop n marked) (omega (arith, length-append xs (0 ∷ []))) in
      put_dentry-strcpy (terminated xs t) _ copied
      ∙ ap (λ (zs : Bytes). some (take (36 * k + 8) marked ++ (xs ++ (0 ∷ zs)))) behind
      ∙ ap (λ (zs : Bytes). some (take (36 * k + 8) marked ++ zs))
          (sym (append_assoc xs (0 ∷ []) (drop (36 * k + 8 + length (xs ++ (0 ∷ []))) marked)))
      ∙ ap some (sym (splice_lem marked (36 * k + 8) (xs ++ (0 ∷ []))))

  other-named :
      (j p n : ℕ) → j ≢ k → p + n ≤ 36 → slice named (36 * j + p) n ≡ slice buf (36 * j + p) n
  other-named j p n ne field =
      other_entry marked (36 * k + 8) (xs ++ (0 ∷ [])) k j p n fits3 (omega arith)
        (omega (arith, length-append xs (0 ∷ []), short)) ne field
      ∙ other_entry numbered (36 * k) (1 ∷ []) k j p n fits2 (omega arith) (omega arith) ne field
      ∙ other_entry buf (36 * k + 4) (le_bytes 4 inum) k j p n fits1 (omega arith)
          (omega (arith, length-le_bytes 4 inum)) ne field

  EntryAt-other : (j : ℕ) (e : Entry) → j ≢ k → EntryAt buf j e → EntryAt named j e
  EntryAt-other j e ne a =
      let start : 36 * j ≡ 36 * j + 0 = omega arith in
      record {
        pad = a.pad;
        valid =
            ap (λ (o : ℕ). slice named o 1) start
            ∙ other-named j 0 1 ne (omega arith)
            ∙ ap (λ (o : ℕ). slice buf o 1) (sym start)
            ∙ a.valid;
        inum = other-named j 4 4 ne (omega arith) ∙ a.inum;
        name = other-named j 8 27 ne (omega arith) ∙ a.name;
        used = a.used;
        word = a.word;
        string = a.string;
      }

  IsUnused-other : (j : ℕ) → j ≢ k → IsUnused buf j → IsUnused named j
  IsUnused-other j ne u =
      let start : 36 * j ≡ 36 * j + 0 = omega arith in
      record {
        valid =
            ap (λ (o : ℕ). slice named o 1) start
            ∙ other-named j 0 1 ne (omega arith)
            ∙ ap (λ (o : ℕ). slice buf o 1) (sym start)
            ∙ u.valid;
        inum = other-named j 4 4 ne (omega arith) ∙ u.inum;
      }

  -- The new entry.
  pub EntryAt-named :
      inum ≢ 0
      → inum < 2 ^ 32
      → IsString xs
      → EntryAt named k (record { valid = 1; inum = inum; name = xs })
  EntryAt-named nz word str =
      let name_len : length (xs ++ (0 ∷ [])) ≡ length xs + 1 =
        omega (arith, length-append xs (0 ∷ [])) in
      let rest = drop (36 * k + 8 + length (xs ++ (0 ∷ []))) marked in
      let start : 36 * k + 8 ≡ 36 * k + 8 + 0 = omega arith in
      let whole : 27 ≡ length (xs ++ (0 ∷ [])) + (26 - length xs) =
        omega (arith, name_len, short) in
      record {
        pad = take (26 - length xs) rest;
        valid =
            slice-splice_left marked (36 * k + 8) (xs ++ (0 ∷ [])) fits3 (36 * k) 1 (omega arith)
            ∙ slice-splice numbered (36 * k) (1 ∷ []) fits2;
        inum =
            slice-splice_left marked (36 * k + 8) (xs ++ (0 ∷ [])) fits3 (36 * k + 4) 4
              (omega arith)
            ∙ ap (take 4)
                (drop-splice_right numbered (36 * k) (1 ∷ []) fits2 (36 * k + 4) (omega arith))
            ∙ ap (slice numbered (36 * k + 4)) (sym (length-le_bytes 4 inum))
            ∙ slice-splice buf (36 * k + 4) (le_bytes 4 inum) fits1;
        name =
            ap (λ (o : ℕ). slice named o 27) start
            ∙ ap (take 27) (drop-splice marked (36 * k + 8) (xs ++ (0 ∷ [])) fits3 0)
            ∙ ap (λ (n : ℕ). take n ((xs ++ (0 ∷ [])) ++ rest)) whole
            ∙ take-append_long (xs ++ (0 ∷ [])) rest (26 - length xs)
            ∙ append_assoc xs (0 ∷ []) (take (26 - length xs) rest);
        used = nz;
        word = word;
        string = str;
      }

  -- The block then holds one entry more.
  pub IsDir-named :
      inum ≢ 0
      → inum < 2 ^ 32
      → IsString xs
      → (j : ℕ) (es : List Entry) → j + length es ≡ k
      → IsDir buf j es
      → IsDir named j (es ++ (record { valid = 1; inum = inum; name = xs } ∷ []))
  IsDir-named nz word str j [] e d =
      let here : j ≡ k = omega (arith, e) in
      (
        subst (λ (i : ℕ). EntryAt named i (record { valid = 1; inum = inum; name = xs })) (sym here)
            (EntryAt-named nz word str),
        λ m a b. IsUnused-other m (λ q. omega (arith, q, a, here)) (d m (omega (arith, a)) b),
      )
  IsDir-named nz word str j (e ∷ es) q d = (
    EntryAt-other j e (λ z. omega (arith, z, q)) d.0,
    IsDir-named nz word str (j + 1) es (omega (arith, q)) d.1,
  )

pub first_unused_lem :
    (buf : Bytes) (n j : ℕ) (es : List Entry)
    → length buf ≡ 4096
    → IsDir buf j es
    → length es < n
    → j + length es < 114
    → first_unused n buf j ≡ some (j + length es)
unfolding first_unused
first_unused_lem buf zero j es len d h k = absurd (omega arith)
first_unused_lem buf (suc n) j [] len d h k =
    let u = d j (omega arith) (omega (arith, k)) in
    let inum = dentry_inum_lem buf j 0 len (omega (arith, k)) (omega arith) u.inum in
    let same : j + 0 ≡ j = omega arith in rw (inum, same) refl
first_unused_lem buf (suc n) j (e ∷ es) len d h k =
    let inum = dentry_inum_lem buf j e.inum len (omega (arith, k)) d.0.word d.0.inum in
    let used : (e.inum == 0) ≡ false = ground (arith, d.0.used) in
    let next : j + suc (length es) ≡ j + 1 + length es = omega arith in
    rw (inum, used, next)
      (first_unused_lem buf n (j + 1) es len d.1 (omega (arith, h)) (omega (arith, k)))
