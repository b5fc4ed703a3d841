-- ===== src/Fs/Dentry/Dir.antt =====
-- A block of entries as a list: a scan is a search of the list.
use ucas_os_kernel.Base.{
  ℕ, zero, suc, ◌+◌, ◌*◌, ◌^◌, ◌<◌, ◌≤◌, ◌≡◌, ◌≢◌, refl, Bool, true, false, not, ◌&&◌, List, [],
  ◌∷◌, ◌++◌, Option, some, arith, ap, ◌∙◌, sym, length, drop, take-append-drop, get_elem?,
  append_assoc, ltb, ◌==◌, Bool-cases, inl, inr, if◌then◌else◌,
}
use ucas_os_kernel.Base.Int.{ℤ, pos, sub_ℕ}
use ucas_os_kernel.Base.Bytes.{Bytes, le_bytes, le_value, slice, le_value-le_bytes}
use ucas_os_kernel.Strings.{strcmp}
use ucas_os_kernel.Strings.Compare.{terminated, IsString}
use ucas_os_kernel.Fs.Dentry.{Scan, scan, matches, is_zero, dentry_inum}

-- An entry, with its name as a string.
pub record Entry : Type 0 where
  pub valid : ℕ
  pub inum : ℕ
  pub name : Bytes

-- Entry `j` of a block has been used.
pub record EntryAt (buf : Bytes) (j : ℕ) (e : Entry) : Type 0 where
  pub pad : Bytes
  pub valid : slice buf (36 * j) 1 ≡ e.valid ∷ []
  pub inum : slice buf (36 * j + 4) 4 ≡ le_bytes 4 e.inum
  pub name : slice buf (36 * j + 8) 27 ≡ terminated e.name pad
  pub used : e.inum ≢ 0
  pub word : e.inum < 2 ^ 32
  pub string : IsString e.name

-- Entry `j` of a block was never used.
pub record IsUnused (buf : Bytes) (j : ℕ) : Type 0 where
  pub valid : slice buf (36 * j) 1 ≡ 0 ∷ []
  pub inum : slice buf (36 * j + 4) 4 ≡ le_bytes 4 0

-- The block holds the entries of the list from entry `j` on, and none behind them was used. The 114
-- entries whose numbers lie in the block are looked at.
abbrev pub IsDir : Bytes → ℕ → List Entry → Type 0
IsDir buf j [] = (k : ℕ) → j ≤ k → k < 114 → IsUnused buf k
IsDir buf j (e ∷ es) = EntryAt buf j e × IsDir buf (j + 1) es

abbrev pub bytes_eq : Bytes → Bytes → Bool
bytes_eq [] [] = true
bytes_eq [] (y ∷ ys) = false
bytes_eq (x ∷ xs) [] = false
bytes_eq (x ∷ xs) (y ∷ ys) = (x == y) && bytes_eq xs ys

-- The entry has the name and is in use.
abbrev pub has_name : Bytes → Entry → Bool
has_name xs e = not (e.valid == 0) && bytes_eq e.name xs

-- The search for a name.
abbrev pub find_name : Bytes → (j : ℕ) → List Entry → Scan
find_name xs j [] = Scan.unused j
find_name xs j (e ∷ es) =
    let rest = find_name xs (j + 1) es in if has_name xs e then Scan.listed j else rest

strcmp-bytes_eq :
    (xs ys r t : Bytes)
    → IsString xs
    → IsString ys
    → (d : ℤ) × (strcmp (terminated xs r) (terminated ys t) ≡ some d) × (is_zero d ≡ bytes_eq xs ys)
unfolding strcmp
strcmp-bytes_eq [] [] r t h g = (pos 0, ground arith, ground arith)
strcmp-bytes_eq [] (y ∷ ys) r t h g = (sub_ℕ 0 y, ground arith, ground arith)
strcmp-bytes_eq (x ∷ xs) [] r t h g = (sub_ℕ x 0, ground arith, ground arith)
strcmp-bytes_eq (x ∷ xs) (y ∷ ys) r t h g = elim (Bool-cases (x == y)) [
  | inl e ↦
      let u = strcmp-bytes_eq xs ys r t (ground arith) (ground arith) in
      (u.0, ground (arith, u.1), ground (arith, u.2))
  | inr e ↦ (sub_ℕ x y, ground arith, ground arith)
]

bytes_eq-sym : (xs ys : Bytes) → bytes_eq xs ys ≡ bytes_eq ys xs
bytes_eq-sym [] [] = refl
bytes_eq-sym [] (y ∷ ys) = refl
bytes_eq-sym (x ∷ xs) [] = refl
bytes_eq-sym (x ∷ xs) (y ∷ ys) = ground (arith, bytes_eq-sym xs ys)

get_elem?-slice : (b : Bytes) (o v : ℕ) → slice b o 1 ≡ v ∷ [] → get_elem? b o ≡ some v
get_elem?-slice [] zero v h = ground arith
get_elem?-slice [] (suc o) v h = ground arith
get_elem?-slice (x ∷ b) zero v h = ground arith
get_elem?-slice (x ∷ b) (suc o) v h = get_elem?-slice b o v h

pub dentry_inum_lem :
    (buf : Bytes) (j v : ℕ)
    → length buf ≡ 4096
    → j < 114
    → v < 2 ^ 32
    → slice buf (36 * j + 4) 4 ≡ le_bytes 4 v
    → dentry_inum buf j ≡ some v
dentry_inum_lem buf j v len h w e =
    let inside : ltb (length buf) (36 * j + 8) ≡ false = ground arith in
    rw inside (ap some (ap le_value e ∙ le_value-le_bytes 4 v (omega (arith, w))))

-- The pointer to a name whose field is known.
name_pointer :
    (b : Bytes) (o : ℕ) (xs pad : Bytes)
    → slice b o 27 ≡ terminated xs pad
    → drop o b ≡ terminated xs (pad ++ drop 27 (drop o b))
name_pointer b o xs pad h =
    sym (take-append-drop 27 (drop o b))
    ∙ ap (λ (zs : Bytes). zs ++ drop 27 (drop o b)) h
    ∙ append_assoc xs (0 ∷ pad) (drop 27 (drop o b))

-- A comparison with a string, in the one or the other order of its arguments.
pub record Compares (cmp : Bytes → Option ℤ) (xs : Bytes) : Type 0 where
  pub at :
      (ys r : Bytes)
      → IsString ys
      → (d : ℤ) × (cmp (terminated ys r) ≡ some d) × (is_zero d ≡ bytes_eq ys xs)

pub name-first : (xs t : Bytes) → IsString xs → Compares (λ name. strcmp name (terminated xs t)) xs
name-first xs t h = record { at = λ ys r g. strcmp-bytes_eq ys xs r t g h }

pub path-first : (xs t : Bytes) → IsString xs → Compares (λ name. strcmp (terminated xs t) name) xs
path-first xs t h = record {
  at = λ ys r g. let u = strcmp-bytes_eq xs ys t r h g in (u.0, u.1, u.2 ∙ bytes_eq-sym xs ys);
}

module _ (cmp : Bytes → Option ℤ) (xs : Bytes) (compares : Compares cmp xs) (buf : Bytes)
    (len : length buf ≡ 4096) where
  matches-EntryAt : (j : ℕ) (e : Entry) → EntryAt buf j e → matches cmp buf j ≡ some (has_name xs e)
  unfolding matches
  matches-EntryAt j e a =
      let valid = get_elem?-slice buf (36 * j) e.valid a.valid in
      let pointer = name_pointer buf (36 * j + 8) e.name a.pad a.name in
      let c = compares.at e.name (a.pad ++ drop 27 (drop (36 * j + 8) buf)) a.string in
      let compared : cmp (drop (36 * j + 8) buf) ≡ some c.0 = ap cmp pointer ∙ c.1 in
      elim (Bool-cases (e.valid == 0)) [
        | inl z ↦ rw (valid, z) refl
        | inr nz ↦ rw (valid, nz, compared) (ap some c.2)
      ]

  matches-IsUnused : (j : ℕ) → IsUnused buf j → matches cmp buf j ≡ some false
  unfolding matches
  matches-IsUnused j u = let valid = get_elem?-slice buf (36 * j) 0 u.valid in rw valid refl

  -- The scan of a block that holds a list of entries is the search of the list.
  pub scan-find_name :
      (n j : ℕ) (es : List Entry)
      → IsDir buf j es
      → length es < n
      → j + length es < 114
      → scan cmp buf n j ≡ some (find_name xs j es)
  unfolding scan
  scan-find_name zero j es d h k = absurd (omega arith)
  scan-find_name (suc n) j [] d h k =
      let u = d j (omega arith) (omega (arith, k)) in
      let inum = dentry_inum_lem buf j 0 len (omega (arith, k)) (omega arith) u.inum in
      rw (matches-IsUnused j u, inum) refl
  scan-find_name (suc n) j (e ∷ es) d h k =
      let m = matches-EntryAt j e d.0 in
      let inum = dentry_inum_lem buf j e.inum len (omega (arith, k)) d.0.word d.0.inum in
      let used : (e.inum == 0) ≡ false = ground (arith, d.0.used) in
      let rest = scan-find_name n (j + 1) es d.1 (omega (arith, h)) (omega (arith, k)) in
      elim (Bool-cases (has_name xs e)) [
        | inl y ↦ rw (m, y) refl
        | inr z ↦ rw (m, z, inum, used) rest
      ]
