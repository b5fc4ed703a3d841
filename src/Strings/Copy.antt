-- ===== src/Strings/Copy.antt =====
-- `memcpy`, `memset`, `strcpy`, `strncpy` and `strcat`.
use ucas_os_kernel.Base.{
  ℕ, zero, suc, ◌+◌, ◌<◌, ◌≤◌, ◌≡◌, refl, false, [], ◌∷◌, ◌++◌, some, arith, ◌∙◌, length, ◌==◌,
  take, drop, replicate,
}
use ucas_os_kernel.Base.Int.{pos}
use ucas_os_kernel.Strings.{Bytes, memcpy, memset, strcpy, strncpy, strcat, strcmp}
use ucas_os_kernel.Strings.Compare.{terminated, IsString, strcmp_same}

pub memcpy_lem :
    (dest src : Bytes) (len : ℕ)
    → len ≤ length dest
    → len ≤ length src
    → memcpy dest src len ≡ some (take len src ++ drop len dest)
unfolding memcpy
memcpy_lem dest src zero h g = refl
memcpy_lem [] src (suc len) h g = absurd (omega arith)
memcpy_lem (d ∷ dest) [] (suc len) h g = absurd (omega arith)
memcpy_lem (d ∷ dest) (c ∷ src) (suc len) h g =
    rw (memcpy_lem dest src len (omega arith) (omega arith))

pub memset_lem :
    (dest : Bytes) (val len : ℕ)
    → len ≤ length dest
    → memset dest val len ≡ some (replicate len val ++ drop len dest)
unfolding memset
memset_lem dest val zero h = refl
memset_lem [] val (suc len) h = absurd (omega arith)
memset_lem (d ∷ dest) val (suc len) h = rw (memset_lem dest val len (omega arith))

pub strcpy_lem :
    (dest xs rest : Bytes)
    → IsString xs
    → length xs < length dest
    → strcpy dest (terminated xs rest) ≡ some (terminated xs (drop (length xs + 1) dest))
unfolding strcpy
strcpy_lem [] xs rest h g = absurd (omega arith)
strcpy_lem (d ∷ dest) [] rest h g = ground arith
strcpy_lem (d ∷ dest) (x ∷ xs) rest h g =
    let ne : (x == 0) ≡ false = ground arith in
    let more : length xs + 1 ≡ suc (length xs) = omega arith in
    let next : suc (length xs) + 1 ≡ suc (suc (length xs)) = omega arith in
    rw (ne, next, strcpy_lem dest xs rest (ground arith) (omega arith), more)

pub strncpy_lem :
    (dest xs rest : Bytes) (n : ℕ)
    → IsString xs
    → length xs < n
    → n ≤ length dest
    → (pad : ℕ) × (length xs + pad ≡ n)
      × (strncpy dest (terminated xs rest) n ≡ some (xs ++ (replicate pad 0 ++ drop n dest)))
unfolding strncpy
strncpy_lem dest [] rest zero h g k = absurd (omega arith)
strncpy_lem [] [] rest (suc n) h g k = absurd (omega arith)
strncpy_lem (d ∷ dest) [] rest (suc n) h g k =
    (suc n, omega arith, memset_lem (d ∷ dest) 0 (suc n) k)
strncpy_lem dest (x ∷ xs) rest zero h g k = absurd (omega arith)
strncpy_lem [] (x ∷ xs) rest (suc n) h g k = absurd (omega arith)
strncpy_lem (d ∷ dest) (x ∷ xs) rest (suc n) h g k =
    let ne : (x == 0) ≡ false = ground arith in
    let r = strncpy_lem dest xs rest n (ground arith) (omega arith) (omega arith) in
    (r.0, omega (arith, r.1), rw (ne, r.2))

-- strcat of two strings, with room for the second behind the first, stays within the buffer and
-- leaves the two joined and terminated, and the rest of the buffer as it was.
pub strcat_lem :
    (xs ys room rest : Bytes)
    → IsString xs
    → IsString ys
    → length ys ≤ length room
    → strcat (terminated xs room) (terminated ys rest)
      ≡ some (terminated (xs ++ ys) (drop (length ys) room))
unfolding strcat
strcat_lem [] ys room rest h g k =
    let next : length ys + 1 ≡ suc (length ys) = omega arith in
    strcpy_lem (0 ∷ room) ys rest g (omega arith) ∙ rw next refl
strcat_lem (x ∷ xs) ys room rest h g k =
    let ne : (x == 0) ≡ false = ground arith in
    rw (ne, strcat_lem xs ys room rest (ground arith) g k)

-- strcpy of a string into a buffer that is longer than it stays within the buffer, and the copy
-- compares as equal.
pub strcmp-strcpy :
    (dest xs rest : Bytes)
    → IsString xs
    → length xs < length dest
    → (copy : Bytes) × (strcpy dest (terminated xs rest) ≡ some copy)
      × (strcmp copy (terminated xs rest) ≡ some (pos 0))
strcmp-strcpy dest xs rest h g = (
  terminated xs (drop (length xs + 1) dest),
  strcpy_lem dest xs rest h g,
  strcmp_same xs (drop (length xs + 1) dest) rest h,
)
