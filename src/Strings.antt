-- ===== src/Strings.antt =====
-- libs/string.c on buffers: a pointer is the list of the bytes from it to the end of its buffer, and
-- `none` is a read or a write behind the end. What a function writes, it returns.
pub mod Compare
pub mod Copy
use ucas_os_kernel.Base.{
  ℕ, zero, suc, ◌+◌, ◌≡◌, Bool, ◌||◌, List, [], ◌∷◌, ◌++◌, Option, none, some, ◌>>=◌, ◌==◌,
  if◌then◌else◌,
}
use ucas_os_kernel.Base.Int.{ℤ, sub_ℕ}
pub use ucas_os_kernel.Base.Bytes.{Bytes}

unfoldable pub memcpy : (dest src : Bytes) → (len : ℕ) → Option Bytes
memcpy dest src zero = some dest
memcpy [] src (suc len) = none
memcpy (d ∷ dest) [] (suc len) = none
memcpy (d ∷ dest) (c ∷ src) (suc len) = do rest ← memcpy dest src len; some (c ∷ rest)

unfoldable pub memset : (dest : Bytes) → (val len : ℕ) → Option Bytes
memset dest val zero = some dest
memset [] val (suc len) = none
memset (d ∷ dest) val (suc len) = do rest ← memset dest val len; some (val ∷ rest)

abbrev pub bzero : Bytes → ℕ → Option Bytes
bzero dest len = memset dest 0 len

-- The loop of `strlen` at index `i`.
unfoldable pub strlen_from : (i : ℕ) → Bytes → Option ℕ
strlen_from i [] = none
strlen_from i (c ∷ src) = let rest = strlen_from (i + 1) src in if c == 0 then some i else rest

abbrev pub strlen : Bytes → Option ℕ
strlen src = strlen_from 0 src

unfoldable pub strcmp : (str1 str2 : Bytes) → Option ℤ
strcmp [] str2 = none
strcmp (a ∷ str1) [] = none
strcmp (a ∷ str1) (b ∷ str2) =
    let rest = strcmp str1 str2 in
    if (a == 0) || (b == 0) then some (sub_ℕ a b) else if a == b then rest else some (sub_ℕ a b)

unfoldable pub strncmp : (str1 str2 : Bytes) → (n : ℕ) → Option ℤ
strncmp [] str2 n = none
strncmp (a ∷ str1) [] n = none
strncmp (a ∷ str1) (b ∷ str2) zero = some (sub_ℕ a b)
strncmp (a ∷ str1) (b ∷ str2) (suc n) =
    let rest = strncmp str1 str2 n in
    if (a == 0) || (b == 0) then some (sub_ℕ a b) else if a == b then rest else some (sub_ℕ a b)

unfoldable pub strcpy : (dest src : Bytes) → Option Bytes
strcpy dest [] = none
strcpy [] (c ∷ src) = none
strcpy (d ∷ dest) (c ∷ src) =
    let rest = strcpy dest src in
    if c == 0 then some (0 ∷ dest) else do more ← rest; some (c ∷ more)

-- `while (n-- > 0) *dest++ = '\0'`, and the whole of `strncpy`. The first loop ends on `n` or on the
-- end of the string, and only in the latter case leaves `n` for the second.
unfoldable pub strncpy : (dest src : Bytes) → (n : ℕ) → Option Bytes
strncpy dest [] n = none
strncpy dest (c ∷ src) zero = some dest
strncpy [] (c ∷ src) (suc n) = if c == 0 then memset [] 0 (suc n) else none
strncpy (d ∷ dest) (c ∷ src) (suc n) =
    let rest = strncpy dest src n in
    if c == 0 then memset (d ∷ dest) 0 (suc n) else do more ← rest; some (c ∷ more)

unfoldable pub strcat : (dest src : Bytes) → Option Bytes
strcat [] src = none
strcat (d ∷ dest) src =
    let rest = strcat dest src in
    if d == 0 then strcpy (d ∷ dest) src else do more ← rest; some (d ∷ more)
