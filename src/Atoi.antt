-- ===== src/Atoi.antt =====
-- tiny_libc/atoi.c, on a string given by its characters up to the terminating zero.
use ucas_os_kernel.Base.{
  ℕ, ◌+◌, ◌-◌, ◌*◌, Bool, Option, none, some, List, ◌∷◌, [], ◌==◌, leb, ◌&&◌, ◌||◌, if◌then◌else◌,
}
use ucas_os_kernel.Base.Int.{ℤ, pos, sub_ℕ}

-- `isdigit` and `isspace`
unfoldable pub isdigit : ℕ → Bool
isdigit c = leb 48 c && leb c 57

unfoldable pub isspace : ℕ → Bool
isspace c = c == 32 || (leb 9 c && leb c 13)

-- The loop that converts.
unfoldable pub atol_digits : (base ret : ℕ) → List ℕ → ℕ
atol_digits base ret [] = ret
atol_digits base ret (c ∷ str) =
    let digit = atol_digits base (ret * base + (c - 48)) str in
    let lower = atol_digits base (ret * base + (c - 97 + 10)) str in
    let upper = atol_digits base (ret * base + (c - 65 + 10)) str in
    if isdigit c
    then digit
    else if base == 16
    then (if leb 97 c && leb c 102 then lower else if leb 65 c && leb c 70 then upper else 0)
    else 0

-- From the prefix of a hexadecimal number on.
unfoldable pub atol_unsigned : List ℕ → ℕ
atol_unsigned (c ∷ d ∷ str) =
    if c == 48 && (d == 120 || d == 88)
    then atol_digits 16 0 str
    else atol_digits 10 0 (c ∷ d ∷ str)
atol_unsigned (c ∷ []) = atol_digits 10 0 (c ∷ [])
atol_unsigned [] = 0

-- `none` is the loop over blanks, which does not advance. The overflow of a `long` is open in C and
-- not modelled.
unfoldable pub atol : List ℕ → Option ℤ
atol [] = some (pos 0)
atol (c ∷ str) =
    if isspace c
    then none
    else if c == 43
    then some (pos (atol_unsigned str))
    else if c == 45
    then some (sub_ℕ 0 (atol_unsigned str))
    else if isdigit c
    then some (pos (atol_unsigned (c ∷ str)))
    else some (pos 0)
