-- ===== src/Base/Nodes.antt =====
-- Maps from addresses, and lists of addresses with a Boolean membership test.
use Prim.Native.Nat.{ℕ, suc, ◌≤◌}
use mathlib.Core.Path.{◌≡◌, refl, ap}
use mathlib.Core.Logic.{inl, inr}
use mathlib.Core.Bool.{Bool, true, false, not, ◌&&◌, ◌||◌}
use mathlib.Core.List.{List, [], ◌∷◌, ◌++◌}
use native.Mathlib.Omega.{arith}
use ucas_os_kernel.Base.Tests.{Bool-cases, ◌==◌, if◌then◌else◌}
use ucas_os_kernel.Base.Lists.{length}

-- A map changed at one address.
abbrev pub upd {ℓ} : {A : Type ℓ} → (ℕ → A) → ℕ → A → ℕ → A
upd f a v b = if b == a then v else f b

abbrev pub is_nil {ℓ} : {A : Type ℓ} → List A → Bool
is_nil [] = true
is_nil (x ∷ xs) = false

abbrev pub has : ℕ → List ℕ → Bool
has a [] = false
has a (x ∷ xs) = (a == x) || has a xs

abbrev pub distinct : List ℕ → Bool
distinct [] = true
distinct (x ∷ xs) = not (has x xs) && distinct xs

-- The list without the first occurrence of `a`.
abbrev pub remove : ℕ → List ℕ → List ℕ
remove a [] = []
remove a (x ∷ xs) = if a == x then xs else x ∷ remove a xs

-- The elements at which a test holds, in order.
abbrev pub keep {ℓ} : {A : Type ℓ} → (A → Bool) → List A → List A
keep test [] = []
keep test (x ∷ xs) = if test x then x ∷ keep test xs else keep test xs

pub has-append : (a : ℕ) (xs ys : List ℕ) → has a (xs ++ ys) ≡ (has a xs || has a ys)
has-append a [] ys = refl
has-append a (x ∷ xs) ys = ground (arith, has-append a xs ys)

pub distinct-append_one :
    (xs : List ℕ) (n : ℕ) → distinct xs ≡ true → has n xs ≡ false → distinct (xs ++ (n ∷ [])) ≡ true
distinct-append_one [] n d h = refl
distinct-append_one (x ∷ xs) n d h =
    ground (arith, distinct-append_one xs n, has-append x xs (n ∷ []))

pub has-remove_ne : (a n : ℕ) (xs : List ℕ) → has a (remove n xs) ≡ true → has a xs ≡ true
has-remove_ne a n [] h = h
has-remove_ne a n (x ∷ xs) h = ground (arith, has-remove_ne a n xs)

pub has-remove_self : (n : ℕ) (xs : List ℕ) → distinct xs ≡ true → has n (remove n xs) ≡ false
has-remove_self n [] d = refl
has-remove_self n (x ∷ xs) d = ground (arith, has-remove_self n xs)

pub distinct-remove : (n : ℕ) (xs : List ℕ) → distinct xs ≡ true → distinct (remove n xs) ≡ true
distinct-remove n [] d = d
distinct-remove n (x ∷ xs) d = ground (arith, distinct-remove n xs, has-remove_ne x n xs)

pub remove_middle :
    (n : ℕ) (pre xs : List ℕ)
    → distinct (pre ++ (n ∷ xs)) ≡ true
    → remove n (pre ++ (n ∷ xs)) ≡ pre ++ xs
remove_middle n [] xs d = ground arith
remove_middle n (x ∷ pre) xs d = ground (arith, remove_middle n pre xs, has-append x pre (n ∷ xs))

pub has_middle : (n : ℕ) (pre xs : List ℕ) → has n (pre ++ (n ∷ xs)) ≡ true
has_middle n pre xs = ground (arith, has-append n pre (n ∷ xs))

length-remove_self :
    (x : ℕ) (us : List ℕ) → has x us ≡ true → length us ≡ suc (length (remove x us))
length-remove_self x [] h = absurd (ground arith)
length-remove_self x (u ∷ us) h = ground (arith, length-remove_self x us)

has-remove_other :
    (n x : ℕ) (us : List ℕ) → has n us ≡ true → (n == x) ≡ false → has n (remove x us) ≡ true
has-remove_other n x [] h e = h
has-remove_other n x (u ∷ us) h e = ground (arith, has-remove_other n x us)

-- Distinct members of a list are no more than it has places.
pub length-le_distinct :
    (xs us : List ℕ)
    → distinct xs ≡ true
    → ((n : ℕ) → has n xs ≡ true → has n us ≡ true)
    → length xs ≤ length us
length-le_distinct [] us d s = omega arith
length-le_distinct (x ∷ xs) us d s =
    let i : has x us ≡ true = s x (ground arith) in
    ground (
      arith,
      length-remove_self x us i,
      length-le_distinct xs (remove x us) (ground arith)
          (λ n h. has-remove_other n x us (s n (ground arith)) (ground arith)),
    )

pub has-keep :
    (test : ℕ → Bool) (xs : List ℕ) (n : ℕ)
    → has n (keep test xs) ≡ true
    → (has n xs ≡ true) × (test n ≡ true)
has-keep test [] n h = absurd (ground arith)
has-keep test (x ∷ xs) n h = elim (Bool-cases (test x)) [
  | inl t ↦ elim (Bool-cases (n == x)) [
    | inl e ↦ let is : n ≡ x = ground arith in (ground arith, rw is t)
    | inr e ↦ let r = has-keep test xs n (ground arith) in (ground arith, r.1)
  ]
  | inr t ↦ let r = has-keep test xs n (ground arith) in (ground arith, r.1)
]

pub keep-has :
    (test : ℕ → Bool) (xs : List ℕ) (n : ℕ)
    → has n xs ≡ true
    → test n ≡ true
    → has n (keep test xs) ≡ true
keep-has test [] n h t = h
keep-has test (x ∷ xs) n h t = elim (Bool-cases (x == n)) [
  | inl e ↦ let same : x ≡ n = ground arith in let hit : test x ≡ true = rw same t in ground arith
  | inr e ↦ ground (arith, keep-has test xs n)
]

pub keep-all : (xs : List ℕ) → keep (λ n. true) xs ≡ xs
keep-all [] = refl
keep-all (x ∷ xs) = ap (λ ys. x ∷ ys) (keep-all xs)

pub keep-none : (xs : List ℕ) → keep (λ n. not true) xs ≡ []
keep-none [] = refl
keep-none (x ∷ xs) = keep-none xs
