-- ===== src/Base/Loops.antt =====
-- Fallible steps, and the search `for (i = 0; i < n; i++) if (test) break;`.
use Prim.Native.Nat.{ℕ, zero, suc, ◌+◌, ◌≤◌, ◌<◌}
use mathlib.Core.Path.{◌≡◌}
use mathlib.Core.Logic.{inl, inr}
use mathlib.Core.Bool.{Bool, true, false}
use mathlib.Core.Option.{Option, none, some}
use native.Mathlib.Omega.{arith}
use ucas_os_kernel.Base.Tests.{Bool-cases, ◌==◌}

-- `none` is a fault: a failed assertion, a null pointer followed, or fuel run out.
infixl 5 ◌>>=◌ ◌>>◌
abbrev pub ◌>>=◌ {ℓ κ} : {A : Type ℓ} {B : Type κ} → Option A → (A → Option B) → Option B
none >>= f = none
some a >>= f = f a

abbrev pub ◌>>◌ {ℓ} : {B : Type ℓ} → Option (Unit {0}) → Option B → Option B
m >> k = m >>= λ _. k

-- The first index from `i` on, within `n` rounds, at which the test holds.
unfoldable pub find_index : (n i : ℕ) → (ℕ → Bool) → Option ℕ
find_index zero i test = none
find_index (suc n) i test = elim (test i) [ true ↦ some i | false ↦ find_index n (i + 1) test ]

pub record IsFirst (n i : ℕ) (test : ℕ → Bool) (j : ℕ) : Type 0 where
  pub from : i ≤ j
  pub below : j < i + n
  pub holds : test j ≡ true
  pub earlier : (k : ℕ) → i ≤ k → k < j → test k ≡ false

pub find_index-some :
    (n i : ℕ) (test : ℕ → Bool) (j : ℕ) → find_index n i test ≡ some j → IsFirst n i test j
unfolding find_index
find_index-some zero i test j e = absurd (ground arith)
find_index-some (suc n) i test j e = elim (Bool-cases (test i)) [
  | inl t ↦
      let same : i ≡ j = ground arith in
      rw (← same) (record {
        from = omega arith;
        below = omega arith;
        holds = t;
        earlier = λ k p q. absurd (omega arith);
      })
  | inr f ↦
      let r = find_index-some n (i + 1) test j (ground arith) in
      record {
        from = omega (arith, r.from);
        below = omega (arith, r.below);
        holds = r.holds;
        earlier = λ k p q. ground (arith, r.earlier k, f);
      }
]

pub find_index-none :
    (n i : ℕ) (test : ℕ → Bool)
    → find_index n i test ≡ none
    → (k : ℕ) → i ≤ k
    → k < i + n
    → test k ≡ false
unfolding find_index
find_index-none zero i test e k h g = absurd (omega arith)
find_index-none (suc n) i test e k h g =
    ground (arith, find_index-none n (i + 1) test, find_index-none n (i + 1) test (ground arith) k)

-- The first hit is found.
pub find_index_hit :
    (n i : ℕ) (test : ℕ → Bool) (j : ℕ) → IsFirst n i test j → find_index n i test ≡ some j
unfolding find_index
find_index_hit zero i test j f = absurd (omega arith)
find_index_hit (suc n) i test j f = elim (Bool-cases (i == j)) [
  | inl e ↦ ground (arith, f.holds)
  | inr ne ↦
      let ahead : i < j = ground (arith, f.from) in
      let miss : test i ≡ false = f.earlier i (omega arith) ahead in
      rw (miss, find_index)
        (find_index_hit n (i + 1) test j (record {
          from = omega arith;
          below = omega (arith, f.below);
          holds = f.holds;
          earlier = λ k p q. f.earlier k (omega arith) q;
        }))
]
