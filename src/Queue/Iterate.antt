-- ===== src/Queue/Iterate.antt =====
-- Loops over a list whose body may move the node that it is at.
use ucas_os_kernel.Base.{
  ℕ, zero, suc, ◌<◌, ◌≡◌, refl, Bool, true, false, List, [], ◌∷◌, ◌++◌, Option, none, some, arith,
  ◌==◌, has, ap, ◌∙◌, subst, length, if◌then◌else◌, has-append,
}
use ucas_os_kernel.Queue.{Ptr, Links, list_for_each_safe, safe_loop, find_entry}
use ucas_os_kernel.Queue.Chain.{Chain}
use ucas_os_kernel.Queue.Rep.{View, Rep}

-- The first node of a list that ends at `h`.
abbrev pub first : List Ptr → Ptr → Ptr
first [] h = h
first (x ∷ xs) h = x

-- The first node of a list at which a test holds.
abbrev pub find : (Ptr → Bool) → List Ptr → Option Ptr
find test [] = none
find test (x ∷ xs) = if test x then some x else find test xs

pub has-find :
    (test : Ptr → Bool) (xs : List Ptr) (n : Ptr)
    → find test xs ≡ some n
    → (has n xs ≡ true) × (test n ≡ true)
has-find test [] n e = absurd (ground arith)
has-find test (x ∷ xs) n e = ground (arith, has-find test xs n)

pub find_entry-Chain :
    (l : Links) (test : Ptr → Bool) (fuel : ℕ) (a b : Ptr) (xs : List Ptr)
    → Chain l a xs b
    → has b xs ≡ false
    → length xs < fuel
    → find_entry l test fuel (l.next a) b ≡ some (find test xs)
unfolding find_entry
find_entry-Chain l test zero a b xs c o h = absurd (omega arith)
find_entry-Chain l test (suc fuel) a b [] c o h = ground arith
find_entry-Chain l test (suc fuel) a b (x ∷ xs) c o h =
    ground (arith, find_entry-Chain l test fuel x b xs c.2)

next-middle :
    (l : Links) (a b n : Ptr) (pre xs : List Ptr)
    → Chain l a (pre ++ (n ∷ xs)) b
    → l.next n ≡ first xs b
next-middle l a b n [] [] c = c.2.0
next-middle l a b n [] (x ∷ xs) c = c.2.0
next-middle l a b n (p ∷ pre) xs c = next-middle l p b n pre xs c.2

next_start : (l : Links) (a b : Ptr) (xs : List Ptr) → Chain l a xs b → l.next a ≡ first xs b
next_start l a b [] c = c.0
next_start l a b (x ∷ xs) c = c.0

safe_loop-step {ℓ} :
    {S : Type ℓ} (links : S → Links) (body : Ptr → S → Option S) (head : Ptr) (fuel : ℕ) (p r : Ptr)
    (s s' : S)
    → (p == head) ≡ false
    → body p s ≡ some s'
    → safe_loop links body head (suc fuel) p r s
      ≡ safe_loop links body head fuel r ((links s').next r) s'
unfolding safe_loop
safe_loop-step links body head fuel p r s s' e b = ground arith

-- `P s q pre xs` holds when the loop has come to the first node of `xs`, with `pre` before it.
module _ {ℓ} {S : Type ℓ} {is_head : Ptr → Bool} (links : S → Links) (body : Ptr → S → Option S)
    (head : Ptr) (is : is_head head ≡ true) (P : S → View → (pre xs : List Ptr) → Type 0)
    (rep : (s : S) (q : View) (pre xs : List Ptr)
      → P s q pre xs
      → Rep is_head (links s) q × (q head ≡ pre ++ xs))
    (step : (n : Ptr) (s : S) (q : View) (pre xs : List Ptr)
      → P s q pre (n ∷ xs)
      → (s' : S) × (q' : View) × (pre' : List Ptr) × (body n s ≡ some s') × P s' q' pre' xs) where
  safe_loop_lem :
      (fuel : ℕ) (p r : Ptr) (s : S) (q : View) (pre xs : List Ptr)
      → P s q pre xs
      → p ≡ first xs head
      → r ≡ (links s).next p
      → length xs < fuel
      → (s' : S) × (q' : View) × (pre' : List Ptr) × (safe_loop links body head fuel p r s
          ≡ some s')
        × P s' q' pre' []
  unfolding safe_loop
  safe_loop_lem zero p r s q pre xs i ep er h = absurd (omega arith)
  safe_loop_lem (suc fuel) p r s q pre [] i ep er h = (s, q, pre, ground arith, i)
  safe_loop_lem (suc fuel) p r s q pre (x ∷ xs) i ep er h =
      let (all, e) = rep s q pre (x ∷ xs) i in
      let c = subst (λ (ys : List Ptr). Chain (links s) head ys head) e (all.chain head is) in
      let out = subst (λ (ys : List Ptr). has head ys ≡ false) e (all.no_head head head is is) in
      let t = step x s q pre xs i in
      let behind : r ≡ first xs head =
        er ∙ ap (links s).next ep ∙ next-middle (links s) head head x pre xs c in
      let rest =
        safe_loop_lem fuel r ((links t.0).next r) t.0 t.1 t.2 xs t.4 behind refl (omega arith) in
      let inside : (p == head) ≡ false = ground (arith, has-append head pre (x ∷ xs)) in
      let ran : body p s ≡ some t.0 = rw ep t.3 in
      (
        rest.0,
        rest.1,
        rest.2,
        safe_loop-step links body head fuel p r s t.0 inside ran ∙ rest.3,
        rest.4,
      )

  -- The loop ends without a fault, behind the last node, given fuel for each node.
  pub list_for_each_safe_lem :
      (fuel : ℕ) (s : S) (q : View)
      → P s q [] (q head)
      → length (q head) < fuel
      → (s' : S) × (q' : View) × (pre' : List Ptr) × (list_for_each_safe links body head fuel s
          ≡ some s')
        × P s' q' pre' []
  unfolding list_for_each_safe
  list_for_each_safe_lem fuel s q i h =
      safe_loop_lem fuel _ _ s q [] (q head) i
        (next_start (links s) head head (q head) ((rep s q [] (q head) i).0.chain head is)) refl h
