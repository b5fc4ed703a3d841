-- ===== src/Queue/Chain.antt =====
-- A stretch of a doubly linked list, and what insertion and deletion do to it.
use ucas_os_kernel.Base.{
  ℕ, zero, suc, ◌<◌, ◌≡◌, ◌≢◌, true, false, ◌||◌, List, [], ◌∷◌, ◌++◌, inl, inr, some, arith, ◌==◌,
  has, distinct, remove, length, Bool-cases,
}
use ucas_os_kernel.Queue.{Ptr, Links, list_add_tail, list_delete_entry, list_for_each}

-- From `a` the `next` pointers lead through `xs` to `b`, and the `prev` pointers back.
abbrev pub Chain : Links → Ptr → List Ptr → Ptr → Type 0
Chain l a [] b = (l.next a ≡ b) × (l.prev b ≡ a)
Chain l a (x ∷ xs) b = (l.next a ≡ x) × (l.prev x ≡ a) × Chain l x xs b

-- A chain depends on the `next` fields of all but its end, and the `prev` fields of all but its
-- start.
pub frame :
    (l m : Links) (a b : Ptr) (xs : List Ptr)
    → ((n : Ptr) → has n (a ∷ xs) ≡ true → m.next n ≡ l.next n)
    → ((n : Ptr) → ((n == b) || has n xs) ≡ true → m.prev n ≡ l.prev n)
    → Chain l a xs b
    → Chain m a xs b
frame l m a b [] fn fp c = ground (arith, fn a, fp b)
frame l m a b (x ∷ xs) fn fp c = (
  ground (arith, fn a),
  ground (arith, fp x),
  frame l m x b xs (λ n h. ground (arith, fn n)) (λ n h. ground (arith, fp n)) c.2,
)

-- The node before the end lies in the chain.
pub has-prev_end :
    (l : Links) (a b : Ptr) (xs : List Ptr) → Chain l a xs b → has (l.prev b) (a ∷ xs) ≡ true
has-prev_end l a b [] c = ground arith
has-prev_end l a b (x ∷ xs) c = ground (arith, has-prev_end l x b xs c.2)

-- The node before a node of the chain lies in it, and so does the node behind.
pub has-prev :
    (l : Links) (a b n : Ptr) (xs : List Ptr)
    → Chain l a xs b
    → has n xs ≡ true
    → has (l.prev n) (a ∷ xs) ≡ true
has-prev l a b n [] c h = ground arith
has-prev l a b n (x ∷ xs) c h = ground (arith, has-prev l x b n xs c.2)

pub has-next :
    (l : Links) (a b n : Ptr) (xs : List Ptr)
    → Chain l a xs b
    → has n (a ∷ xs) ≡ true
    → ((l.next n == b) || has (l.next n) xs) ≡ true
has-next l a b n [] c h = ground arith
has-next l a b n (x ∷ xs) c h = ground (arith, has-next l x b n xs c.2)

pub insert-Chain :
    (l : Links) (a b n : Ptr) (xs : List Ptr)
    → Chain l a xs b
    → distinct (a ∷ xs) ≡ true
    → has n (a ∷ xs) ≡ false
    → has b xs ≡ false
    → n ≢ b
    → Chain (list_add_tail l n b) a (xs ++ (n ∷ [])) b
unfolding list_add_tail
insert-Chain l a b n [] c d f o ne = ground arith
insert-Chain l a b n (x ∷ xs) c d f o ne = (
  ground (arith, has-prev_end l x b xs c.2),
  ground arith,
  insert-Chain l x b n xs c.2 (ground arith) (ground arith) (ground arith) ne,
)

delete-head :
    (l : Links) (a b n : Ptr) (xs : List Ptr)
    → Chain l a (n ∷ xs) b
    → distinct (a ∷ n ∷ xs) ≡ true
    → has b (n ∷ xs) ≡ false
    → Chain (list_delete_entry l n) a xs b
unfolding list_delete_entry
delete-head l a b n [] c d o = ground arith
delete-head l a b n (y ∷ ys) c d o = (
  ground arith,
  ground arith,
  frame l (list_delete_entry l n) y b ys (λ m h. ground arith) (λ m h. ground arith) c.2.2,
)

delete-later :
    (l : Links) (a b n x : Ptr) (xs : List Ptr)
    → Chain l a (x ∷ xs) b
    → distinct (a ∷ x ∷ xs) ≡ true
    → has n xs ≡ true
    → has b (x ∷ xs) ≡ false
    → n ≢ x
    → Chain (list_delete_entry l n) x (remove n xs) b
    → Chain (list_delete_entry l n) a (x ∷ remove n xs) b
unfolding list_delete_entry
delete-later l a b n x xs c d h o ne rest = (
  ground (arith, has-prev l x b n xs c.2, has-next l x b n xs c.2),
  ground (arith, has-prev l x b n xs c.2, has-next l x b n xs c.2),
  rest,
)

pub delete-Chain :
    (l : Links) (a b n : Ptr) (xs : List Ptr)
    → Chain l a xs b
    → distinct (a ∷ xs) ≡ true
    → has n xs ≡ true
    → has b xs ≡ false
    → Chain (list_delete_entry l n) a (remove n xs) b
delete-Chain l a b n [] c d h o = absurd (ground arith)
delete-Chain l a b n (x ∷ xs) c d h o = elim (Bool-cases (n == x)) [
  | inl e ↦ rw e (let same : n ≡ x = ground arith in rw same (delete-head l a b x xs c d o))
  | inr e ↦ rw e (
      delete-later l a b n x xs c d (ground arith) o (ground arith)
        (delete-Chain l x b n xs c.2 (ground arith) (ground arith) (ground arith)))
]

-- Following `next` from the first node visits the chain in order, within its length.
pub list_for_each-Chain :
    (l : Links) (a b : Ptr) (xs : List Ptr) (fuel : ℕ)
    → Chain l a xs b
    → has b xs ≡ false
    → length xs < fuel
    → list_for_each l fuel (l.next a) b ≡ some xs
unfolding list_for_each
list_for_each-Chain l a b xs zero c o h = absurd (omega arith)
list_for_each-Chain l a b [] (suc fuel) c o h = ground arith
list_for_each-Chain l a b (x ∷ xs) (suc fuel) c o h =
    ground (arith, list_for_each-Chain l x b xs fuel c.2)
