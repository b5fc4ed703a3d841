-- ===== src/Queue/Rep.antt =====
-- All lists of the memory at once: what each list head stands for, with no node in two lists.
use ucas_os_kernel.Base.{
  ℕ, ◌<◌, ◌≡◌, ◌≢◌, Bool, true, false, List, [], ◌∷◌, ◌++◌, inl, inr, some, arith, ◌==◌, upd, has,
  is_nil, subst, distinct, remove, length, Bool-cases, has-append, distinct-append_one,
  has-remove_ne, has-remove_self, distinct-remove,
}
use ucas_os_kernel.Queue.{
  Ptr, Links, list_add_tail, list_delete_entry, list_for_each, is_queue_empty,
}
use ucas_os_kernel.Queue.Chain.{
  Chain, frame, has-prev_end, has-prev, has-next, insert-Chain, delete-Chain, list_for_each-Chain,
}

-- The list that each head stands for.
abbrev pub View : Type 0
View = Ptr → List Ptr

pub record Rep (is_head : Ptr → Bool) (l : Links) (q : View) : Type 0 where
  pub chain : (h : Ptr) → is_head h ≡ true → Chain l h (q h) h
  pub no_dup : (h : Ptr) → is_head h ≡ true → distinct (q h) ≡ true
  pub no_head : (h k : Ptr) → is_head h ≡ true → is_head k ≡ true → has k (q h) ≡ false
  pub apart :
      (h k n : Ptr)
      → is_head h ≡ true
      → is_head k ≡ true
      → has n (q h) ≡ true
      → has n (q k) ≡ true
      → h ≡ k

-- A node in no list.
abbrev pub IsFree : (Ptr → Bool) → View → Ptr → Type 0
IsFree is_head q n = (is_head n ≡ false) × ((h : Ptr) → is_head h ≡ true → has n (q h) ≡ false)

abbrev pub appended : View → Ptr → Ptr → View
appended q n h = upd q h (q h ++ (n ∷ []))

abbrev pub removed : View → Ptr → Ptr → View
removed q n h = upd q h (remove n (q h))

-- What `list_delete_entry` and then `list_add_tail` make of the lists.
abbrev pub moved : View → Ptr → Ptr → Ptr → View
moved q n from to = appended (removed q n from) n to

is_queue_empty-Chain :
    (l : Links) (h : Ptr) (xs : List Ptr)
    → Chain l h xs h
    → has h xs ≡ false
    → is_queue_empty l h ≡ is_nil xs
unfolding is_queue_empty
is_queue_empty-Chain l h [] c o = ground arith
is_queue_empty-Chain l h (x ∷ xs) c o = ground arith

module _ {is_head : Ptr → Bool} {l : Links} {q : View} (r : Rep is_head l q) where
  -- The emptiness test.
  pub is_queue_empty-Rep : (h : Ptr) → is_head h ≡ true → is_queue_empty l h ≡ is_nil (q h)
  is_queue_empty-Rep h eh = is_queue_empty-Chain l h (q h) (r.chain h eh) (r.no_head h h eh eh)

  -- The first node.
  pub next-Rep : (h x : Ptr) (xs : List Ptr) → is_head h ≡ true → q h ≡ x ∷ xs → l.next h ≡ x
  next-Rep h x xs eh e = (subst (λ (ys : List Ptr). Chain l h ys h) e (r.chain h eh)).0

  -- With more fuel than the list has nodes, list_for_each_entry ends and visits the nodes of the
  -- list in order.
  pub list_for_each-Rep :
      (h : Ptr) (fuel : ℕ)
      → is_head h ≡ true
      → length (q h) < fuel
      → list_for_each l fuel (l.next h) h ≡ some (q h)
  list_for_each-Rep h fuel eh m =
      list_for_each-Chain l h h (q h) fuel (r.chain h eh) (r.no_head h h eh eh) m

  add_tail-other :
      (n h k : Ptr)
      → is_head h ≡ true
      → is_head k ≡ true
      → IsFree is_head q n
      → k ≢ h
      → Chain (list_add_tail l n h) k (q k) k
  unfolding list_add_tail
  add_tail-other n h k eh ek f ne =
      frame l (list_add_tail l n h) k k (q k)
        (λ m hm. ground (
          arith,
          r.no_head k h ek eh,
          r.no_head h k eh ek,
          r.apart h k m eh ek,
          has-prev_end l h h (q h) (r.chain h eh),
          f.0,
          f.1 k ek,
        ))
        (λ m hm. ground (arith, r.no_head k h ek eh, f.0, f.1 k ek)) (r.chain k ek)

  -- list_add_tail of a node that is in no list and is no head appends it to the list of the
  -- head, and changes no other list.
  pub add_tail-Rep :
      (n h : Ptr)
      → is_head h ≡ true
      → IsFree is_head q n
      → Rep is_head (list_add_tail l n h) (appended q n h)
  add_tail-Rep n h eh f = record {
    chain = λ k ek. elim (Bool-cases (k == h)) [
      | inl e ↦ rw e (
          let same : k ≡ h = ground arith in
          rw same (
            insert-Chain l h h n (q h) (r.chain h eh)
              (ground (arith, r.no_head h h eh eh, r.no_dup h eh)) (ground (arith, f.0, f.1 h eh))
              (r.no_head h h eh eh) (ground (arith, f.0))))
      | inr e ↦ rw e (add_tail-other n h k eh ek f (ground arith))
    ];
    no_dup =
        λ k ek. ground (arith, r.no_dup k ek, r.no_dup h eh, f.1 h eh, distinct-append_one (q h) n);
    no_head = λ k j ek ej.
        ground (arith, r.no_head k j ek ej, r.no_head h j eh ej, has-append j (q h) (n ∷ []), f.0);
    apart = λ j k m ej ek mj mk. ground (
      arith,
      r.apart j k m ej ek,
      r.apart h k m eh ek,
      r.apart j h m ej eh,
      has-append m (q h) (n ∷ []),
      f.1 k ek,
      f.1 j ej,
    );
  }

  delete-other :
      (n h k : Ptr)
      → is_head h ≡ true
      → is_head k ≡ true
      → has n (q h) ≡ true
      → k ≢ h
      → Chain (list_delete_entry l n) k (q k) k
  unfolding list_delete_entry
  delete-other n h k eh ek i ne =
      frame l (list_delete_entry l n) k k (q k)
        (λ m hm. ground (
          arith,
          r.no_head k h ek eh,
          r.no_head h k eh ek,
          r.apart h k m eh ek,
          has-prev l h h n (q h) (r.chain h eh) i,
        ))
        (λ m hm. ground (
          arith,
          r.no_head k h ek eh,
          r.no_head h k eh ek,
          r.apart h k m eh ek,
          has-next l h h n (q h) (r.chain h eh),
        ))
        (r.chain k ek)

  -- list_delete_entry of a node in the list of a head removes it, keeps the order of the others,
  -- and changes no other list.
  pub delete-Rep :
      (n h : Ptr)
      → is_head h ≡ true
      → has n (q h) ≡ true
      → Rep is_head (list_delete_entry l n) (removed q n h)
  delete-Rep n h eh i = record {
    chain = λ k ek. elim (Bool-cases (k == h)) [
      | inl e ↦ rw e (
          let same : k ≡ h = ground arith in
          rw same (
            delete-Chain l h h n (q h) (r.chain h eh)
              (ground (arith, r.no_head h h eh eh, r.no_dup h eh)) i (r.no_head h h eh eh)))
      | inr e ↦ rw e (delete-other n h k eh ek i (ground arith))
    ];
    no_dup = λ k ek. ground (arith, r.no_dup k ek, r.no_dup h eh, distinct-remove n (q h));
    no_head = λ k j ek ej.
        ground (arith, r.no_head k j ek ej, r.no_head h j eh ej, has-remove_ne j n (q h));
    apart = λ j k m ej ek mj mk. ground (
      arith,
      r.apart j k m ej ek,
      r.apart h k m eh ek,
      r.apart j h m ej eh,
      has-remove_ne m n (q h),
    );
  }

  -- The deleted node is free.
  pub IsFree-removed :
      (n h : Ptr) → is_head h ≡ true → has n (q h) ≡ true → IsFree is_head (removed q n h) n
  IsFree-removed n h eh i = (
    ground (arith, Bool-cases (is_head n), r.no_head h n eh),
    λ k ek. ground (
      arith,
      Bool-cases (has n (q k)),
      r.apart h k n eh ek,
      r.no_dup h eh,
      has-remove_self n (q h),
    ),
  )

-- Deleting a node from one list and appending it to another, or the same, keeps all lists of the
-- memory well-formed and disjoint: the node goes to the end of the target and every other list
-- stays.
pub move-Rep :
    {is_head : Ptr → Bool} {l : Links} {q : View} (n from to : Ptr)
    → Rep is_head l q
    → is_head from ≡ true
    → is_head to ≡ true
    → has n (q from) ≡ true
    → Rep is_head (list_add_tail (list_delete_entry l n) n to) (moved q n from to)
move-Rep n from to r ef et i =
    add_tail-Rep (delete-Rep r n from ef i) n to et (IsFree-removed r n from ef i)

module _ (q : View) (n from to : Ptr) where
  pub moved-to : from ≢ to → moved q n from to to ≡ q to ++ (n ∷ [])
  moved-to ne = ground arith

  pub moved-from : from ≢ to → moved q n from to from ≡ remove n (q from)
  moved-from ne = ground arith

  pub moved-other : (h : Ptr) → h ≢ from → h ≢ to → moved q n from to h ≡ q h
  moved-other h nf nt = ground arith
