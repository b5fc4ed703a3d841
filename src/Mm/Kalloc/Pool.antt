-- ===== src/Mm/Kalloc/Pool.antt =====
-- What is free: the pages on the list, and all pages from the frontier on.
use ucas_os_kernel.Base.{
  ℕ, ◌+◌, ◌%◌, ◌<◌, ◌≤◌, ◌≡◌, refl, ◌≢◌, inl, inr, Bool, true, false, ◌||◌, ◌==◌, List, [], ◌∷◌,
  arith, leb, ltb, upd, has, distinct, Bool-cases,
}
use native.Mathlib.Nat.{mod-eq_of_lt}
use ucas_os_kernel.Mm.Pgtable.{word, page_size}
use ucas_os_kernel.Mm.State.{Mem, zero_range, Mm}
use ucas_os_kernel.Mm.Kalloc.{freemem_kernel, init_kernel_freemem, kalloc, kfree}

-- From `page` the first words lead through the pages `xs` to the frontier, whose first word is 0.
abbrev pub FreeChain : Mem → ℕ → List ℕ → ℕ → Type 0
FreeChain mem page [] frontier = (page ≡ frontier) × (mem page ≡ 0)
FreeChain mem page (x ∷ xs) frontier = (page ≡ x) × (mem x ≢ 0) × FreeChain mem (mem x) xs frontier

-- A page of the pool that has been used: aligned, and between the first page and the frontier.
abbrev pub IsUsedPage : ℕ → ℕ → Type 0
IsUsedPage frontier p = (freemem_kernel ≤ p) × (p + page_size ≤ frontier) × (p % page_size ≡ 0)

abbrev pub AllUsed : ℕ → List ℕ → Type 0
AllUsed frontier [] = Unit
AllUsed frontier (x ∷ xs) = IsUsedPage frontier x × AllUsed frontier xs

pub record IsPool {Disk : Type 0} (m : Mm Disk) (free : List ℕ) (frontier : ℕ) : Type 0 where
  pub chain : FreeChain m.mem m.freemem_list free frontier
  pub used : AllUsed frontier free
  pub no_dup : distinct free ≡ true
  pub low : freemem_kernel ≤ frontier
  pub high : frontier < word
  pub aligned : frontier % page_size ≡ 0

-- Whether a page is free.
abbrev pub is_free : List ℕ → ℕ → ℕ → Bool
is_free free frontier p = has p free || leb frontier p

-- The list depends on the first words of its pages and of the frontier only.
FreeChain-frame :
    (mem mem' : Mem) (page : ℕ) (free : List ℕ) (frontier : ℕ)
    → ((p : ℕ) → (has p free || (p == frontier)) ≡ true → mem' p ≡ mem p)
    → FreeChain mem page free frontier
    → FreeChain mem' page free frontier
FreeChain-frame mem mem' page [] frontier same c = ground (arith, same frontier)
FreeChain-frame mem mem' page (x ∷ xs) frontier same c =
    let e : mem' x ≡ mem x = same x (ground arith) in
    (
      c.0,
      rw e c.1,
      rw e (FreeChain-frame mem mem' (mem x) xs frontier (λ p h. ground (arith, same p)) c.2),
    )

used_lem :
    (frontier : ℕ) (free : List ℕ) (p : ℕ)
    → AllUsed frontier free
    → has p free ≡ true
    → IsUsedPage frontier p
used_lem frontier [] p u h = absurd (ground arith)
used_lem frontier (x ∷ xs) p u h = elim (Bool-cases (p == x)) [
  | inl e ↦ let same : p ≡ x = ground arith in rw same u.0
  | inr ne ↦ used_lem frontier xs p u.1 (ground arith)
]

used_mono : (f g : ℕ) (free : List ℕ) → f ≤ g → AllUsed f free → AllUsed g free
used_mono f g [] h u = u
used_mono f g (x ∷ xs) h u = ((u.0.0, omega arith, u.0.2), used_mono f g xs h u.1)

-- What a call of `kalloc` that returns `page` does to the free pages and to the memory.
pub record Takes {Disk : Type 0} (m m' : Mm Disk) (page : ℕ) (free : List ℕ) (frontier : ℕ)
    : Type 0 where
  pub free' : List ℕ
  pub frontier' : ℕ
  pub pool : IsPool m' free' frontier'
  pub room : frontier' ≤ frontier + page_size
  pub was_free : is_free free frontier page ≡ true
  pub not_free : is_free free' frontier' page ≡ false
  pub aligned : page % page_size ≡ 0
  pub above : freemem_kernel ≤ page
  pub below : page < word
  pub others :
      (p : ℕ) → p % page_size ≡ 0 → p ≢ page → is_free free' frontier' p ≡ is_free free frontier p
  pub zeroed : (a : ℕ) → page ≤ a → a < page + page_size → m'.mem a ≡ 0
  pub kept :
      (p a : ℕ)
      → p % page_size ≡ 0
      → is_free free frontier p ≡ false
      → p ≤ a
      → a < p + page_size
      → m'.mem a ≡ m.mem a

module _ {Disk : Type 0} where
  pub init-IsPool : (m : Mm Disk) → IsPool (init_kernel_freemem m) [] freemem_kernel
  unfolding init_kernel_freemem
  init-IsPool m = record {
    chain = ground arith;
    used = tt;
    no_dup = refl;
    low = omega arith;
    high = omega arith;
    aligned = omega arith;
  }

  -- A pool depends on the first words of free pages only.
  pub IsPool-frame :
      (m m' : Mm Disk) (free : List ℕ) (frontier : ℕ)
      → m'.freemem_list ≡ m.freemem_list
      → ((p : ℕ) → p % page_size ≡ 0 → is_free free frontier p ≡ true → m'.mem p ≡ m.mem p)
      → IsPool m free frontier
      → IsPool m' free frontier
  IsPool-frame m m' free frontier e same p = record {
    chain = rw e (
        FreeChain-frame m.mem m'.mem m.freemem_list free frontier
          (λ q h. elim (Bool-cases (has q free)) [
            | inl i ↦ same q (used_lem frontier free q p.used i).2 (ground arith)
            | inr n ↦ same q (ground (arith, p.aligned)) (ground arith)
          ])
          p.chain);
    used = p.used;
    no_dup = p.no_dup;
    low = p.low;
    high = p.high;
    aligned = p.aligned;
  }

  abbrev after_frontier : Mm Disk → ℕ → Mm Disk
  after_frontier m page = record m {
    mem = zero_range (upd m.mem (page + page_size) 0) page page_size;
    freemem_list = page + page_size;
  }

  abbrev after_freed : Mm Disk → ℕ → Mm Disk
  after_freed m page = record m { mem = zero_range m.mem page page_size; freemem_list = m.mem page }

  kalloc-eq_frontier :
      (m : Mm Disk) (page : ℕ)
      → m.freemem_list ≡ page
      → m.mem page ≡ 0
      → page + page_size < word
      → kalloc m ≡ (page, after_frontier m page)
  unfolding kalloc
  kalloc-eq_frontier m page e z h =
      let w : (page + page_size) % word ≡ page + page_size = mod-eq_of_lt h in rw (e, z, w)

  kalloc-eq_freed :
      (m : Mm Disk) (page : ℕ)
      → m.freemem_list ≡ page
      → m.mem page ≢ 0
      → kalloc m ≡ (page, after_freed m page)
  unfolding kalloc
  kalloc-eq_freed m page e z = let miss : (m.mem page == 0) ≡ false = ground arith in rw (e, miss)

  Takes-frontier :
      (m : Mm Disk) (page : ℕ)
      → IsPool m [] page
      → page + page_size < word
      → Takes m (after_frontier m page) page [] page
  Takes-frontier m page p h = record {
    free' = [];
    frontier' = page + page_size;
    pool = record {
      chain = ground arith;
      used = tt;
      no_dup = refl;
      low = omega (arith, p.low);
      high = h;
      aligned = omega (arith, p.aligned);
    };
    room = omega arith;
    was_free = ground arith;
    not_free = ground arith;
    aligned = p.aligned;
    above = p.low;
    below = p.high;
    others = λ q a ne. ground (arith, p.aligned);
    zeroed = λ a lo hi. ground arith;
    kept = λ q a al nf lo hi. ground (arith, p.aligned);
  }

  Takes-freed :
      (m : Mm Disk) (frontier x : ℕ) (xs : List ℕ)
      → IsPool m (x ∷ xs) frontier
      → Takes m (after_freed m x) x (x ∷ xs) frontier
  Takes-freed m frontier x xs p = record {
    free' = xs;
    frontier' = frontier;
    pool = record {
      chain =
          FreeChain-frame m.mem (after_freed m x).mem (m.mem x) xs frontier
            (λ q h.
              ground (
                arith,
                p.used.0.1,
                p.used.0.2,
                p.aligned,
                used_lem frontier xs q p.used.1,
                p.no_dup,
              ))
            p.chain.2;
      used = p.used.1;
      no_dup = ground (arith, p.no_dup);
      low = p.low;
      high = p.high;
      aligned = p.aligned;
    };
    room = omega arith;
    was_free = ground arith;
    not_free = ground (arith, p.no_dup, p.used.0.1);
    aligned = p.used.0.2;
    above = p.used.0.0;
    below = omega (arith, p.used.0.1, p.high);
    others = λ q a ne. ground arith;
    zeroed = λ a lo hi. ground arith;
    kept = λ q a al nf lo hi. ground (arith, p.used.0.2);
  }

  -- With a well-formed free list and a page left below 2^64, kalloc gives an aligned page that
  -- was free and is zeroed, that is free no longer, leaves the list well-formed, changes no
  -- other page's status and no word of a page in use.
  pub kalloc_lem :
      (m : Mm Disk) (free : List ℕ) (frontier : ℕ)
      → IsPool m free frontier
      → frontier + page_size < word
      → Takes m (kalloc m).1 (kalloc m).0 free frontier
  kalloc_lem m [] frontier p h =
      rw (kalloc-eq_frontier m frontier p.chain.0 (rw p.chain.0 at p.chain.1) h)
        (Takes-frontier m frontier p h)
  kalloc_lem m (x ∷ xs) frontier p h =
      rw (kalloc-eq_freed m x p.chain.0 p.chain.1) (Takes-freed m frontier x xs p)

  head_pos :
      (m : Mm Disk) (free : List ℕ) (frontier : ℕ) → IsPool m free frontier → 0 < m.freemem_list
  head_pos m [] frontier p = omega (arith, p.chain.0, p.low)
  head_pos m (x ∷ xs) frontier p = omega (arith, p.chain.0, p.used.0.0)

  -- kfree of a used, aligned page that is not free puts it on the free list and keeps the list
  -- well-formed.
  pub kfree-IsPool :
      (m : Mm Disk) (free : List ℕ) (frontier page : ℕ)
      → IsPool m free frontier
      → IsUsedPage frontier page
      → has page free ≡ false
      → IsPool (kfree m page) (page ∷ free) frontier
  unfolding kfree
  kfree-IsPool m free frontier page p u f =
      let kernel : ltb page freemem_kernel ≡ false = ground (arith, u.0) in
      let self : (page == page) ≡ true = ground arith in
      rw kernel (record {
        chain = (
          refl,
          rw self (ground (arith, head_pos m free frontier p)),
          rw self (
              FreeChain-frame m.mem (upd m.mem page m.freemem_list) m.freemem_list free frontier
                (λ q h. ground (arith, u)) p.chain),
        );
        used = (u, p.used);
        no_dup = ground (arith, p.no_dup);
        low = p.low;
        high = p.high;
        aligned = p.aligned;
      })
