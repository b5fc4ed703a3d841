-- ===== src/Mm/Table/Grow.antt =====
-- What `alloc_table` does: after it the entry leads to a table, and nothing else in use changed.
use ucas_os_kernel.Base.{
  ℕ, ◌+◌, ◌/◌, ◌%◌, ◌^◌, ◌<◌, ◌≤◌, ◌≡◌, refl, ◌≢◌, true, false, ◌==◌, List, arith, ap, sym, ◌∙◌,
  ◌&&◌, leb, ltb, upd, Bool-cases, inl, inr,
}
use ucas_os_kernel.Mm.Pgtable.{word, page_size, kva2pa, set_pfn, set_attribute, page_present}
use ucas_os_kernel.Mm.Pgtable.Entry.{get_pa-set_entry, set_entry}
use ucas_os_kernel.Mm.State.{zero_range, Mm}
use ucas_os_kernel.Mm.Kalloc.{freemem_kernel, kalloc}
use ucas_os_kernel.Mm.Kalloc.Pool.{IsPool, is_free, IsPool-frame, Takes, kalloc_lem}
use ucas_os_kernel.Mm.Table.{table_of, alloc_table}

-- A page in use.
abbrev pub InUse : List ℕ → ℕ → ℕ → Type 0
InUse free frontier p = (p % page_size ≡ 0) × (is_free free frontier p ≡ false)

pub record Grows {Disk : Type 0} (m m' : Mm Disk) (slot : ℕ) (free : List ℕ) (frontier : ℕ)
    : Type 0 where
  pub free' : List ℕ
  pub frontier' : ℕ
  pub pool : IsPool m' free' frontier'
  pub room : frontier' ≤ frontier + page_size
  pub filled : m'.mem slot ≢ 0
  -- The table is the old one, or a page that was free, is now in use, and is empty.
  pub same_or_new :
      (m.mem slot ≢ 0 → m' ≡ m)
      × (m.mem slot ≡ 0
          → InUse free' frontier' (table_of (m'.mem slot))
            × (is_free free frontier (table_of (m'.mem slot)) ≡ true)
            × ((a : ℕ)
                → table_of (m'.mem slot) ≤ a
                → a < table_of (m'.mem slot) + page_size
                → m'.mem a ≡ 0))
  pub in_use : (p : ℕ) → InUse free frontier p → InUse free' frontier' p
  pub kept :
      (p a : ℕ) → InUse free frontier p → p ≤ a → a < p + page_size → a ≢ slot → m'.mem a ≡ m.mem a

-- The entry for a fresh table.
abbrev table_entry : ℕ → ℕ
table_entry page = set_attribute (set_pfn (kva2pa page / 2 ^ 12)) page_present

table_of-table_entry :
    (page : ℕ)
    → freemem_kernel ≤ page
    → page < word
    → page % page_size ≡ 0
    → table_of (table_entry page) ≡ page
unfolding table_of
table_of-table_entry page lo hi al =
    get_pa-set_entry page page_present (omega arith) hi al (omega arith)

table_entry-ne-zero : (page : ℕ) → freemem_kernel ≤ page → page < word → table_entry page ≢ 0
unfolding kva2pa
table_entry-ne-zero page lo hi =
    let e = set_entry (kva2pa page / 2 ^ 12) page_present (omega arith) (omega arith) in
    λ z. omega (arith, e, z)

module _ {Disk : Type 0} (m m1 : Mm Disk) (free : List ℕ) (frontier page : ℕ)
    (tk : Takes m m1 page free frontier) where
  abbrev grown : ℕ → Mm Disk
  grown slot = record m1 { mem = zero_range (upd m1.mem slot (table_entry page)) page page_size }

  grown-Grows :
      (t slot : ℕ)
      → InUse free frontier t
      → t ≤ slot
      → slot < t + page_size
      → m.mem slot ≡ 0
      → Grows m (grown slot) slot free frontier
  grown-Grows t slot u lo hi z =
      let ne : page ≢ t = λ e. ground (arith, tk.was_free, u) in
      let apart : (leb page slot && ltb slot (page + page_size)) ≡ false =
        ground (arith, tk.aligned, u) in
      let self : (slot == slot) ≡ true = ground arith in
      let found : (grown slot).mem slot ≡ table_entry page = rw (apart, self) in
      let is : table_of (table_entry page) ≡ page =
        table_of-table_entry page tk.above tk.below tk.aligned in
      let used : InUse tk.free' tk.frontier' t = (u.0, tk.others t u.0 (λ e. ne (sym e)) ∙ u.1) in
      record {
        free' = tk.free';
        frontier' = tk.frontier';
        pool =
            IsPool-frame m1 (grown slot) tk.free' tk.frontier' refl
              (λ p al fr. ground (arith, tk.not_free, tk.aligned, used)) tk.pool;
        room = tk.room;
        filled = rw found (table_entry-ne-zero page tk.above tk.below);
        same_or_new = (
          λ n. absurd (n z),
          λ _. rw (found, is) ((tk.aligned, tk.not_free), tk.was_free, λ a l h. ground arith),
        );
        in_use = λ p i. (i.0, tk.others p i.0 (λ e. ground (arith, tk.was_free, i)) ∙ i.1);
        kept = λ p a i l h n. ground (arith, tk.was_free, tk.aligned, i, tk.kept p a i.0 i.1 l h);
      }

module _ {Disk : Type 0} (m : Mm Disk) (free : List ℕ) (frontier : ℕ)
    (pool : IsPool m free frontier) where
  pub alloc_table_lem :
      (t slot : ℕ)
      → InUse free frontier t
      → t ≤ slot
      → slot < t + page_size
      → frontier + page_size < word
      → Grows m (alloc_table m slot) slot free frontier
  unfolding alloc_table
  alloc_table_lem t slot u lo hi r = elim (Bool-cases (m.mem slot == 0)) [
    | inl e ↦
        let tk = kalloc_lem m free frontier pool r in
        let is : table_of (table_entry (kalloc m).0) ≡ (kalloc m).0 =
          table_of-table_entry (kalloc m).0 tk.above tk.below tk.aligned in
        rw (e, is)
          (grown-Grows m (kalloc m).1 free frontier (kalloc m).0 tk t slot u lo hi (ground arith))
    | inr e ↦ rw e (record {
      free' = free;
      frontier' = frontier;
      pool = pool;
      room = omega arith;
      filled = ground arith;
      same_or_new = (λ n. refl, λ z. absurd (ground arith));
      in_use = λ p i. i;
      kept = λ p a i l h n. refl;
    })
  ]

-- A word of a page in use that is not 0 stays.
pub Grows-filled :
    {Disk : Type 0} (m m' : Mm Disk) (slot : ℕ) (free : List ℕ) (frontier p a : ℕ)
    → Grows m m' slot free frontier
    → InUse free frontier p
    → p ≤ a
    → a < p + page_size
    → m.mem a ≢ 0
    → m'.mem a ≡ m.mem a
Grows-filled m m' slot free frontier p a g i lo hi ne = elim (Bool-cases (a == slot)) [
  | inl e ↦
      let is : a ≡ slot = ground arith in ap (λ (x : Mm _). x.mem a) (g.same_or_new.0 (rw is at ne))
  | inr e ↦ g.kept p a i lo hi (ground arith)
]
