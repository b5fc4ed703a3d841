-- ===== src/Mm/Table/Walk.antt =====
-- `map_uva_to_kva` against `get_pte_of_uva` and `get_kva_of_uva`.
use ucas_os_kernel.Base.{
  ℕ, ◌+◌, ◌*◌, ◌/◌, ◌^◌, ◌<◌, ◌≤◌, ◌≡◌, refl, ◌≢◌, false, ◌==◌, List, arith, ◌∙◌, bit_or, upd,
  Bool-cases, inl, inr, some,
}
use ucas_os_kernel.Mm.Pgtable.{
  word, page_size, kva2pa, pa2kva, get_pa, set_pfn, set_attribute, page_user_attrs,
  kernel_vm_offset, vpn2_of, vpn1_of, vpn0_of, page_offset,
}
use ucas_os_kernel.Mm.Pgtable.Entry.{set_entry}
use ucas_os_kernel.Mm.Pgtable.Vpn.{vpn2_lem, vpn1_lem, vpn0_lem}
use ucas_os_kernel.Mm.State.{Mem, Mm}
use ucas_os_kernel.Mm.Kalloc.Pool.{IsPool, IsPool-frame}
use ucas_os_kernel.Mm.Table.{
  entry_at, table_of, alloc_table, get_pte_of_uva, get_kva_of_uva, map_uva_to_kva,
}
use ucas_os_kernel.Mm.Table.Grow.{InUse, Grows, Grows-filled, alloc_table_lem}

-- Where the walk for `uva` looks.
abbrev pub slot2 : ℕ → ℕ → ℕ
slot2 pgdir uva = entry_at pgdir (vpn2_of uva)

abbrev pub slot1 : ℕ → ℕ → ℕ
slot1 pmd uva = entry_at pmd (vpn1_of uva)

abbrev pub slot0 : ℕ → ℕ → ℕ
slot0 pte uva = entry_at pte (vpn0_of uva)

pub vpn-lt : (uva : ℕ) → (vpn2_of uva < 512) × (vpn1_of uva < 512) × (vpn0_of uva < 512)
vpn-lt uva = omega (arith, vpn2_lem uva, vpn1_lem uva, vpn0_lem uva)

-- As far as the walk for `uva` goes, its tables are distinct pages in use.
pub record IsPath (mem : Mem) (free : List ℕ) (frontier pgdir uva : ℕ) : Type 0 where
  pub root : InUse free frontier pgdir
  pub pmd :
      mem (slot2 pgdir uva) ≢ 0
      → InUse free frontier (table_of (mem (slot2 pgdir uva)))
        × (table_of (mem (slot2 pgdir uva)) ≢ pgdir)
  pub pte :
      mem (slot2 pgdir uva) ≢ 0
      → let pmd = table_of (mem (slot2 pgdir uva)) in
        mem (slot1 pmd uva) ≢ 0
        → InUse free frontier (table_of (mem (slot1 pmd uva)))
          × (table_of (mem (slot1 pmd uva)) ≢ pgdir)
          × (table_of (mem (slot1 pmd uva)) ≢ pmd)

-- The walk for `uva` goes through the tables `pgdir`, `pmd` and `pte`.
pub record Tables (mem : Mem) (free : List ℕ) (frontier pgdir uva pmd pte : ℕ) : Type 0 where
  pub pgdir_used : InUse free frontier pgdir
  pub pmd_used : InUse free frontier pmd
  pub pte_used : InUse free frontier pte
  pub pmd_ne : pmd ≢ pgdir
  pub pte_ne : pte ≢ pgdir
  pub pte_ne_pmd : pte ≢ pmd
  pub at2 : mem (slot2 pgdir uva) ≢ 0
  pub to_pmd : table_of (mem (slot2 pgdir uva)) ≡ pmd
  pub at1 : mem (slot1 pmd uva) ≢ 0
  pub to_pte : table_of (mem (slot1 pmd uva)) ≡ pte

pub Tables-walk :
    (mem : Mem) (free : List ℕ) (frontier pgdir uva pmd pte : ℕ)
    → Tables mem free frontier pgdir uva pmd pte
    → mem (slot0 pte uva) ≢ 0
    → get_pte_of_uva mem uva pgdir ≡ some (slot0 pte uva)
unfolding get_pte_of_uva
Tables-walk mem free frontier pgdir uva pmd pte t ne =
    let e2 : (mem (slot2 pgdir uva) == 0) ≡ false = ground (arith, t.at2) in
    let e1 : (mem (slot1 pmd uva) == 0) ≡ false = ground (arith, t.at1) in
    let e0 : (mem (slot0 pte uva) == 0) ≡ false = ground arith in
    rw (e2, t.to_pmd, e1, t.to_pte, e0)

-- A write to the entry that the walk ends in leaves the walk.
pub Tables-write :
    (mem : Mem) (free : List ℕ) (frontier pgdir uva pmd pte e : ℕ)
    → Tables mem free frontier pgdir uva pmd pte
    → Tables (upd mem (slot0 pte uva) e) free frontier pgdir uva pmd pte
Tables-write mem free frontier pgdir uva pmd pte e t =
    let v = vpn-lt uva in
    let s2 : (slot2 pgdir uva == slot0 pte uva) ≡ false =
      ground (arith, v, t.pte_ne, t.pgdir_used, t.pte_used) in
    let s1 : (slot1 pmd uva == slot0 pte uva) ≡ false =
      ground (arith, v, t.pte_ne_pmd, t.pmd_used, t.pte_used) in
    record {
      pgdir_used = t.pgdir_used;
      pmd_used = t.pmd_used;
      pte_used = t.pte_used;
      pmd_ne = t.pmd_ne;
      pte_ne = t.pte_ne;
      pte_ne_pmd = t.pte_ne_pmd;
      at2 = rw s2 t.at2;
      to_pmd = rw s2 t.to_pmd;
      at1 = rw s1 t.at1;
      to_pte = rw s1 t.to_pte;
    }

module _ {Disk : Type 0} (m m1 m2 : Mm Disk) (free : List ℕ) (frontier pgdir uva pmd : ℕ)
    (path : IsPath m.mem free frontier pgdir uva) (g1 : Grows m m1 (slot2 pgdir uva) free frontier)
    (ep : table_of (m1.mem (slot2 pgdir uva)) ≡ pmd) where
  pmd_lem : InUse g1.free' g1.frontier' pmd × (pmd ≢ pgdir)
  pmd_lem = elim (Bool-cases (m.mem (slot2 pgdir uva) == 0)) [
    | inl e ↦
        let n = g1.same_or_new.1 (ground arith) in
        rw (← ep) (n.0, λ q. ground (arith, n.1, path.root))
    | inr e ↦
        let ne : m.mem (slot2 pgdir uva) ≢ 0 = ground arith in
        let same : m1 ≡ m = g1.same_or_new.0 ne in
        let is : table_of (m.mem (slot2 pgdir uva)) ≡ pmd = (rw same at ep) in
        let o = path.pmd ne in (g1.in_use pmd (rw (← is) o.0), rw (← is) o.1)
  ]

  -- An entry that the second step found filled was there from the start.
  old_lem :
      m1.mem (slot1 pmd uva) ≢ 0
      → InUse g1.free' g1.frontier' (table_of (m1.mem (slot1 pmd uva)))
        × (table_of (m1.mem (slot1 pmd uva)) ≢ pgdir)
        × (table_of (m1.mem (slot1 pmd uva)) ≢ pmd)
  old_lem ne1 = elim (Bool-cases (m.mem (slot2 pgdir uva) == 0)) [
    | inl e ↦
        let n = g1.same_or_new.1 (ground arith) in
        let v = vpn-lt uva in
        absurd (ne1 (n.2 (slot1 pmd uva) (omega (arith, ep)) (omega (arith, ep, v))))
    | inr e ↦
        let ne : m.mem (slot2 pgdir uva) ≢ 0 = ground arith in
        let same : m1 ≡ m = g1.same_or_new.0 ne in
        let is : table_of (m.mem (slot2 pgdir uva)) ≡ pmd = (rw same at ep) in
        let ne' : m.mem (slot1 pmd uva) ≢ 0 = (rw same at ne1) in
        let o = path.pte ne (rw is ne') in
        rw (same, ← is)
          (
            g1.in_use (table_of (m.mem (slot1 (table_of (m.mem (slot2 pgdir uva))) uva))) o.0,
            o.1,
            o.2,
          )
  ]

  module _ (g2 : Grows m1 m2 (slot1 pmd uva) g1.free' g1.frontier') where
    abbrev new_pte : ℕ
    new_pte = table_of (m2.mem (slot1 pmd uva))

    pte_lem : InUse g2.free' g2.frontier' new_pte × (new_pte ≢ pgdir) × (new_pte ≢ pmd)
    pte_lem = elim (Bool-cases (m1.mem (slot1 pmd uva) == 0)) [
      | inl e ↦
          let n = g2.same_or_new.1 (ground arith) in
          (
            n.0,
            λ q. ground (arith, n.1, g1.in_use pgdir path.root),
            λ q. ground (arith, n.1, pmd_lem),
          )
      | inr e ↦
          let ne : m1.mem (slot1 pmd uva) ≢ 0 = ground arith in
          let same : m2 ≡ m1 = g2.same_or_new.0 ne in
          let o = old_lem ne in (g2.in_use new_pte (rw same o.0), rw same o.1, rw same o.2)
    ]

    Tables-grown : Tables m2.mem g2.free' g2.frontier' pgdir uva pmd new_pte
    Tables-grown =
        let v = vpn-lt uva in
        let root = g1.in_use pgdir path.root in
        let same : m2.mem (slot2 pgdir uva) ≡ m1.mem (slot2 pgdir uva) =
          g2.kept pgdir (slot2 pgdir uva) root (omega arith) (omega (arith, v))
            (λ e. ground (arith, v, pmd_lem, root)) in
        record {
          pgdir_used = g2.in_use pgdir root;
          pmd_used = g2.in_use pmd pmd_lem.0;
          pte_used = pte_lem.0;
          pmd_ne = pmd_lem.1;
          pte_ne = pte_lem.1;
          pte_ne_pmd = pte_lem.2;
          at2 = rw same g1.filled;
          to_pmd = rw same ep;
          at1 = g2.filled;
          to_pte = refl;
        }

pub get_kva_lem :
    (mem : Mem) (uva pgdir p : ℕ)
    → get_pte_of_uva mem uva pgdir ≡ some p
    → get_kva_of_uva mem uva pgdir ≡ pa2kva (bit_or (get_pa (mem p)) (page_offset uva))
unfolding get_kva_of_uva
get_kva_lem mem uva pgdir p e = rw (e, get_kva_of_uva)

-- The entry for a user page.
abbrev pub user_entry : ℕ → ℕ
user_entry kva = set_attribute (set_pfn (kva2pa kva / 2 ^ 12)) page_user_attrs

pub user_entry-ne-zero : (kva : ℕ) → kernel_vm_offset ≤ kva → kva < word → user_entry kva ≢ 0
unfolding kva2pa
user_entry-ne-zero kva lo hi =
    let e = set_entry (kva2pa kva / 2 ^ 12) page_user_attrs (omega arith) (omega arith) in
    λ z. omega (arith, e, z)

-- What `map_uva_to_kva` leaves behind.
pub record Maps {Disk : Type 0} (m m' : Mm Disk) (free : List ℕ) (frontier uva kva pgdir : ℕ)
    : Type 0 where
  pub free' : List ℕ
  pub frontier' : ℕ
  pub pmd : ℕ
  pub pte : ℕ
  pub pool : IsPool m' free' frontier'
  pub room : frontier' ≤ frontier + 2 * page_size
  pub tables : Tables m'.mem free' frontier' pgdir uva pmd pte
  pub entry : m'.mem (slot0 pte uva) ≡ user_entry kva
  pub in_use : (p : ℕ) → InUse free frontier p → InUse free' frontier' p
  -- Pages in use change at the entries of this walk only.
  pub kept :
      (p a : ℕ)
      → InUse free frontier p
      → p ≤ a
      → a < p + page_size
      → a ≢ slot2 pgdir uva
      → a ≢ slot1 pmd uva
      → a ≢ slot0 pte uva
      → m'.mem a ≡ m.mem a
  -- A word in use that is not 0 changes at the last entry only.
  pub filled :
      (p a : ℕ)
      → InUse free frontier p
      → p ≤ a
      → a < p + page_size
      → m.mem a ≢ 0
      → a ≢ slot0 pte uva
      → m'.mem a ≡ m.mem a

module _ {Disk : Type 0} (m : Mm Disk) (free : List ℕ) (frontier uva kva pgdir : ℕ) where
  pub map_lem :
      IsPool m free frontier
      → IsPath m.mem free frontier pgdir uva
      → frontier + 2 * page_size < word
      → Maps m (map_uva_to_kva m uva kva pgdir) free frontier uva kva pgdir
  unfolding map_uva_to_kva
  map_lem pool path r =
      let v = vpn-lt uva in
      let g1 =
        alloc_table_lem m free frontier pool pgdir (slot2 pgdir uva) path.root (omega arith)
          (omega (arith, v)) (omega (arith, r)) in
      let m1 = alloc_table m (slot2 pgdir uva) in
      let pmd = table_of (m1.mem (slot2 pgdir uva)) in
      let p1 = pmd_lem m m1 m1 free frontier pgdir uva pmd path g1 refl in
      let g2 =
        alloc_table_lem m1 g1.free' g1.frontier' g1.pool pmd (slot1 pmd uva) p1.0 (omega arith)
          (omega (arith, v)) (omega (arith, r, g1.room)) in
      let m2 = alloc_table m1 (slot1 pmd uva) in
      let t = Tables-grown m m1 m2 free frontier pgdir uva pmd path g1 refl g2 in
      let pte = table_of (m2.mem (slot1 pmd uva)) in
      let m3 : Mm Disk = record m2 { mem = upd m2.mem (slot0 pte uva) (user_entry kva) } in
      record {
        free' = g2.free';
        frontier' = g2.frontier';
        pmd = pmd;
        pte = pte;
        pool =
            IsPool-frame m2 m3 g2.free' g2.frontier' refl (λ p al fr. ground (arith, v, t.pte_used))
              g2.pool;
        room = omega (arith, g1.room, g2.room);
        tables = Tables-write m2.mem g2.free' g2.frontier' pgdir uva pmd pte (user_entry kva) t;
        entry = ground arith;
        in_use = λ p i. g2.in_use p (g1.in_use p i);
        kept = λ p a i lo hi n2 n1 n0.
            ground (arith, g2.kept p a (g1.in_use p i) lo hi n1, g1.kept p a i lo hi n2);
        filled = λ p a i lo hi ne n0.
            let e1 = Grows-filled m m1 (slot2 pgdir uva) free frontier p a g1 i lo hi ne in
            let e2 =
              Grows-filled m1 m2 (slot1 pmd uva) g1.free' g1.frontier' p a g2 (g1.in_use p i) lo hi
                (rw e1 ne) in
            let miss : (a == slot0 pte uva) ≡ false = ground arith in rw miss (e2 ∙ e1);
      }
