-- ===== src/Fs/Blocks/Mapping.antt =====
-- `set_inode_blk_num` against `offset_to_blk`: a file's blocks as a map from numbers to blocks.
use ucas_os_kernel.Base.{
  ℕ, zero, suc, ◌+◌, ◌*◌, ◌/◌, ◌^◌, ◌<◌, ◌≤◌, ◌≡◌, ◌≢◌, ◌⊎◌, inl, inr, refl, arith, ap, ◌∙◌, sym,
  length, subst, some, set, List, Bool, true, false, not, ◌&&◌, ◌||◌, Option, none, ltb, ◌==◌,
  Bool-cases, if◌then◌else◌,
}
use ucas_os_kernel.Base.Bytes.{Bytes}
use ucas_os_kernel.Fs.{Card, IsCard}
use ucas_os_kernel.Fs.Inode.{
  Inode, FileSystem, read_block, write_inode, inode_sector, get_u32, Superblock, read_sectors,
}
use ucas_os_kernel.Fs.Inode.Format.{IsInode}
use ucas_os_kernel.Fs.Inode.Store.{HasSectors, read_sectors-same, read_inode-write_inode}
use ucas_os_kernel.Fs.Blocks.{set_inode_blk_num, put_entry}
use ucas_os_kernel.Fs.Blocks.Slots.{
  group, slot, slot-lt, group-slot, ==-same, ==-apart, ==→≢, get_or-set, set-IsInode,
}
use ucas_os_kernel.Fs.Blocks.Index.{entry, entry-put_entry}
use ucas_os_kernel.Fs.Blocks.FileMap.{
  leaf, file_block, in_use, reaches, block_at, block_at-file_block, IsIndexed, in_use-leaf,
}

choose :
    (r c r' : Bool) (f f' new : ℕ)
    → r' ≡ r
    → (r ≡ true → f' ≡ (if c then new else f))
    → (c ≡ true → r ≡ true)
    → (if r' then some f' else none) ≡ (if c then some new else if r then some f else none)
choose true true r' f f' new e g h = rw (e, g refl) refl
choose true false r' f f' new e g h = rw (e, g refl) refl
choose false true r' f f' new e g h = absurd (ground (arith, h))
choose false false r' f f' new e g h = rw e refl

module _ {Disk : Type 0} (card : Card Disk) where
  module _ (law : IsCard card) (s : FileSystem Disk) (has : HasSectors card s.disk) (inode : Inode)
      (n : ℕ) (ok : IsIndexed card s inode n) where
    -- An entry that is written.
    module _ (k new : ℕ) (deep : 10 ≤ k) (used : in_use card s inode (group k) ≡ true)
        (word : new < 2 ^ 32) where
      abbrev put_state : FileSystem Disk
      put_state =
          put_entry card (read_block card s (leaf card s inode (group k)))
            (leaf card s inode (group k)) (slot k) new

      leaf-put : (g : ℕ) → leaf card put_state inode g ≡ leaf card s inode g
      leaf-put zero = refl
      leaf-put (suc j) =
          let away : (inode.double_indirect == leaf card s inode (group k)) ≡ false =
            ground (arith, ok.apart (group k) used) in
          entry-put_entry card law s has (leaf card s inode (group k)) (slot k) new (slot-lt k) word
            inode.double_indirect j
          ∙ rw away refl

      in_use-put : (g : ℕ) → in_use card put_state inode g ≡ in_use card s inode g
      in_use-put zero = refl
      in_use-put (suc j) =
          ap (λ (c : ℕ). not (inode.double_indirect == 0) && not (c == 0)) (leaf-put (suc j))

      reaches-put : (l : ℕ) → reaches card put_state inode l ≡ reaches card s inode l
      reaches-put l = ap (λ (u : Bool). ltb l 10 || u) (in_use-put (group l))

      file_block-put :
          (l : ℕ)
          → reaches card s inode l ≡ true
          → file_block card put_state inode l ≡ (if l == k then new else file_block card s inode l)
      file_block-put l on = elim (Bool-cases (ltb l 10)) [
        | inl e ↦ let apart : (l == k) ≡ false = ground arith in rw (e, apart) refl
        | inr e ↦
            let far : 10 ≤ l = ground arith in
            let stored =
              entry-put_entry card law s has (leaf card s inode (group k)) (slot k) new (slot-lt k)
                word (leaf card s inode (group l)) (slot l) in
            rw e (
              ap (λ (c : ℕ). entry card put_state c (slot l)) (leaf-put (group l))
              ∙ stored
              ∙ elim (Bool-cases (l == k)) [
                | inl same ↦
                    let eq : l ≡ k = ground arith in
                    rw (eq, ==-same (leaf card s inode (group k)), ==-same (slot k), ==-same k) refl
                | inr other ↦
                    elim (Bool-cases (leaf card s inode (group l) == leaf card s inode (group k))) [
                      | inl f ↦
                          let meet : leaf card s inode (group l) ≡ leaf card s inode (group k) =
                            ground arith in
                          let together =
                            ok.distinct (group k) (group l) used (ground (arith, on, e)) meet in
                          let slots : (slot l == slot k) ≡ false =
                            ==-apart _ _
                              (λ q. ==→≢ l k other (group-slot l k far deep together q)) in
                          rw (f, slots, other) (ap (λ (c : ℕ). entry card s c (slot l)) (sym meet))
                      | inr f ↦ rw (f, other) refl
                    ]
              ])
      ]

    -- The inode that is written.
    module _ (s' : FileSystem Disk) (kept : s'.superblock ≡ s.superblock)
        (others : (m : ℕ) → m ≢ inode_sector s n → card.read s'.disk m ≡ card.read s.disk m) where
      entry-kept :
          (c i : ℕ)
          → c ≢ 0
          → (c ≡ inode.double_indirect)
            ⊎ ((g : ℕ) × (in_use card s inode g ≡ true) × (c ≡ leaf card s inode g))
          → entry card s' c i ≡ entry card s c i
      unfolding read_block
      entry-kept c i ne path =
          ap (λ (b : Superblock). get_u32 (read_sectors card 8 s'.disk (b.start + c * 8)) i) kept
          ∙ ap (λ (b : Bytes). get_u32 b i)
              (read_sectors-same card law 8 s'.disk s.disk (s.superblock.start + c * 8) (λ m a z.
                others m
                  (λ e. elim (ok.outside c ne path) [ inl h ↦ omega arith | inr h ↦ omega arith ])))

      in_use-kept :
          (direct : List ℕ) (g : ℕ)
          → in_use card s' (record inode { direct = direct }) g ≡ in_use card s inode g
      in_use-kept direct zero = refl
      in_use-kept direct (suc j) = elim (Bool-cases (inode.double_indirect == 0)) [
        | inl e ↦ rw e refl
        | inr e ↦
            ap (λ (c : ℕ). not (inode.double_indirect == 0) && not (c == 0))
              (entry-kept inode.double_indirect j (==→≢ _ _ e) (inl refl))
      ]

      leaf-kept :
          (direct : List ℕ) (g : ℕ)
          → in_use card s inode g ≡ true
          → leaf card s' (record inode { direct = direct }) g ≡ leaf card s inode g
      leaf-kept direct zero u = refl
      leaf-kept direct (suc j) u = entry-kept inode.double_indirect j (ground arith) (inl refl)

      file_block-direct :
          (k new l : ℕ)
          → k < 10
          → length inode.direct ≡ 10
          → reaches card s inode l ≡ true
          → file_block card s' (record inode { direct = set inode.direct k new }) l
            ≡ (if l == k then new else file_block card s inode l)
      file_block-direct k new l h len on = elim (Bool-cases (ltb l 10)) [
        | inl e ↦ rw e (get_or-set inode.direct k new l (omega (arith, h, len)))
        | inr e ↦
            let apart : (l == k) ≡ false = ground arith in
            let used : in_use card s inode (group l) ≡ true = ground (arith, on, e) in
            rw (e, apart)
              (ap (λ (c : ℕ). entry card s' c (slot l))
                  (leaf-kept (set inode.direct k new) (group l) used)
                ∙ entry-kept (leaf card s inode (group l)) (slot l)
                    (in_use-leaf card s inode (group l) used) (inr (group l, used, refl)))
      ]

    -- `set_inode_blk_num` by its branches.
    set-deep :
        (offset new : ℕ)
        → ltb (offset / 4096) 10 ≡ false
        → set_inode_blk_num card s offset new inode (suc n)
          ≡ some (
            inode,
            put_entry card
                (read_block card s (leaf card s inode (group (offset / 4096))))
                (leaf card s inode (group (offset / 4096)))
                (slot (offset / 4096))
                new,
          )
    unfolding set_inode_blk_num read_block
    set-deep offset new e = elim (Bool-cases (ltb (offset / 4096) 1034)) [
      | inl f ↦ rw (e, f) refl
      | inr f ↦ rw (e, f) refl
    ]

    set-direct :
        (offset new : ℕ) {s' : FileSystem Disk}
        → ltb (offset / 4096) 10 ≡ true
        → write_inode card s
            (suc n)
            (record inode { direct = set inode.direct (offset / 4096) new })
          ≡ some s'
        → set_inode_blk_num card s offset new inode (suc n)
          ≡ some (record inode { direct = set inode.direct (offset / 4096) new }, s')
    unfolding set_inode_blk_num
    set-direct offset new e w = rw (e, w) refl

    -- A map changed at one block.
    changed-at :
        (s' : FileSystem Disk) (inode' : Inode) (k new o : ℕ)
        → reaches card s inode k ≡ true
        → ((l : ℕ) → reaches card s' inode' l ≡ reaches card s inode l)
        → ((l : ℕ)
            → reaches card s inode l ≡ true
            → file_block card s' inode' l ≡ (if l == k then new else file_block card s inode l))
        → block_at card s' inode' o ≡ (if o / 4096 == k then some new else block_at card s inode o)
    changed-at s' inode' k new o here same moved =
        let l = o / 4096 in
        block_at-file_block card s' inode' o
        ∙ choose (reaches card s inode l) (l == k) (reaches card s' inode' l)
            (file_block card s inode l) (file_block card s' inode' l) new (same l) (moved l)
            (λ e.
              let eq : l ≡ k = ground arith in
              subst (λ (m : ℕ). reaches card s inode m ≡ true) (sym eq) here)
        ∙ ap (λ (z : Option ℕ). let r : Option ℕ = if l == k then some new else z in r)
            (sym (block_at-file_block card s inode o))

    -- The blocks of a file are a map from the offsets whose index blocks are allocated. For an
    -- inode n + 1 whose allocated index blocks are distinct and apart from its own sector, on a
    -- card that keeps what is written, set_inode_blk_num of an offset of the map, with a block
    -- number below 2^32, does not fault; the map then has the new block for every offset in the
    -- same block of the file, and is the same for every other offset.
    pub set_inode_blk_num-mapping :
        IsInode inode
        → (offset new : ℕ) → new < 2 ^ 32
        → reaches card s inode (offset / 4096) ≡ true
        → (inode' : Inode) × (s' : FileSystem Disk) × (set_inode_blk_num card s offset new inode
              (suc n)
            ≡ some (inode', s'))
          × ((o : ℕ)
              → block_at card s' inode' o
                ≡ (if o / 4096 == offset / 4096 then some new else block_at card s inode o))
    set_inode_blk_num-mapping is offset new word on =
        let k = offset / 4096 in
        elim (Bool-cases (ltb k 10)) [
          | inl e ↦
              let changed : Inode = record inode { direct = set inode.direct k new } in
              let w =
                read_inode-write_inode card law s n changed (set-IsInode inode k new word is)
                  (has (inode_sector s n)) in
              let kept = ap (λ (t : FileSystem Disk). t.superblock) w.5 in
              (
                changed,
                w.0,
                set-direct offset new e w.1,
                λ o.
                    changed-at w.0 changed k new o on
                      (λ l.
                        ap (λ (u : Bool). ltb l 10 || u)
                          (in_use-kept w.0 kept w.4 (set inode.direct k new) (group l)))
                      (λ l u. file_block-direct w.0 kept w.4 k new l (ground arith) is.blocks u),
              )
          | inr e ↦
              let deep : 10 ≤ k = ground arith in
              let used : in_use card s inode (group k) ≡ true = ground (arith, on, e) in
              (
                inode,
                put_state k new deep used word,
                set-deep offset new e,
                λ o.
                    changed-at (put_state k new deep used word) inode k new o on
                      (reaches-put k new deep used word) (file_block-put k new deep used word),
              )
        ]
