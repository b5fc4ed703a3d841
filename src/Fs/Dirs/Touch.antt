-- ===== src/Fs/Dirs/Touch.antt =====
-- `do_touch` in a directory whose first block has room.
use ucas_os_kernel.Base.{
  ℕ, suc, ◌+◌, ◌-◌, ◌*◌, ◌^◌, ◌/◌, ◌<◌, ◌≤◌, ◌≡◌, ◌≢◌, refl, ◌⊎◌, inl, inr, List, [], ◌∷◌, ◌++◌,
  some, arith, ap, ◌∙◌, sym, subst, length, ltb, Bool-cases, false, true,
}
use ucas_os_kernel.Base.Bytes.{Bytes, AreBytes}
use ucas_os_kernel.Strings.{strlen, strcmp}
use ucas_os_kernel.Strings.Compare.{terminated, IsString, strlen_lem}
use ucas_os_kernel.Fs.{Card, IsCard, alloc_inode}
use ucas_os_kernel.Fs.Inode.{
  Inode, FileSystem, Superblock, file, imap_start, inode_sector, read_block, read_inode,
  write_inode,
}
use ucas_os_kernel.Fs.Inode.Format.{IsInode}
use ucas_os_kernel.Fs.Inode.Store.{
  HasSectors, read_inode-write_inode, read_inode-same, read_block-same,
}
use ucas_os_kernel.Fs.Blocks.Index.{length-read_block}
use ucas_os_kernel.Fs.Dentry.{Scan, scan_blocks}
use ucas_os_kernel.Fs.Dentry.Dir.{Entry, IsDir, find_name, path-first}
use ucas_os_kernel.Fs.Dirs.{zero_inode, take_inode, append_dentry, do_touch}
use ucas_os_kernel.Fs.Dirs.Enter.{Holds, new_entry, scan_blocks-first, append_dentry_lem}

-- What `do_touch` writes as the inode.
abbrev pub touched : (ticks : ℕ) → Inode
touched ticks = record zero_inode { type = file; time_created = ticks; permission = 0x1ed; ref = 1 }

touched-IsInode : (ticks : ℕ) → ticks < 2 ^ 32 → IsInode (touched ticks)
touched-IsInode ticks h = record {
  type = omega arith;
  permission = omega arith;
  size = omega arith;
  ref = omega arith;
  time_created = h;
  blocks = refl;
  direct = omega arith;
  indirect = omega arith;
  double_indirect = omega arith;
}

module _ (open_shl : ℕ → ℕ) {Disk : Type 0} (card : Card Disk) (law : IsCard card) where
  -- `alloc_inode` touches one sector, and gives no 0.
  alloc_inode-others :
      (d : Disk) (start m : ℕ)
      → m ≢ start
      → card.read (alloc_inode open_shl card d start).1 m ≡ card.read d m
  unfolding alloc_inode
  alloc_inode-others d start m ne = law.other d start m _ ne

  alloc_inode-pos : (d : Disk) (start : ℕ) → 0 < (alloc_inode open_shl card d start).0
  unfolding alloc_inode
  alloc_inode-pos d start = omega arith

  module _ (s : FileSystem Disk) (has : HasSectors card s.disk) (b : ℕ)
      (maps : s.superblock.imap_offset < s.superblock.inode_offset)
      (inodes : s.superblock.inode_offset + 512 ≤ b * 8) where
    abbrev inum : ℕ
    inum = (take_inode open_shl card s).0

    -- The inode is allocated and written: the blocks behind the inodes stay.
    module _ (small : inum ≤ 4096) (i : Inode) (is : IsInode i) where
      abbrev taken : FileSystem Disk
      taken = record (read_block card s b) {
        disk = (alloc_inode open_shl card s.disk (imap_start s)).1;
      }

      taken-sector :
          (n : ℕ) → card.read taken.disk (inode_sector s n) ≡ card.read s.disk (inode_sector s n)
      taken-sector n =
          alloc_inode-others s.disk (imap_start s) (inode_sector s n) (λ e. omega (arith, e, maps))

      pub record Written (n : ℕ) : Type 0 where
        pub state : FileSystem Disk
        pub writes : write_inode card taken inum i ≡ some state
        pub reads : read_inode card state inum ≡ some i
        pub superblock : state.superblock ≡ s.superblock
        pub others : (m : ℕ) → m ≢ n → read_inode card state (suc m) ≡ read_inode card s (suc m)
        pub blocks :
            (c : ℕ)
            → s.superblock.inode_offset + 512 ≤ c * 8
            → (read_block card state c).block_buf ≡ (read_block card s c).block_buf

      written : (n : ℕ) → inum ≡ suc n → Written n
      unfolding read_block
      written n e =
          let w =
            read_inode-write_inode card law taken n i is
              (ap length (taken-sector n) ∙ has (inode_sector s n)) in
          let sb : w.0.superblock ≡ s.superblock = ap (λ (u : FileSystem Disk). u.superblock) w.5 in
          record {
            state = w.0;
            writes = ap (λ (k : ℕ). write_inode card taken k i) e ∙ w.1;
            reads = ap (λ (k : ℕ). read_inode card w.0 k) e ∙ w.2;
            superblock = sb;
            others = λ m ne. w.3 m ne ∙ read_inode-same card s taken refl m (taken-sector m);
            blocks = λ c high. read_block-same card s w.0 sb law c (λ m a z.
                w.4 m (λ q. omega (arith, q, a, high, e, small))
                ∙ alloc_inode-others s.disk (imap_start s) m
                    (λ q. omega (arith, q, a, high, maps)));
          }

    -- The steps of `do_touch` where the name is new.
    module _ (cwd : Inode) (more : List ℕ) (t xs : Bytes) (k n : ℕ) where
      touch-steps :
          read_inode card s s.cwd_inum ≡ some cwd
          → cwd.direct ≡ b ∷ more
          → strlen (terminated xs t) ≡ some n
          → n ≤ 26
          → scan_blocks card (λ name. strcmp (terminated xs t) name) s 0 (b ∷ more)
            ≡ some (Scan.unused k, b, read_block card s b)
          → (s3 s4 : FileSystem Disk)
          → write_inode card
              (record (read_block card s b) {
                disk = (alloc_inode open_shl card s.disk (imap_start s)).1;
              })
              inum
              (touched s.ticks)
            ≡ some s3
          → append_dentry card s3 b inum (terminated xs t) ≡ some s4
          → do_touch open_shl card s (terminated xs t) ≡ some (0, s4)
      unfolding do_touch read_block
      touch-steps known direct len short scanned s3 s4 wrote appended =
          let fits : ltb 26 n ≡ false = ground arith in
          rw (known, len, fits, direct, scanned, wrote, appended) refl

    module _ (cwd : Inode) (more : List ℕ) (xs t : Bytes) (es : List Entry)
        (known : read_inode card s s.cwd_inum ≡ some cwd) (direct : cwd.direct ≡ b ∷ more)
        (holds : Holds card s b es) (string : IsString xs) where
      is_data : b ≢ 0
      is_data e = omega (arith, e, inodes)

      refuse-long :
          ltb 26 (length xs) ≡ true → do_touch open_shl card s (terminated xs t) ≡ some (1, s)
      unfolding do_touch
      refuse-long test = let n = strlen_lem xs t string in rw (known, n, test) refl

      refuse-listed :
          (i : ℕ)
          → find_name xs 0 es ≡ Scan.listed i
          → length es < 113
          → length xs ≤ 26
          → do_touch open_shl card s (terminated xs t)
            ≡ some (1, record s { block_buf = (read_block card s b).block_buf })
      unfolding do_touch read_block
      refuse-listed i old room short =
          let n = strlen_lem xs t string in
          let test : ltb 26 (length xs) ≡ false = ground arith in
          let scanned =
            scan_blocks-first card (λ name. strcmp (terminated xs t) name) xs
              (path-first xs t string) s 0 b more es is_data (length-read_block card s b has) holds
              (omega (arith, room))
            ∙ ap (λ (r : Scan). some (r, b, read_block card s b)) old in
          rw (known, n, test, direct, scanned) refl

      -- When the current directory's first block holds a list of entries and has room, the name
      -- is new, a string of at most 26 bytes, the inode map has a free inode, and the clock is
      -- below 2^32, do_touch returns 0; the inode is then an empty file with one link, the block
      -- holds the list with an entry for the name and the inode at its end, and every other data
      -- block and every other inode is as before.
      pub do_touch_lem :
          find_name xs 0 es ≡ Scan.unused (length es)
          → length es < 113
          → length xs ≤ 26
          → AreBytes xs
          → inum ≤ 4096
          → s.ticks < 2 ^ 32
          → (s' : FileSystem Disk) × (do_touch open_shl card s (terminated xs t) ≡ some (0, s'))
            × (read_inode card s' inum ≡ some (touched s.ticks))
            × Holds card s' b (es ++ (new_entry inum xs ∷ []))
            × ((c : ℕ)
                → c ≢ b
                → s.superblock.inode_offset + 512 ≤ c * 8
                → (read_block card s' c).block_buf ≡ (read_block card s c).block_buf)
            × ((m : ℕ)
                → m < 4096
                → suc m ≢ inum
                → read_inode card s' (suc m) ≡ read_inode card s (suc m))
            × (length (read_block card s' b).block_buf ≡ 4096)
      do_touch_lem new room short bytes small now =
          let len = length-read_block card s b has in
          let n = inum - 1 in
          let number : inum ≡ suc n = omega (arith, alloc_inode-pos s.disk (imap_start s)) in
          let w = written small (touched s.ticks) (touched-IsInode s.ticks now) n number in
          let block = w.blocks b inodes in
          let a =
            append_dentry_lem card law w.state b inum xs t es (ap length block ∙ len)
              (subst (λ (c : Bytes). IsDir c 0 es) (sym block) holds) room string bytes short
              (omega (arith, number)) (omega (arith, small)) in
          let sb : a.0.superblock ≡ w.state.superblock =
            ap (λ (u : FileSystem Disk). u.superblock) a.5 in
          let same = λ (m : ℕ) (h : m < 4096). read_inode-same card w.state a.0 sb m (
            a.4 (inode_sector w.state m) (
              inl (
                subst (λ (u : Superblock). u.start + u.inode_offset + m / 8 < u.start + b * 8)
                  (sym w.superblock) (omega (arith, h, inodes))))) in
          let scanned =
            scan_blocks-first card (λ name. strcmp (terminated xs t) name) xs
              (path-first xs t string) s 0 b more es is_data len holds (omega (arith, room)) in
          (
            a.0,
            touch-steps cwd more t xs (length es) (length xs) known direct (strlen_lem xs t string)
                short (scanned ∙ ap (λ (r : Scan). some (r, b, read_block card s b)) new) w.state
                a.0 w.writes a.1,
            ap (read_inode card a.0) number
                ∙ same n (omega (arith, small, number))
                ∙ ap (read_inode card w.state) (sym number)
                ∙ w.reads,
            a.2,
            λ c ne high. a.3 c ne ∙ w.blocks c high,
            λ m h ne. same m h ∙ w.others m (λ e. ne (omega (arith, e, number))),
            a.6,
          )

      -- When the name is longer than 26 bytes, or is that of an entry in use of the first block,
      -- do_touch returns 1 and changes nothing but the block buffer.
      pub do_touch-refused :
          length es < 113
          → (26 < length xs) ⊎ ((i : ℕ) × (find_name xs 0 es ≡ Scan.listed i))
          → (buf : Bytes) × (do_touch open_shl card s (terminated xs t)
              ≡ some (1, record s { block_buf = buf }))
      do_touch-refused room why = elim (Bool-cases (ltb 26 (length xs))) [
        | inl e ↦ (s.block_buf, refuse-long e)
        | inr e ↦ elim why [
          | inl h ↦ absurd (ground arith)
          | inr l ↦ ((read_block card s b).block_buf, refuse-listed l.0 l.1 room (ground arith))
        ]
      ]
