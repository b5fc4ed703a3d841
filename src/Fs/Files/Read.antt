-- ===== src/Fs/Files/Read.antt =====
-- `do_fread` over blocks that are all allocated: how much it reads, and what the buffer then holds.
use ucas_os_kernel.Base.{
  ℕ, zero, suc, ◌+◌, ◌-◌, ◌*◌, ◌/◌, ◌%◌, ◌≤◌, ◌<◌, ◌≡◌, ◌≢◌, refl, Option, some, arith, ap, ◌∙◌,
  sym, subst, ◌==◌, ltb, if◌then◌else◌, false, Bool-cases, inl, inr, length, take, drop, ◌++◌,
  length-append, length-take, length-drop,
}
use ucas_os_kernel.Base.Int.{pos}
use ucas_os_kernel.Base.Bytes.{Bytes, slice, take-append_all}
use ucas_os_kernel.Strings.Copy.{memcpy_lem}
use ucas_os_kernel.Fs.{Card}
use ucas_os_kernel.Fs.Inode.{Inode, FileSystem, read_block, read_inode}
use ucas_os_kernel.Fs.Inode.Store.{HasSectors}
use ucas_os_kernel.Fs.Blocks.{offset_to_blk}
use ucas_os_kernel.Fs.Blocks.Index.{length-read_block}
use ucas_os_kernel.Fs.Blocks.FileMap.{offset_to_blk_lem, leaf}
use ucas_os_kernel.Fs.Files.{chunk, fread_loop, do_fread, set_fdesc}

-- Where the last block's part of `n` bytes from offset `o` begins.
abbrev pub last_start : (o n : ℕ) → ℕ
last_start o n = let block = 4096 * ((o + n - 1) / 4096) in if ltb block o then o else block

module _ {Disk : Type 0} (card : Card Disk) (s : FileSystem Disk) (inode : Inode) where
  abbrev at : Bytes → FileSystem Disk
  at b = record s { block_buf = b }

  -- The block of an offset, and its bytes.
  abbrev pub block_of : ℕ → ℕ
  block_of o = (offset_to_blk card s o inode).0

  abbrev pub content : ℕ → Bytes
  content o = (read_block card s (block_of o)).block_buf

  block-at : (b : Bytes) (o : ℕ) → (offset_to_blk card (at b) o inode).0 ≡ block_of o
  unfolding read_block
  block-at b o = offset_to_blk_lem card (at b) o inode ∙ sym (offset_to_blk_lem card s o inode)

  state-at : (b : Bytes) (o : ℕ) → (b1 : Bytes) × ((offset_to_blk card (at b) o inode).1 ≡ at b1)
  unfolding offset_to_blk read_block
  state-at b o = elim (Bool-cases (ltb (o / 4096) 10)) [
    | inl e ↦ (b, rw e refl)
    | inr e ↦ elim (Bool-cases (ltb (o / 4096) 1034)) [
      | inl f ↦ ((read_block card (at b) inode.indirect).block_buf, rw (e, f) refl)
      | inr f ↦ (
        (read_block card (at b)
            (leaf card (at b) inode (suc ((o / 4096 - 1034) / 1024)))).block_buf,
        rw (e, f) refl,
      )
    ]
  ]

  module _ (has : HasSectors card s.disk) where
    fread-step :
        (fuel : ℕ) (b buff : Bytes) (o n r : ℕ)
        → 0 < n
        → block_of o ≢ 0
        → chunk (o % 4096) n ≤ length buff
        → fread_loop card (suc fuel) (at b) inode buff o n r
          ≡ fread_loop card fuel
              (at (content o))
              inode
              (slice (content o) (o % 4096) (chunk (o % 4096) n) ++ drop (chunk (o % 4096) n) buff)
              (o + chunk (o % 4096) n)
              (n - chunk (o % 4096) n)
              (r + chunk (o % 4096) n)
    unfolding fread_loop read_block
    fread-step fuel b buff o n r some_left found room =
        let t = state-at b o in
        let same = block-at b o in
        let left : (n == 0) ≡ false = ground arith in
        let used : (block_of o == 0) ≡ false = ground (arith, found) in
        let len = length-read_block card s (block_of o) has in
        let copied =
          memcpy_lem buff (drop (o % 4096) (content o)) (chunk (o % 4096) n) room
            (ground (arith, len, length-drop (o % 4096) (content o))) in
        rw (left, same, t.1, used, copied) refl

    -- What the loop does of `n` bytes from offset `o` on.
    pub record Done (r o n : ℕ) (buff : Bytes) (out : Option (ℕ × Bytes × FileSystem Disk))
        : Type 0 where
      pub buff' : Bytes
      pub buf : Bytes
      pub returns : out ≡ some (r + n, buff', record s { block_buf = buf })
      pub room : length buff' ≡ length buff
      pub nothing : n ≡ 0 → buff' ≡ buff
      pub start :
          0 < n
          → take (o + n - last_start o n) buff'
            ≡ slice (content (last_start o n)) (last_start o n % 4096) (o + n - last_start o n)

    -- One block in front of the rest.
    Done-next :
        (o n r c : ℕ) (buff filled : Bytes) (out : Option (ℕ × Bytes × FileSystem Disk))
        → 0 < n
        → c ≡ chunk (o % 4096) n
        → 0 < c
        → c ≤ n
        → length filled ≡ length buff
        → take c filled ≡ slice (content o) (o % 4096) c
        → Done (r + c) (o + c) (n - c) filled out
        → Done r o n buff out
    Done-next o n r c buff filled out some_left whole moved within kept first rest = record {
      buff' = rest.buff';
      buf = rest.buf;
      returns =
          rest.returns
          ∙ ap (λ (m : ℕ). some (m, rest.buff', record s { block_buf = rest.buf }))
              (omega (arith, within));
      room = rest.room ∙ kept;
      nothing = λ z. absurd (omega (arith, z, some_left));
      start = λ more. elim (Bool-cases (n - c == 0)) [
        | inl e ↦
            let one : c ≡ n = ground (arith, within) in
            let from : last_start o n ≡ o = ground (arith, whole) in
            let part : o + n - o ≡ c = omega (arith, one) in
            rw (from, part) (ap (take c) (rest.nothing (omega (arith, one))) ∙ first)
        | inr e ↦
            let left : 0 < n - c = ground arith in
            let from : last_start (o + c) (n - c) ≡ last_start o n = ground (arith, whole) in
            let part : o + c + (n - c) ≡ o + n = omega (arith, within) in
            let there = rest.start left in rw (from, part) at there
      ];
    }

    loop_end :
        (fuel : ℕ) (b buff : Bytes) (o r : ℕ)
        → fread_loop card (suc fuel) (at b) inode buff o 0 r ≡ some (r + 0, buff, at b)
    unfolding fread_loop
    loop_end fuel b buff o r = let same : r + 0 ≡ r = omega arith in rw same refl

    fread_loop_lem :
        (fuel : ℕ) (b buff : Bytes) (o n r : ℕ)
        → n < fuel
        → n ≤ length buff
        → ((k : ℕ) → k < n → block_of (o + k) ≢ 0)
        → Done r o n buff (fread_loop card fuel (at b) inode buff o n r)
    fread_loop_lem zero b buff o n r h room found = absurd (omega arith)
    fread_loop_lem (suc fuel) b buff o zero r h room found = record {
      buff' = buff;
      buf = b;
      returns = loop_end fuel b buff o r;
      room = refl;
      nothing = λ z. refl;
      start = λ pos. absurd (omega arith);
    }
    fread_loop_lem (suc fuel) b buff o (suc n) r h room found =
        let c = chunk (o % 4096) (suc n) in
        let full = length-read_block card s (block_of o) has in
        let here : block_of o ≢ 0 = λ z. found 0 (omega arith) (ap block_of (omega arith) ∙ z) in
        let some_moved : 0 < c = ground arith in
        let within : c ≤ suc n = ground arith in
        let filled = slice (content o) (o % 4096) c ++ drop c buff in
        let moved : length (slice (content o) (o % 4096) c) ≡ c = ground (
          arith,
          length-take c (drop (o % 4096) (content o)),
          length-drop (o % 4096) (content o),
          full,
        ) in
        let kept : length filled ≡ length buff = omega (
          arith,
          length-append (slice (content o) (o % 4096) c) (drop c buff),
          moved,
          length-drop c buff,
          within,
        ) in
        let rest =
          fread_loop_lem fuel (content o) filled (o + c) (suc n - c) (r + c)
            (omega (arith, some_moved)) (omega (arith, kept))
            (λ k below z. found (c + k) (omega (arith, within)) (ap block_of (omega arith) ∙ z)) in
        Done-next o (suc n) r c buff filled _ (omega arith) refl some_moved within kept
          (take-append_all (slice (content o) (o % 4096) c) (drop c buff) c (sym moved))
          (subst (Done (r + c) (o + c) (suc n - c) filled)
            (sym
              (fread-step fuel b buff o (suc n) r (omega arith) here (omega (arith, within, room))))
            rest)

module _ {Disk : Type 0} (card : Card Disk) (s : FileSystem Disk) (fd : ℕ) (inode : Inode) where
  abbrev from : ℕ
  from = (s.fdesc_array fd).offset

  -- For a descriptor open for reading, with every block of the n bytes from its offset on
  -- allocated and room for n bytes in the buffer, do_fread ends, returns n, moves the offset on
  -- by n, and changes neither the card nor any other descriptor. The start of the buffer then
  -- holds the part of the n bytes that lies in their last block, which is all of them only if
  -- they are in one block.
  pub do_fread_lem :
      HasSectors card s.disk
      → read_inode card s (s.fdesc_array fd).inum ≡ some inode
      → (s.fdesc_array fd).read ≢ 0
      → (buff : Bytes) (n : ℕ) → n ≤ length buff
      → ((k : ℕ) → k < n → block_of card s inode (from + k) ≢ 0)
      → (buff' buf : Bytes) × (do_fread card s fd buff n
          ≡ some (
            pos n,
            buff',
            set_fdesc
                (record s { block_buf = buf })
                fd
                (record (s.fdesc_array fd) { offset = from + n }),
          ))
        × (0 < n
            → take (from + n - last_start from n) buff'
              ≡ slice
                  (content card s inode (last_start from n))
                  (last_start from n % 4096)
                  (from + n - last_start from n))
  unfolding do_fread
  do_fread_lem has known open_for buff n room found =
      let r =
        fread_loop_lem card s inode has (suc n) s.block_buf buff from n 0 (omega arith) room
          found in
      let test : ((s.fdesc_array fd).read == 0) ≡ false = ground (arith, open_for) in
      let sum : 0 + n ≡ n = omega arith in
      let ret = r.returns in (r.buff', r.buf, rw (test, known, ret, sum) refl, r.start)
