-- ===== src/Fs/Dirs/Create.antt =====
-- A file that `do_touch` makes is the one that `parse_path` finds.
use ucas_os_kernel.Base.{
  ℕ, suc, ◌+◌, ◌*◌, ◌^◌, ◌<◌, ◌≤◌, ◌≡◌, ◌≢◌, refl, List, [], ◌∷◌, ◌++◌, some, arith, ap, ◌∙◌,
  length, length-append, has, false, true,
}
use ucas_os_kernel.Base.Bytes.{Bytes, AreBytes}
use ucas_os_kernel.Strings.Compare.{terminated, IsString}
use ucas_os_kernel.Fs.{Card, IsCard}
use ucas_os_kernel.Fs.Inode.{Inode, FileSystem, read_block, read_inode}
use ucas_os_kernel.Fs.Inode.Store.{HasSectors}
use ucas_os_kernel.Fs.Dentry.{Scan, parse_path}
use ucas_os_kernel.Fs.Dentry.Dir.{Entry, find_name, has_name, bytes_eq}
use ucas_os_kernel.Fs.Dirs.{take_inode, do_touch}
use ucas_os_kernel.Fs.Dirs.Enter.{Holds, new_entry}
use ucas_os_kernel.Fs.Dirs.Lookup.{lookup-append, parse_path-lookup}
use ucas_os_kernel.Fs.Dirs.Touch.{touched, do_touch_lem}

bytes_eq_refl : (xs : Bytes) → bytes_eq xs xs ≡ true
bytes_eq_refl [] = refl
bytes_eq_refl (x ∷ xs) = ground (arith, bytes_eq_refl xs)

module _ (open_shl : ℕ → ℕ) {Disk : Type 0} (card : Card Disk) (law : IsCard card)
    (s : FileSystem Disk) (has_sectors : HasSectors card s.disk) (b : ℕ)
    (maps : s.superblock.imap_offset < s.superblock.inode_offset)
    (inodes : s.superblock.inode_offset + 512 ≤ b * 8) (cwd : Inode) (c : ℕ) (more : List ℕ) (x : ℕ)
    (xs : Bytes) (es : List Entry) where
  -- In a directory, inode c + 1, whose first block holds a list of entries and has room, with a
  -- new name of 1 to 14 bytes without a slash, a free inode that is not the directory's, and a
  -- clock below 2^32, do_touch returns 0, and parse_path of the name then gives the new inode,
  -- which is an empty file.
  pub parse_path-do_touch :
      s.cwd_inum ≡ suc c
      → c < 4096
      → read_inode card s (suc c) ≡ some cwd
      → cwd.direct ≡ b ∷ more
      → Holds card s b es
      → length es < 112
      → find_name (x ∷ xs) 0 es ≡ Scan.unused (length es)
      → IsString (x ∷ xs)
      → AreBytes (x ∷ xs)
      → has b'/' (x ∷ xs) ≡ false
      → length (x ∷ xs) ≤ 14
      → (take_inode open_shl card s).0 ≤ 4096
      → suc c ≢ (take_inode open_shl card s).0
      → s.ticks < 2 ^ 32
      → (t : Bytes)
      → (s' : FileSystem Disk) × (do_touch open_shl card s (terminated (x ∷ xs) t) ≡ some (0, s'))
        × (parse_path card s' (terminated (x ∷ xs) t) (suc c)
            ≡ some ((take_inode open_shl card s).0, read_block card s' b))
        × (read_inode card s' (take_inode open_shl card s).0 ≡ some (touched s.ticks))
  parse_path-do_touch here small known direct holds room new string bytes plain short few apart now
        t =
      let inum = (take_inode open_shl card s).0 in
      let known_here : read_inode card s s.cwd_inum ≡ some cwd =
        ap (read_inode card s) here ∙ known in
      let made =
        do_touch_lem open_shl card law s has_sectors b maps inodes cwd more (x ∷ xs) t es known_here
          direct holds string new (omega (arith, room)) (omega (arith, short)) bytes few now in
      let all = es ++ (new_entry inum (x ∷ xs) ∷ []) in
      let found =
        parse_path-lookup card made.0 (suc c) cwd b more x xs t all (made.5 c small apart ∙ known)
          direct (λ e. omega (arith, e, inodes)) made.6 made.3
          (omega (arith, length-append es (new_entry inum (x ∷ xs) ∷ []), room)) string plain
          short in
      let is_new : has_name (x ∷ xs) (new_entry inum (x ∷ xs)) ≡ true = bytes_eq_refl (x ∷ xs) in
      (
        made.0,
        made.1,
        found
            ∙ ap (λ (n : ℕ). some (n, read_block card made.0 b))
                (lookup-append (x ∷ xs) 0 (length es) es (new_entry inum (x ∷ xs)) new is_new),
        made.2,
      )
