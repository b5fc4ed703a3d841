-- ===== src/Fs/Files/Seek.antt =====
-- `do_lseek`: the sum of the base and the offset, kept inside the file.
use ucas_os_kernel.Base.{
  ℕ, ◌^◌, ◌<◌, ◌≤◌, ◌≡◌, Option, some, arith, ap, ◌∙◌, ltb, ◌==◌, if◌then◌else◌,
}
use ucas_os_kernel.Base.Int.{ℤ, pos, negsuc, ◌+ℤ◌}
use ucas_os_kernel.Fs.{Card}
use ucas_os_kernel.Fs.Inode.{Inode, FileSystem, read_inode}
use ucas_os_kernel.Fs.Files.{
  to_int, wrap_int, seek_to, seek_set, seek_cur, to_u64, set_fdesc, do_lseek,
}

-- A position brought into the range from 0 to `size`.
abbrev pub clamp : (size : ℕ) → ℤ → ℕ
clamp size (negsuc n) = 0
clamp size (pos n) = if ltb size n then size else n

-- What an offset is counted from.
abbrev pub base : (size cur whence : ℕ) → ℕ
base size cur whence = if whence == seek_set then 0 else if whence == seek_cur then cur else size

-- In the range of an `int`.
abbrev pub IsInt : ℤ → Type 0
IsInt (pos n) = n < 2 ^ 31
IsInt (negsuc n) = n < 2 ^ 31

to_int_small : (n : ℕ) → n < 2 ^ 31 → to_int n ≡ pos n
unfolding to_int
to_int_small n h = ground arith

wrap_int-IsInt : (x : ℤ) → IsInt x → wrap_int x ≡ x
unfolding wrap_int to_int
wrap_int-IsInt (pos n) h = ground arith
wrap_int-IsInt (negsuc n) h = ground arith

+ℤ_comm : (a b : ℤ) → a +ℤ b ≡ b +ℤ a
unfolding ◌+ℤ◌
+ℤ_comm (pos a) (pos b) = ground arith
+ℤ_comm (pos a) (negsuc b) = ground arith
+ℤ_comm (negsuc a) (pos b) = ground arith
+ℤ_comm (negsuc a) (negsuc b) = ground arith

-- The sum behind the current offset, and the sum in front of the end.
from_cur_lem :
    (cur : ℕ) (offset : ℤ)
    → IsInt (pos cur +ℤ offset)
    → wrap_int (offset +ℤ pos cur) ≡ pos cur +ℤ offset
from_cur_lem cur offset h =
    ap wrap_int (+ℤ_comm offset (pos cur)) ∙ wrap_int-IsInt (pos cur +ℤ offset) h

from_end_lem :
    (size n : ℕ)
    → size < 2 ^ 31
    → n < 2 ^ 31
    → wrap_int (pos size +ℤ negsuc n) ≡ pos size +ℤ negsuc n
unfolding ◌+ℤ◌
from_end_lem size n h g = wrap_int-IsInt (pos size +ℤ negsuc n) (ground arith)

seek_to_lem :
    (size cur : ℕ) (unset offset : ℤ) (whence : ℕ)
    → cur ≤ size
    → size < 2 ^ 31
    → IsInt offset
    → IsInt (pos cur +ℤ offset)
    → whence ≤ 2
    → seek_to (to_int size) (to_int cur) unset offset whence
      ≡ pos (clamp size (pos (base size cur whence) +ℤ offset))
unfolding seek_to ◌+ℤ◌
seek_to_lem size cur unset (pos n) whence h b o c w =
    rw (to_int_small size b, to_int_small cur (omega arith))
      (ground (arith, from_cur_lem cur (pos n) c))
seek_to_lem size cur unset (negsuc n) whence h b o c w =
    rw (to_int_small size b, to_int_small cur (omega arith))
      (ground (arith, from_cur_lem cur (negsuc n) c, from_end_lem size n b o))

clamp-le : (size : ℕ) (x : ℤ) → clamp size x ≤ size
clamp-le size (pos n) = ground arith
clamp-le size (negsuc n) = omega arith

module _ {Disk : Type 0} (card : Card Disk) (s : FileSystem Disk) (unset : ℤ) (fd : ℕ)
    (inode : Inode) where
  -- For an open descriptor whose offset is inside its file, of fewer than 2^31 bytes, one of the
  -- three values of whence, and an offset that is an int and does not leave the range of an int
  -- when the old one is added, do_lseek returns and stores the sum of the start, the old offset
  -- or the size with the offset asked for, brought into the range from 0 to the size; nothing
  -- else of the state changes, and the new offset is inside the file again.
  pub do_lseek-clamp :
      read_inode card s (s.fdesc_array fd).inum ≡ some inode
      → (s.fdesc_array fd).offset ≤ inode.size
      → inode.size < 2 ^ 31
      → (offset : ℤ) (whence : ℕ) → IsInt offset
      → IsInt (pos (s.fdesc_array fd).offset +ℤ offset)
      → whence ≤ 2
      → let f = s.fdesc_array fd in
        let r = clamp inode.size (pos (base inode.size f.offset whence) +ℤ offset) in
        (do_lseek card s unset fd offset whence
          ≡ some (pos r, set_fdesc s fd (record f { offset = r })))
        × (r ≤ inode.size)
  unfolding do_lseek
  do_lseek-clamp known inside small offset whence o c w =
      let f = s.fdesc_array fd in
      let e = seek_to_lem inode.size f.offset unset offset whence inside small o c w in
      (
        rw known (
            ap
              (λ (x : ℤ).
                let y : Option (ℤ × FileSystem Disk) =
                  some (x, set_fdesc s fd (record f { offset = to_u64 x })) in
                y)
              e),
        clamp-le inode.size (pos (base inode.size f.offset whence) +ℤ offset),
      )
