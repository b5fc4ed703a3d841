-- ===== src/Fs/Blocks/Slots.antt =====
-- The places of a file's blocks in the index blocks, and a change in the list of direct blocks.
use ucas_os_kernel.Base.{
  ℕ, zero, suc, ◌-◌, ◌/◌, ◌%◌, ◌^◌, ◌<◌, ◌≤◌, ◌≡◌, ◌≢◌, refl, arith, ◌∙◌, length, get_or, set,
  length-set, List, [], ◌∷◌, true, false, ltb, ◌==◌, if◌then◌else◌,
}
use ucas_os_kernel.Fs.Inode.{Inode}
use ucas_os_kernel.Fs.Inode.Format.{IsInode, AreU32}

-- Block `k` of a file, from 10 on, is entry `slot k` of index block `group k`.
abbrev pub group : ℕ → ℕ
group k = if ltb k 1034 then 0 else suc ((k - 1034) / 1024)

abbrev pub slot : ℕ → ℕ
slot k = if ltb k 1034 then k - 10 else (k - 1034) % 1024

pub slot-lt : (k : ℕ) → slot k < 1024
slot-lt k = ground arith

pub group-slot : (k l : ℕ) → 10 ≤ k → 10 ≤ l → group k ≡ group l → slot k ≡ slot l → k ≡ l
group-slot k l a b g e = ground arith

pub ==-same : (a : ℕ) → (a == a) ≡ true
==-same a = ground arith

pub ==-apart : (a b : ℕ) → a ≢ b → (a == b) ≡ false
==-apart a b h = ground arith

pub ==→≢ : (a b : ℕ) → (a == b) ≡ false → a ≢ b
==→≢ a b h e = ground arith

pub get_or-set :
    (xs : List ℕ) (i v j : ℕ)
    → i < length xs
    → get_or (set xs i v) j 0 ≡ (if j == i then v else get_or xs j 0)
get_or-set [] i v j h = absurd (omega arith)
get_or-set (x ∷ xs) zero v zero h = refl
get_or-set (x ∷ xs) zero v (suc j) h = ground arith
get_or-set (x ∷ xs) (suc i) v zero h = ground arith
get_or-set (x ∷ xs) (suc i) v (suc j) h = get_or-set xs i v j (omega arith) ∙ ground arith

pub set-AreU32 : (xs : List ℕ) (i v : ℕ) → v < 2 ^ 32 → AreU32 xs → AreU32 (set xs i v)
set-AreU32 [] i v h k = k
set-AreU32 (x ∷ xs) zero v h k = (h, k.1)
set-AreU32 (x ∷ xs) (suc i) v h k = (k.0, set-AreU32 xs i v h k.1)

pub set-IsInode :
    (inode : Inode) (i v : ℕ)
    → v < 2 ^ 32
    → IsInode inode
    → IsInode (record inode { direct = set inode.direct i v })
set-IsInode inode i v h ok = record {
  type = ok.type;
  permission = ok.permission;
  size = ok.size;
  ref = ok.ref;
  time_created = ok.time_created;
  blocks = length-set inode.direct i v ∙ ok.blocks;
  direct = set-AreU32 inode.direct i v h ok.direct;
  indirect = ok.indirect;
  double_indirect = ok.double_indirect;
}
