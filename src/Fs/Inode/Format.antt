-- ===== src/Fs/Inode/Format.antt =====
-- The layout of `inode_t`: what is written of an inode is read back.
use ucas_os_kernel.Base.{
  ℕ, ◌+◌, ◌*◌, ◌^◌, ◌<◌, ◌≡◌, refl, List, [], ◌∷◌, ◌++◌, arith, ap, ap₂, ◌∙◌, sym, length,
  length-append, take, drop, append_assoc, append-nil,
}
use ucas_os_kernel.Base.Bytes.{
  Bytes, AreBytes, le_bytes, le_value, length-le_bytes, le_bytes-AreBytes, le_value-le_bytes,
  append-AreBytes, take-append_all, drop-append, drop-drop, slice,
}
use ucas_os_kernel.Fs.Inode.{Inode, u32s, get_u32s, encode_inode, decode_inode}

abbrev pub AreU32 : List ℕ → Type 0
AreU32 [] = Unit {0}
AreU32 (v ∷ vs) = (v < 2 ^ 32) × AreU32 vs

-- The fields fit their widths.
pub record IsInode (i : Inode) : Type 0 where
  pub type : i.type < 2 ^ 16
  pub permission : i.permission < 2 ^ 16
  pub size : i.size < 2 ^ 32
  pub ref : i.ref < 2 ^ 32
  pub time_created : i.time_created < 2 ^ 32
  pub blocks : length i.direct ≡ 10
  pub direct : AreU32 i.direct
  pub indirect : i.indirect < 2 ^ 32
  pub double_indirect : i.double_indirect < 2 ^ 32

-- A number in front of a rest.
pub value-field :
    (n v : ℕ) (rest : Bytes) → v < 256 ^ n → le_value (take n (le_bytes n v ++ rest)) ≡ v
value-field n v rest h =
    ap le_value (take-append_all (le_bytes n v) rest n (sym (length-le_bytes n v)))
    ∙ le_value-le_bytes n v h

pub drop-field :
    (n v : ℕ) (rest : Bytes) (k : ℕ) → drop (n + k) (le_bytes n v ++ rest) ≡ drop k rest
drop-field n v rest k =
    ap (λ (m : ℕ). drop (m + k) (le_bytes n v ++ rest)) (sym (length-le_bytes n v))
    ∙ drop-append (le_bytes n v) rest k

pub length-u32s : (vs : List ℕ) → length (u32s vs) ≡ 4 * length vs
unfolding u32s
length-u32s [] = omega arith
length-u32s (v ∷ vs) =
    omega (arith, length-append (le_bytes 4 v) (u32s vs), length-le_bytes 4 v, length-u32s vs)

pub u32s-AreBytes : (vs : List ℕ) → AreBytes (u32s vs)
unfolding u32s
u32s-AreBytes [] = tt
u32s-AreBytes (v ∷ vs) = append-AreBytes _ _ (le_bytes-AreBytes 4 v) (u32s-AreBytes vs)

get_u32s-u32s :
    (vs : List ℕ) (rest : Bytes) → AreU32 vs → get_u32s (length vs) (u32s vs ++ rest) ≡ vs
unfolding u32s get_u32s
get_u32s-u32s [] rest h = refl
get_u32s-u32s (v ∷ vs) rest h = rw (append_assoc (le_bytes 4 v) (u32s vs) rest) (
    ap₂ (λ (a : ℕ) (zs : List ℕ). a ∷ zs) (value-field 4 v _ (omega (arith, h.0)))
      (ap (get_u32s (length vs)) (drop-field 4 v (u32s vs ++ rest) 0) ∙ get_u32s-u32s vs rest h.1))

pub length-encode : (i : Inode) → length i.direct ≡ 10 → length (encode_inode i) ≡ 64
unfolding encode_inode
length-encode i h = omega (arith, length-append {0}, length-le_bytes, length-u32s i.direct)

pub encode-AreBytes : (i : Inode) → AreBytes (encode_inode i)
unfolding encode_inode
encode-AreBytes i =
    let num = λ (n v : ℕ) (rest : Bytes) (h : AreBytes rest).
      append-AreBytes (le_bytes n v) rest (le_bytes-AreBytes n v) h in
    num 2 i.type _ (
      num 2 i.permission _ (
        num 4 i.size _ (
          num 4 i.ref _ (
            num 4 i.time_created _ (
              append-AreBytes _ _ (u32s-AreBytes i.direct)
                (num 4 i.indirect _ (le_bytes-AreBytes 4 i.double_indirect)))))))

module _ (i : Inode) (h : IsInode i) where
  -- What is left of an encoded inode behind its first fields.
  tail_blocks : Bytes
  tail_blocks = le_bytes 4 i.indirect ++ le_bytes 4 i.double_indirect

  at_direct : drop 16 (encode_inode i) ≡ u32s i.direct ++ tail_blocks
  unfolding encode_inode tail_blocks
  at_direct =
      drop-field 2 i.type _ 14
      ∙ drop-field 2 i.permission _ 12
      ∙ drop-field 4 i.size _ 8
      ∙ drop-field 4 i.ref _ 4
      ∙ drop-field 4 i.time_created _ 0

  behind_direct : (k : ℕ) → drop (56 + k) (encode_inode i) ≡ drop k tail_blocks
  unfolding encode_inode
  behind_direct k =
      ap (λ (m : ℕ). drop m (encode_inode i)) (omega arith)
      ∙ sym (drop-drop (40 + k) 16 (encode_inode i))
      ∙ ap (drop (40 + k)) at_direct
      ∙ ap (λ (m : ℕ). drop (m + k) (u32s i.direct ++ tail_blocks))
          (omega (arith, length-u32s i.direct, h.blocks))
      ∙ drop-append (u32s i.direct) tail_blocks k

  at_indirect : le_value (slice (encode_inode i) 56 4) ≡ i.indirect
  unfolding tail_blocks
  at_indirect =
      ap (λ (b : Bytes). le_value (take 4 b)) (behind_direct 0)
      ∙ value-field 4 i.indirect _ (omega (arith, h.indirect))

  at_double : le_value (slice (encode_inode i) 60 4) ≡ i.double_indirect
  unfolding tail_blocks
  at_double =
      ap (λ (b : Bytes). le_value (take 4 b))
        (behind_direct 4 ∙ drop-field 4 i.indirect (le_bytes 4 i.double_indirect) 0)
      ∙ ap (λ (b : Bytes). le_value (take 4 b)) (sym (append-nil (le_bytes 4 i.double_indirect)))
      ∙ value-field 4 i.double_indirect [] (omega (arith, h.double_indirect))

  direct_back : get_u32s 10 (drop 16 (encode_inode i)) ≡ i.direct
  direct_back = ap₂ get_u32s (sym h.blocks) at_direct ∙ get_u32s-u32s i.direct tail_blocks h.direct

  -- An inode whose fields fit their widths is what its 64 bytes say.
  pub decode-encode : decode_inode (encode_inode i) ≡ i
  unfolding decode_inode encode_inode
  decode-encode =
      let t = value-field 2 i.type _ (omega (arith, h.type)) in
      let p =
        ap (λ (b : Bytes). le_value (take 2 b)) (drop-field 2 i.type _ 0)
        ∙ value-field 2 i.permission _ (omega (arith, h.permission)) in
      let z =
        ap (λ (b : Bytes). le_value (take 4 b))
          (drop-field 2 i.type _ 2 ∙ drop-field 2 i.permission _ 0)
        ∙ value-field 4 i.size _ (omega (arith, h.size)) in
      let r =
        ap (λ (b : Bytes). le_value (take 4 b))
          (drop-field 2 i.type _ 6 ∙ drop-field 2 i.permission _ 4 ∙ drop-field 4 i.size _ 0)
        ∙ value-field 4 i.ref _ (omega (arith, h.ref)) in
      let c =
        ap (λ (b : Bytes). le_value (take 4 b))
          (drop-field 2 i.type _ 10
            ∙ drop-field 2 i.permission _ 8
            ∙ drop-field 4 i.size _ 4
            ∙ drop-field 4 i.ref _ 0)
        ∙ value-field 4 i.time_created _ (omega (arith, h.time_created)) in
      λ k. record {
        type = t k;
        permission = p k;
        size = z k;
        ref = r k;
        time_created = c k;
        direct = direct_back k;
        indirect = at_indirect k;
        double_indirect = at_double k;
      }
