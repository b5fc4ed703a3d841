-- ===== src/Mm/Pgtable/Vpn.antt =====
-- The three page numbers of an address, and the address of three page numbers.
use ucas_os_kernel.Base.{ℕ, ◌+◌, ◌-◌, ◌*◌, ◌/◌, ◌%◌, ◌^◌, ◌<◌, ◌≡◌, bit_and, bit_or, arith, ◌∙◌}
use ucas_os_kernel.Base.Bits.{bit_and_mask, bit_or_disjoint}
use ucas_os_kernel.Mm.Pgtable.{shl, vpn2_of, vpn1_of, vpn0_of, get_uva_from_vpns, page_offset}

pub vpn2_lem : (u : ℕ) → vpn2_of u ≡ u % 2 ^ 39 / 2 ^ 30
unfolding vpn2_of
vpn2_lem u = omega (arith, bit_and_mask 39 u)

pub vpn1_lem : (u : ℕ) → vpn1_of u ≡ u / 2 ^ 21 % 2 ^ 9
unfolding vpn1_of
vpn1_lem u = omega (arith, bit_and_mask 39 u, bit_and_mask 9 (bit_and u (2 ^ 39 - 1) / 2 ^ 21))

pub vpn0_lem : (u : ℕ) → vpn0_of u ≡ u / 2 ^ 12 % 2 ^ 9
unfolding vpn0_of
vpn0_lem u = omega (arith, bit_and_mask 39 u, bit_and_mask 9 (bit_and u (2 ^ 39 - 1) / 2 ^ 12))

pub uva_lem :
    (v2 v1 v0 : ℕ)
    → v2 < 512
    → v1 < 512
    → v0 < 512
    → get_uva_from_vpns v2 v1 v0 ≡ v2 * 2 ^ 30 + v1 * 2 ^ 21 + v0 * 2 ^ 12
unfolding get_uva_from_vpns
uva_lem v2 v1 v0 h2 h1 h0 =
    let e2 : shl v2 18 ≡ v2 * 2 ^ 18 = omega arith in
    let e1 : shl v1 9 ≡ v1 * 2 ^ 9 = omega arith in
    let first : bit_or (shl v2 18) (shl v1 9) ≡ (v2 * 2 ^ 9 + v1) * 2 ^ 9 =
      rw (e2, e1) (bit_or_disjoint 18 v2 (v1 * 2 ^ 9) (omega arith) ∙ omega arith) in
    rw (first, bit_or_disjoint 9 (v2 * 2 ^ 9 + v1) v0 h0) (omega arith)

-- The address made of three 9-bit page numbers has these page numbers.
pub vpns_roundtrip :
    (v2 v1 v0 : ℕ)
    → v2 < 512
    → v1 < 512
    → v0 < 512
    → (vpn2_of (get_uva_from_vpns v2 v1 v0) ≡ v2)
      × (vpn1_of (get_uva_from_vpns v2 v1 v0) ≡ v1)
      × (vpn0_of (get_uva_from_vpns v2 v1 v0) ≡ v0)
vpns_roundtrip v2 v1 v0 h2 h1 h0 =
    rw (uva_lem v2 v1 v0 h2 h1 h0, vpn2_lem, vpn1_lem, vpn0_lem)
      (omega arith, omega arith, omega arith)

-- A 39-bit address is the address made of its three page numbers plus its offset.
pub uva_roundtrip :
    (u : ℕ) → u < 2 ^ 39 → get_uva_from_vpns (vpn2_of u) (vpn1_of u) (vpn0_of u) + page_offset u ≡ u
unfolding page_offset
uva_roundtrip u h =
    rw
      (
        vpn2_lem,
        vpn1_lem,
        vpn0_lem,
        uva_lem (u % 2 ^ 39 / 2 ^ 30) (u / 2 ^ 21 % 2 ^ 9) (u / 2 ^ 12 % 2 ^ 9) (omega arith)
            (omega arith) (omega arith),
        bit_and_mask 12 u,
      )
      (omega arith)
