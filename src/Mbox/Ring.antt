-- ===== src/Mbox/Ring.antt =====
-- The ring buffer of a mailbox: what sending writes and receiving reads.
use ucas_os_kernel.Base.{
  ℕ, zero, suc, ◌+◌, ◌*◌, ◌%◌, ◌<◌, ◌≤◌, ◌≡◌, refl, ◌≢◌, [], ◌∷◌, arith, ap, sym, ◌∙◌, length, set,
  get_or, leb, Bool-cases, inl, inr, length-set,
}
use ucas_os_kernel.Base.Int.{sub_ℕ, ◌+ℤ◌, ◌*ℤ◌}
use ucas_os_kernel.Kernel.{Mailbox}
use ucas_os_kernel.Strings.{Bytes}
use ucas_os_kernel.Mbox.{max_mbox_length, written, put_byte, put_bytes, get_byte, get_bytes}

-- How many bytes the counters say were ever written and read.
abbrev pub total_written : Mailbox → ℕ
total_written m = m.round_write * max_mbox_length + m.nwrite

abbrev pub total_read : Mailbox → ℕ
total_read m = m.round_read * max_mbox_length + m.nread

pub record IsMbox (m : Mailbox) : Type 0 where
  pub nread : m.nread < max_mbox_length
  pub nwrite : m.nwrite < max_mbox_length
  pub buf : length m.buf ≡ max_mbox_length

pub written_lem : (m : Mailbox) → written m ≡ sub_ℕ (total_written m) (total_read m)
unfolding ◌+ℤ◌ ◌*ℤ◌
written_lem m = ground arith

get_or-set_self : (xs : Bytes) (i v d : ℕ) → i < length xs → get_or (set xs i v) i d ≡ v
get_or-set_self [] i v d h = absurd (omega arith)
get_or-set_self (x ∷ xs) zero v d h = refl
get_or-set_self (x ∷ xs) (suc i) v d h = get_or-set_self xs i v d (omega arith)

get_or-set_ne : (xs : Bytes) (i j v d : ℕ) → i ≢ j → get_or (set xs i v) j d ≡ get_or xs j d
get_or-set_ne [] i j v d h = refl
get_or-set_ne (x ∷ xs) zero zero v d h = absurd (h refl)
get_or-set_ne (x ∷ xs) zero (suc j) v d h = refl
get_or-set_ne (x ∷ xs) (suc i) zero v d h = refl
get_or-set_ne (x ∷ xs) (suc i) (suc j) v d h = get_or-set_ne xs i j v d (λ e. h (ap suc e))

-- One byte more, and where it went.
put_byte_lem :
    (m : Mailbox) (c : ℕ)
    → IsMbox m
    → IsMbox (put_byte m c)
      × (total_written (put_byte m c) ≡ total_written m + 1)
      × (total_read (put_byte m c) ≡ total_read m)
      × ((put_byte m c).nwrite ≡ (m.nwrite + 1) % max_mbox_length)
      × ((put_byte m c).buf ≡ set m.buf m.nwrite c)
put_byte_lem m c i = elim (Bool-cases (leb max_mbox_length (m.nwrite + 1))) [
  | inl e ↦ rw e (
    record { nread = i.nread; nwrite = omega arith; buf = length-set m.buf m.nwrite c ∙ i.buf },
    ground (arith, i.nwrite),
    refl,
    refl,
    refl,
  )
  | inr e ↦ rw e (
    record { nread = i.nread; nwrite = ground arith; buf = length-set m.buf m.nwrite c ∙ i.buf },
    omega arith,
    refl,
    ground (arith, i.nwrite),
    refl,
  )
]

-- Sending counts each byte once.
pub put_bytes_lem :
    (m : Mailbox) (msg : Bytes)
    → IsMbox m
    → IsMbox (put_bytes m msg)
      × (total_written (put_bytes m msg) ≡ total_written m + length msg)
      × (total_read (put_bytes m msg) ≡ total_read m)
unfolding put_bytes
put_bytes_lem m [] i = (i, omega arith, refl)
put_bytes_lem m (c ∷ msg) i =
    let p = put_byte_lem m c i in
    let r = put_bytes_lem (put_byte m c) msg p.0 in (r.0, omega (arith, r.1, p.1), r.2 ∙ p.2)

-- Places that the message does not reach stay.
pub put_bytes-frame :
    (m : Mailbox) (msg : Bytes) (place : ℕ)
    → IsMbox m
    → ((t : ℕ) → t < length msg → (m.nwrite + t) % max_mbox_length ≢ place)
    → get_or (put_bytes m msg).buf place 0 ≡ get_or m.buf place 0
unfolding put_bytes
put_bytes-frame m [] place i away = refl
put_bytes-frame m (c ∷ msg) place i away =
    let p = put_byte_lem m c i in
    let here : m.nwrite ≢ place = λ e. away 0 (omega arith) (omega (arith, e, i.nwrite)) in
    let rest : (t : ℕ) → t < length msg → ((put_byte m c).nwrite + t) % max_mbox_length ≢ place =
      λ t h e. away (t + 1) (omega arith) (omega (arith, e, p.3)) in
    put_bytes-frame (put_byte m c) msg place p.0 rest
    ∙ ap (λ (b : Bytes). get_or b place 0) p.4
    ∙ get_or-set_ne m.buf m.nwrite place c 0 here

-- Each byte j of a message of at most 64 bytes, sent into a well-formed mailbox, stands in the
-- buffer at nwrite + j modulo 64.
pub put_bytes-place :
    (m : Mailbox) (msg : Bytes) (j : ℕ)
    → IsMbox m
    → length msg ≤ max_mbox_length
    → j < length msg
    → get_or (put_bytes m msg).buf ((m.nwrite + j) % max_mbox_length) 0 ≡ get_or msg j 0
unfolding put_bytes
put_bytes-place m [] j i h g = absurd (omega arith)
put_bytes-place m (c ∷ msg) zero i h g =
    let p = put_byte_lem m c i in
    let at : (m.nwrite + 0) % max_mbox_length ≡ m.nwrite = omega (arith, i.nwrite) in
    let away : (t : ℕ) → t < length msg → ((put_byte m c).nwrite + t) % max_mbox_length ≢ m.nwrite =
      λ t l e. omega (arith, e, p.3, i.nwrite) in
    rw at (
      put_bytes-frame (put_byte m c) msg m.nwrite p.0 away
      ∙ ap (λ (b : Bytes). get_or b m.nwrite 0) p.4
      ∙ get_or-set_self m.buf m.nwrite c 0 (omega (arith, i.nwrite, i.buf)))
put_bytes-place m (c ∷ msg) (suc j) i h g =
    let p = put_byte_lem m c i in
    let at : ((put_byte m c).nwrite + j) % max_mbox_length ≡ (m.nwrite + suc j) % max_mbox_length =
      omega (arith, p.3) in
    ap (λ (n : ℕ). get_or (put_bytes (put_byte m c) msg).buf n 0) (sym at)
    ∙ put_bytes-place (put_byte m c) msg j p.0 (omega arith) (omega arith)

get_byte_lem :
    (m : Mailbox)
    → IsMbox m
    → IsMbox (get_byte m).1
      × (total_read (get_byte m).1 ≡ total_read m + 2)
      × (total_written (get_byte m).1 ≡ total_written m)
      × ((get_byte m).1.nread ≡ (m.nread + 2) % max_mbox_length)
      × ((get_byte m).1.buf ≡ m.buf)
get_byte_lem m i = elim (Bool-cases (leb max_mbox_length (m.nread + 1 + 1))) [
  | inl e ↦ rw e (
    record { nread = omega arith; nwrite = i.nwrite; buf = i.buf },
    ground (arith, i.nread),
    refl,
    omega arith,
    refl,
  )
  | inr e ↦ rw e (
    record { nread = ground arith; nwrite = i.nwrite; buf = i.buf },
    omega arith,
    refl,
    ground (arith, i.nread),
    refl,
  )
]

-- Receiving counts each byte twice.
pub get_bytes_lem :
    (m : Mailbox) (n : ℕ)
    → IsMbox m
    → IsMbox (get_bytes m n).1
      × (total_read (get_bytes m n).1 ≡ total_read m + 2 * n)
      × (total_written (get_bytes m n).1 ≡ total_written m)
unfolding get_bytes
get_bytes_lem m zero i = (i, omega arith, refl)
get_bytes_lem m (suc n) i =
    let g = get_byte_lem m i in
    let r = get_bytes_lem (get_byte m).1 n g.0 in (r.0, omega (arith, r.1, g.1), r.2 ∙ g.2)

-- The byte that is received in place j.
pub get_bytes-place :
    (m : Mailbox) (n j : ℕ)
    → IsMbox m
    → j < n
    → get_or (get_bytes m n).0 j 0 ≡ get_or m.buf ((m.nread + 2 * j) % max_mbox_length) 0
unfolding get_bytes
get_bytes-place m zero j i h = absurd (omega arith)
get_bytes-place m (suc n) zero i h = ap (λ (p : ℕ). get_or m.buf p 0) (omega (arith, i.nread))
get_bytes-place m (suc n) (suc j) i h =
    let g = get_byte_lem m i in
    get_bytes-place (get_byte m).1 n j g.0 (omega arith)
    ∙ ap (λ (b : Bytes). get_or b (((get_byte m).1.nread + 2 * j) % max_mbox_length) 0) g.4
    ∙ ap (λ (p : ℕ). get_or m.buf p 0) (omega (arith, g.3))
