-- ===== src/Mbox.antt =====
-- Mailboxes: the second half of kernel/locking/lock.c.
pub mod Ring
pub mod Send
pub mod Open
use ucas_os_kernel.Base.{
  ℕ, zero, suc, ◌+◌, ◌*◌, ◌%◌, Bool, true, false, List, [], ◌∷◌, Option, none, some, ◌>>=◌, leb,
  ◌==◌, upd, length, replicate, set, get_or, if◌then◌else◌,
}
use ucas_os_kernel.Base.Int.{ℤ, pos, negsuc, ◌+ℤ◌, ◌-ℤ◌, ◌*ℤ◌, sub_ℕ, ltb_ℤ}
use ucas_os_kernel.Queue.{Ptr, init_list_head}
use ucas_os_kernel.Layout.{Layout, pcb_list, list_fuel}
use ucas_os_kernel.Mm.State.{Bios}
use ucas_os_kernel.Kernel.{Mailbox, Kernel, links, set_links}
use ucas_os_kernel.Sched.{do_block}
use ucas_os_kernel.Strings.{Bytes, strcmp, strcpy}
use ucas_os_kernel.Lock.{do_mutex_lock_release, do_mutex_lock_acquire, unblock_all}

abbrev pub max_mbox_length : ℕ
max_mbox_length = 64

abbrev pub mbox_num : ℕ
mbox_num = 16

-- The bytes in the buffer, as the counters have it.
abbrev pub written : Mailbox → ℤ
written m = sub_ℕ m.round_write m.round_read *ℤ pos max_mbox_length +ℤ sub_ℕ m.nwrite m.nread

unfoldable pub can_write_to_buffer : Mailbox → (msg_len : ℕ) → Bool
can_write_to_buffer m msg_len =
    if ltb_ℤ (pos max_mbox_length) (pos msg_len +ℤ written m) then false else true

unfoldable pub can_read_from_buffer : Mailbox → (msg_len : ℕ) → Bool
can_read_from_buffer m msg_len = if ltb_ℤ (written m) (pos msg_len) then false else true

-- One round of the loop of `do_mbox_send`.
abbrev pub put_byte : Mailbox → ℕ → Mailbox
put_byte m c =
    let m1 = record m { buf = set m.buf m.nwrite c; nwrite = m.nwrite + 1 } in
    if leb max_mbox_length m1.nwrite
    then record m1 { nwrite = m1.nwrite % max_mbox_length; round_write = m1.round_write + 1 }
    else m1

unfoldable pub put_bytes : Mailbox → Bytes → Mailbox
put_bytes m [] = m
put_bytes m (c ∷ msg) = put_bytes (put_byte m c) msg

-- One round of the loop of `do_mbox_recv`: the byte, and the mailbox. `nread` goes up twice.
abbrev pub get_byte : Mailbox → ℕ × Mailbox
get_byte m =
    let c = get_or m.buf m.nread 0 in
    let m1 = record m { nread = m.nread + 1 } in
    let m2 = record m1 { nread = m1.nread + 1 } in
    (
      c,
      if leb max_mbox_length m2.nread
          then record m2 { nread = m2.nread % max_mbox_length; round_read = m2.round_read + 1 }
          else m2,
    )

unfoldable pub get_bytes : Mailbox → (msg_length : ℕ) → Bytes × Mailbox
get_bytes m zero = ([], m)
get_bytes m (suc n) = let (c, m1) = get_byte m in let (rest, m2) = get_bytes m1 n in (c ∷ rest, m2)

-- What `init_mbox` and `do_mbox_close` write.
abbrev pub clear_mbox : Mailbox → Mailbox
clear_mbox m = record m {
  name = replicate 32 0;
  buf = replicate max_mbox_length 0;
  mutex_id = negsuc 0;
  nread = 0;
  nwrite = 0;
  round_read = 0;
  round_write = 0;
}

-- The search of `do_mbox_open` by name, with `n` rounds left from index `i` on: `some none` if no
-- mailbox has the name, `none` if a comparison runs out of a buffer.
unfoldable pub find_name : (ℕ → Mailbox) → (n i : ℕ) → (name : Bytes) → Option (Option ℕ)
find_name boxes zero i name = some none
find_name boxes (suc n) i name =
    let rest = find_name boxes n (i + 1) name in
    (strcmp name (boxes i).name >>= λ d. (elim d [
      | pos m ↦ if m == 0 then some (some i) else rest
      | negsuc m ↦ rest
    ]))

-- The search for a mailbox that is not used.
unfoldable pub find_unused : (ℕ → Mailbox) → (n i : ℕ) → Option ℕ
find_unused boxes zero i = none
find_unused boxes (suc n) i =
    let rest = find_unused boxes n (i + 1) in
    elim ((boxes i).ref) [ pos m ↦ if m == 0 then some i else rest | negsuc m ↦ rest ]

module _ {Disk : Type 0} where
  abbrev pub set_mbox : Kernel Disk → ℕ → Mailbox → Kernel Disk
  set_mbox k i m = record k { mailboxes = upd k.mailboxes i m }

  abbrev pub take_ref : Kernel Disk → ℕ → ℤ × Kernel Disk
  take_ref k i =
      (pos i, set_mbox k i (record (k.mailboxes i) { ref = (k.mailboxes i).ref +ℤ pos 1 }))

  -- The mailbox's index, or -1, and the state.
  unfoldable pub do_mbox_open : Kernel Disk → (name : Bytes) → Option (ℤ × Kernel Disk)
  do_mbox_open k name = do
    found ← find_name k.mailboxes mbox_num 0 name
    elim found [
      | some i ↦ some (take_ref k i)
      | none ↦ elim (find_unused k.mailboxes mbox_num 0) [
        | none ↦ some (negsuc 0, k)
        | some i ↦ do
          copy ← strcpy (k.mailboxes i).name name
          some
              (take_ref (set_mbox k i (record (k.mailboxes i) { name = copy; mutex_id = pos i })) i)
      ]
    ]

-- A mailbox's mutex by its number, `none` where the number is no index.
abbrev pub mutex_of : ℤ → Option ℕ
mutex_of (pos i) = some i
mutex_of (negsuc n) = none

module _ {Disk : Type 0} (y : Layout) where
  unfoldable pub init_mbox_from : (n i : ℕ) → Kernel Disk → Kernel Disk
  init_mbox_from zero i k = k
  init_mbox_from (suc n) i k =
      let k1 = set_mbox k i (record (clear_mbox (k.mailboxes i)) { ref = pos 0 }) in
      let k2 = set_links k1 (init_list_head (links k1) (y.send_list i)) in
      init_mbox_from n (i + 1) (set_links k2 (init_list_head (links k2) (y.recv_list i)))

  unfoldable pub init_mbox : Kernel Disk → Kernel Disk
  init_mbox k = init_mbox_from mbox_num 0 k

  unfoldable pub do_mbox_close : Kernel Disk → (mbox_idx : ℕ) → Option (Kernel Disk)
  do_mbox_close k i =
      let m = record (k.mailboxes i) { ref = (k.mailboxes i).ref -ℤ pos 1 } in
      elim (m.ref) [
        | pos r ↦
            if r == 0
            then (mutex_of m.mutex_id >>= λ j.
                some (set_mbox (do_mutex_lock_release y (set_mbox k i m) j) i (clear_mbox m)))
            else some (set_mbox k i m)
        | negsuc r ↦ some (set_mbox k i m)
      ]

module _ {Disk : Type 0} (bios : Bios Disk) (y : Layout) where
  -- `do_mbox_send` from where it has the mutex; `msg` is the message's bytes. Where there is no room the task gives up the mutex
  -- and waits; when it runs again it acquires the mutex and comes here again. Whether it is done.
  unfoldable pub mbox_send_locked :
      Kernel Disk → (mbox_idx mutex_id : ℕ) → (msg : Bytes) → Option (Bool × Kernel Disk)
  mbox_send_locked k i j msg =
      let k1 = do_mutex_lock_release y k j in
      let waiting = do_block bios y k1 (pcb_list k1.current_running) (y.send_list i) in
      let sent = set_mbox k i (put_bytes (k.mailboxes i) msg) in
      let woken = unblock_all y list_fuel sent (y.recv_list i) in
      if can_write_to_buffer (k.mailboxes i) (length msg)
      then (woken >>= λ k2. some (true, do_mutex_lock_release y k2 j))
      else (waiting >>= λ k2. some (false, k2))

  -- The same for `do_mbox_recv`, with the message.
  unfoldable pub mbox_recv_locked :
      Kernel Disk → (mbox_idx mutex_id msg_length : ℕ) → Option (Option Bytes × Kernel Disk)
  mbox_recv_locked k i j msg_length =
      let k1 = do_mutex_lock_release y k j in
      let waiting = do_block bios y k1 (pcb_list k1.current_running) (y.recv_list i) in
      let (msg, m) = get_bytes (k.mailboxes i) msg_length in
      let woken = unblock_all y list_fuel (set_mbox k i m) (y.send_list i) in
      if can_read_from_buffer (k.mailboxes i) msg_length
      then (woken >>= λ k2. some (some msg, do_mutex_lock_release y k2 j))
      else (waiting >>= λ k2. some (none, k2))
