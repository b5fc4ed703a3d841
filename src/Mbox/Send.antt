-- ===== src/Mbox/Send.antt =====
-- `do_mbox_send` and `do_mbox_recv` once they have the mutex, and one after the other.
use ucas_os_kernel.Base.{
  ℕ, ◌+◌, ◌*◌, ◌%◌, ◌<◌, ◌≤◌, ◌≡◌, refl, ◌≢◌, Bool, true, List, [], some, arith, ap, sym, ◌∙◌,
  length, get_or, ◌==◌, keep-none, keep, keep-has, has, has-append, false, fun_ext, ◌↔◌,
}
use ucas_os_kernel.Base.Int.{sub_ℕ, ◌+ℤ◌}
use ucas_os_kernel.Queue.{Ptr}
use ucas_os_kernel.Queue.Rep.{View}
use ucas_os_kernel.Layout.{Layout, pcb_entry}
use ucas_os_kernel.Mm.State.{Bios}
use ucas_os_kernel.Kernel.{ready, Mailbox, Kernel}
use ucas_os_kernel.Sched.{do_unblock}
use ucas_os_kernel.Sched.System.{TaskQueue, IsSystem}
use ucas_os_kernel.Strings.{Bytes}
use ucas_os_kernel.Lock.Handover.{lock_view, release_view, IsHeld, release_lem, release-mailboxes}
use ucas_os_kernel.Lock.Waking.{unblock_all_lem}
use ucas_os_kernel.Lock.{do_mutex_lock_release}
use ucas_os_kernel.Mbox.{
  max_mbox_length, written, put_bytes, get_bytes, can_write_to_buffer, can_read_from_buffer,
  mbox_send_locked, set_mbox,
}
use ucas_os_kernel.Mbox.Ring.{
  IsMbox, total_written, total_read, written_lem, put_bytes_lem, put_bytes-place, get_bytes_lem,
  get_bytes-place,
}

-- The guard of do_mbox_send lets a message of n bytes through exactly if n and all bytes written
-- are at most 64 more than all bytes read, counted over all rounds.
pub can_write_lem :
    (m : Mailbox) (n : ℕ)
    → (can_write_to_buffer m n ≡ true) ↔ (n + total_written m ≤ max_mbox_length + total_read m)
unfolding can_write_to_buffer ◌+ℤ◌
can_write_lem m n = rw (written_lem m) ((λ h. ground arith), (λ h. ground arith))

pub can_read_lem :
    (m : Mailbox) (n : ℕ) → (can_read_from_buffer m n ≡ true) ↔ (n + total_read m ≤ total_written m)
unfolding can_read_from_buffer
can_read_lem m n = rw (written_lem m) ((λ h. ground arith), (λ h. ground arith))

-- When a message of at most 64 bytes is sent into a well-formed mailbox that holds nothing and
-- received again, byte j received is byte 2 j sent, where there is one, and the count of bytes
-- in the mailbox is then minus the length of the message.
pub get-put :
    (m : Mailbox) (msg : Bytes) (j : ℕ)
    → IsMbox m
    → total_written m ≡ total_read m
    → length msg ≤ max_mbox_length
    → 2 * j < length msg
    → (get_or (get_bytes (put_bytes m msg) (length msg)).0 j 0 ≡ get_or msg (2 * j) 0)
      × (written (get_bytes (put_bytes m msg) (length msg)).1 ≡ sub_ℕ 0 (length msg))
get-put m msg j i e h g =
    let p = put_bytes_lem m msg i in
    let r = get_bytes_lem (put_bytes m msg) (length msg) p.0 in
    let spot : ((put_bytes m msg).nread + 2 * j) % max_mbox_length
        ≡ (m.nwrite + 2 * j) % max_mbox_length =
      omega (arith, p.2, e, i.nread, i.nwrite, p.0.nread) in
    (
      get_bytes-place (put_bytes m msg) (length msg) j p.0 (omega arith)
          ∙ ap (λ (s : ℕ). get_or (put_bytes m msg).buf s 0) spot
          ∙ put_bytes-place m msg (2 * j) i h g,
      written_lem (get_bytes (put_bytes m msg) (length msg)).1
          ∙ ground (arith, r.1, r.2, p.1, p.2, e),
    )

module _ {Disk : Type 0} (y : Layout) (k : Kernel Disk) (j : ℕ) where
  release-ready :
      (p : Ptr)
      → (k.pcb_at p).status ≡ ready
      → ((do_mutex_lock_release y k j).pcb_at p).status ≡ ready
  unfolding do_mutex_lock_release do_unblock
  release-ready p h = ground arith

module _ {Disk : Type 0} (bios : Bios Disk) (y : Layout) {is_head : Ptr → Bool} {nodes : List Ptr}
    (k : Kernel Disk) (q : View) (i j : ℕ) (s : IsSystem y is_head nodes k.mm q)
    (t : TaskQueue y is_head (y.recv_list i)) (l : TaskQueue y is_head (y.block_queue j)) where
  -- In a well-formed kernel, where the task has the mutex of a well-formed mailbox, nobody waits
  -- for the mutex while it is free, the queues are distinct task queues, and a message of at
  -- most 64 bytes passes the guard, do_mbox_send ends without a fault: byte b of the message
  -- stands in the buffer b places behind the old writing place, modulo 64, the count of bytes
  -- written is up by the length, the count of bytes read and the other mailboxes are the same,
  -- all waiting receivers are in the ready queue and ready, and the mutex is given on as a
  -- release does.
  pub mbox_send_lem :
      (msg : Bytes)
      → y.ready_queue ≢ y.recv_list i
      → y.block_queue j ≢ y.ready_queue
      → y.block_queue j ≢ y.recv_list i
      → IsHeld y k q j
      → can_write_to_buffer (k.mailboxes i) (length msg) ≡ true
      → IsMbox (k.mailboxes i)
      → length msg ≤ max_mbox_length
      → (k' : Kernel Disk) × (q' : View) × (mbox_send_locked bios y k i j msg ≡ some (true, k'))
        × IsSystem y is_head nodes k'.mm q'
        × IsMbox (k'.mailboxes i)
        × (total_written (k'.mailboxes i) ≡ total_written (k.mailboxes i) + length msg)
        × (total_read (k'.mailboxes i) ≡ total_read (k.mailboxes i))
        × ((b : ℕ)
            → b < length msg
            → get_or (k'.mailboxes i).buf (((k.mailboxes i).nwrite + b) % max_mbox_length) 0
              ≡ get_or msg b 0)
        × ((r : ℕ) → r ≢ i → k'.mailboxes r ≡ k.mailboxes r)
        × (q' (y.recv_list i) ≡ [])
        × ((n : Ptr)
            → has n (q (y.recv_list i)) ≡ true
            → (has n (q' y.ready_queue) ≡ true) × ((k'.pcb_at (pcb_entry n)).status ≡ ready))
        × (lock_view y k' q' j
            ≡ release_view (λ n. (k.pcb_at (pcb_entry n)).pid) (lock_view y k q j))
  unfolding mbox_send_locked
  mbox_send_lem msg rr br bl h room ok short =
      let self : (i == i) ≡ true = ground arith in
      let sent = set_mbox k i (put_bytes (k.mailboxes i) msg) in
      let w = unblock_all_lem y is_head nodes (y.recv_list i) sent q t rr s in
      let k2 = w.0 in
      let locks : k2.mlocks ≡ k.mlocks = ap {A = Kernel Disk} (λ k. k.mlocks) w.3.state in
      let boxes : k2.mailboxes ≡ sent.mailboxes =
        ap {A = Kernel Disk} (λ k. k.mailboxes) w.3.state in
      let queue : w.1 (y.block_queue j) ≡ q (y.block_queue j) =
        w.3.others (y.block_queue j) br bl in
      let r = release_lem y k2 w.1 j w.3.system l br (λ u. queue ∙ h (ground (arith, locks, u))) in
      let kept = release-mailboxes y k2 j in
      let pid_of = λ (n : Ptr). (k.pcb_at (pcb_entry n)).pid in
      let same : (n : Ptr) → (k2.pcb_at (pcb_entry n)).pid ≡ pid_of n =
        λ n. w.3.pids (pcb_entry n) in
      let before : lock_view y k2 w.1 j ≡ lock_view y k q j = rw (locks, queue) refl in
      let box : (do_mutex_lock_release y k2 j).mailboxes i ≡ put_bytes (k.mailboxes i) msg =
        rw (kept, boxes, self) refl in
      let p = put_bytes_lem (k.mailboxes i) msg ok in
      rw (room, w.2)
        (
          do_mutex_lock_release y k2 j,
          r.0,
          refl,
          r.1.system,
          rw box p.0,
          rw box p.1,
          rw box p.2,
          λ b g. rw box (put_bytes-place (k.mailboxes i) msg b ok short g),
          λ r g. (let other : (r == i) ≡ false = ground arith in rw (kept, boxes, other) refl),
          r.1.lists (y.recv_list i) (λ e. bl (sym e)) (λ e. rr (sym e))
              ∙ w.3.asleep
              ∙ keep-none (q (y.recv_list i)),
          λ n g.
              (let all : has n (keep (λ m. true) (q (y.recv_list i))) ≡ true =
                  keep-has (λ m. true) (q (y.recv_list i)) n g refl in
                (
                  r.1.stays_ready n (
                      ap (has n) w.3.woken
                      ∙ has-append n (q y.ready_queue) (keep (λ m. true) (q (y.recv_list i)))
                      ∙ rw all (ground arith)),
                  release-ready y k2 j (pcb_entry n) (w.3.set_ready n all),
                )),
          r.1.view
              ∙ ap (λ (f : Ptr → ℕ). release_view f (lock_view y k2 w.1 j)) (fun_ext same)
              ∙ ap (release_view pid_of) before,
        )
