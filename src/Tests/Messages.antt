-- ===== src/Tests/Messages.antt =====
-- The theorems on strings and mailboxes, at short strings and the sample machine.
use ucas_os_kernel.Base.{
  ◌%◌, ◌<◌, has, if◌then◌else◌, ◌==◌, ℕ, ◌+◌, ◌≡◌, refl, ◌≢◌, ◌↔◌, true, [], ◌∷◌, ◌++◌, some, none,
  arith, get_or, replicate,
}
use ucas_os_kernel.Base.Int.{ℤ, pos, negsuc, sub_ℕ, ◌+ℤ◌}
use ucas_os_kernel.Queue.{Ptr}
use ucas_os_kernel.Layout.{pcb_entry}
use ucas_os_kernel.Queue.Rep.{View}
use ucas_os_kernel.Kernel.{ready, Mailbox, Kernel}
use ucas_os_kernel.Sched.System.{IsSystem}
use ucas_os_kernel.Strings.{Bytes, strlen, strcmp, strncmp, strcpy, strncpy, strcat}
use ucas_os_kernel.Strings.Compare.{terminated, strlen_lem, strcmp_lem, strncmp-next_byte}
use ucas_os_kernel.Strings.Copy.{strcmp-strcpy, strncpy_lem, strcat_lem}
use ucas_os_kernel.Lock.Handover.{lock_view}
use ucas_os_kernel.Mbox.{put_bytes, get_bytes, written, do_mbox_open, mbox_send_locked}
use ucas_os_kernel.Mbox.Ring.{IsMbox, total_written, total_read, put_bytes_lem, put_bytes-place}
use ucas_os_kernel.Mbox.Send.{can_write_lem, get-put, mbox_send_lem}
use ucas_os_kernel.Mbox.Open.{Named, open-found, open-new}
use ucas_os_kernel.Tests.Samples.{
  sample_bios, sample_layout, sample_head, sample_nodes, sample_view, sample_kernel,
  sample-IsSystem, low-TaskQueue,
}

abbrev ab : Bytes
ab = 97 ∷ 98 ∷ []

strlen_example : strlen (terminated ab (7 ∷ [])) ≡ some 2
strlen_example = strlen_lem ab (7 ∷ []) refl

strcmp_example :
    (d : ℤ) × (strcmp (terminated ab []) (terminated (97 ∷ []) []) ≡ some d)
    × ((d ≡ pos 0) ↔ (ab ≡ (97 ∷ [])))
strcmp_example = strcmp_lem ab (97 ∷ []) [] [] refl refl

strncmp-next_byte_example : strncmp (97 ∷ 98 ∷ []) (97 ∷ 99 ∷ []) 1 ≡ some (negsuc 0)
strncmp-next_byte_example = strncmp-next_byte (97 ∷ []) [] [] 98 99 refl

strcmp-strcpy_example :
    (copy : Bytes) × (strcpy (1 ∷ 2 ∷ 3 ∷ 4 ∷ []) (terminated ab []) ≡ some copy)
    × (strcmp copy (terminated ab []) ≡ some (pos 0))
strcmp-strcpy_example = strcmp-strcpy (1 ∷ 2 ∷ 3 ∷ 4 ∷ []) ab [] refl (omega arith)

strncpy_example :
    (pad : ℕ) × (2 + pad ≡ 4)
    × (strncpy (1 ∷ 2 ∷ 3 ∷ 4 ∷ 5 ∷ []) (terminated ab []) 4
        ≡ some (ab ++ (replicate pad 0 ++ (5 ∷ []))))
strncpy_example = strncpy_lem (1 ∷ 2 ∷ 3 ∷ 4 ∷ 5 ∷ []) ab [] 4 refl (omega arith) (omega arith)

strcat_example :
    strcat (terminated ab (1 ∷ 2 ∷ 3 ∷ [])) (terminated ab [])
    ≡ some (terminated (ab ++ ab) (3 ∷ []))
strcat_example = strcat_lem ab ab (1 ∷ 2 ∷ 3 ∷ []) [] refl refl (omega arith)

abbrev empty_box : Mailbox
empty_box = record {
  name = terminated ab (replicate 29 0);
  buf = replicate 64 0;
  mutex_id = pos 0;
  ref = pos 1;
  nread = 62;
  nwrite = 62;
  round_read = 3;
  round_write = 3;
}

empty_box-IsMbox : IsMbox empty_box
empty_box-IsMbox = record { nread = omega arith; nwrite = omega arith; buf = refl }

abbrev msg : Bytes
msg = 1 ∷ 2 ∷ 3 ∷ 4 ∷ []

put_bytes_example :
    IsMbox (put_bytes empty_box msg)
    × (total_written (put_bytes empty_box msg) ≡ 258)
    × (total_read (put_bytes empty_box msg) ≡ 254)
put_bytes_example = put_bytes_lem empty_box msg empty_box-IsMbox

put_bytes-place_example : get_or (put_bytes empty_box msg).buf 0 0 ≡ 3
put_bytes-place_example =
    put_bytes-place empty_box msg 2 empty_box-IsMbox (omega arith) (omega arith)

get-put_example :
    (get_or (get_bytes (put_bytes empty_box msg) 4).0 1 0 ≡ 3)
    × (written (get_bytes (put_bytes empty_box msg) 4).1 ≡ sub_ℕ 0 4)
get-put_example = get-put empty_box msg 1 empty_box-IsMbox refl (omega arith) (omega arith)

-- A mailbox with two unread bytes.
abbrev waiting_box : Mailbox
waiting_box = record empty_box { nwrite = 0; round_write = 4 }

abbrev boxed_kernel : Kernel ℕ
boxed_kernel = record sample_kernel { mailboxes = λ i. empty_box }

send_example :
    (k' : Kernel ℕ) × (q' : View) × (mbox_send_locked sample_bios sample_layout boxed_kernel 0 0 msg
      ≡ some (true, k'))
    × IsSystem sample_layout sample_head sample_nodes k'.mm q'
    × IsMbox (k'.mailboxes 0)
    × (total_written (k'.mailboxes 0) ≡ 258)
    × (total_read (k'.mailboxes 0) ≡ 254)
    × ((b : ℕ) → b < 4 → get_or (k'.mailboxes 0).buf ((62 + b) % 64) 0 ≡ get_or msg b 0)
    × ((r : ℕ) → r ≢ 0 → k'.mailboxes r ≡ empty_box)
    × (q' 2300 ≡ [])
    × ((n : Ptr)
        → has n (sample_view 2300) ≡ true
        → (has n (q' 1000) ≡ true) × ((k'.pcb_at (pcb_entry n)).status ≡ ready))
    × (lock_view sample_layout k' q' 0 ≡ record { owner = none; waiters = [] })
send_example =
    mbox_send_lem sample_bios sample_layout boxed_kernel sample_view 0 0 sample-IsSystem
      (low-TaskQueue 2300 (omega arith) (omega arith))
      (low-TaskQueue 1100 (omega arith) (omega arith)) msg (ground arith) (ground arith)
      (ground arith) (λ e. refl) ((can_write_lem empty_box 4).1 (omega arith)) empty_box-IsMbox
      (omega arith)

open-found_example :
    do_mbox_open boxed_kernel (terminated ab [])
    ≡ some (
      pos 0,
      record boxed_kernel {
        mailboxes = λ i. if i == 0 then record empty_box { ref = pos 1 +ℤ pos 1 } else empty_box;
      },
    )
open-found_example =
    open-found boxed_kernel (λ m. ab) ab [] refl 0 (omega arith)
      (λ m h. record { rest = replicate 29 0; name = refl; string = refl }) refl
      (λ m h. absurd (omega arith))

abbrev unused_kernel : Kernel ℕ
unused_kernel = record sample_kernel {
  mailboxes = λ i. record empty_box { name = replicate 32 0; ref = pos 0; mutex_id = negsuc 0 };
}

open-new_example :
    (k' : Kernel ℕ) × (do_mbox_open unused_kernel (terminated ab []) ≡ some (pos 0, k'))
    × Named k'.mailboxes 0 ab
    × ((k'.mailboxes 0).mutex_id ≡ pos 0)
    × ((k'.mailboxes 0).ref ≡ pos 1)
    × ((m : ℕ) → m ≢ 0 → k'.mailboxes m ≡ unused_kernel.mailboxes m)
open-new_example =
    open-new unused_kernel (λ m. []) ab [] refl 0 (omega arith)
      (λ m h. record { rest = replicate 31 0; name = refl; string = refl })
      (λ m h e. ground (arith, e)) refl (λ m h. absurd (omega arith)) (omega arith)
