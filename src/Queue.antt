-- ===== src/Queue.antt =====
-- include/os/list.h: circular doubly linked lists that run through nodes inside other objects.
-- A node is its address; the memory of all nodes is a `Links`, so that lists may share it.
pub mod Chain
pub mod Rep
pub mod Iterate
use ucas_os_kernel.Base.{
  ℕ, zero, suc, ◌≡◌, Bool, true, false, List, [], ◌∷◌, Option, none, some, ◌==◌, upd,
}

abbrev pub Ptr : Type 0
Ptr = ℕ

-- `list_node_t` at each address.
pub record Links : Type 0 where
  pub next : Ptr → Ptr
  pub prev : Ptr → Ptr

abbrev pub set_next : Links → Ptr → Ptr → Links
set_next l p q = record l { next = upd l.next p q }

abbrev pub set_prev : Links → Ptr → Ptr → Links
set_prev l p q = record l { prev = upd l.prev p q }

-- `INIT_LIST_HEAD`
unfoldable pub init_list_head : Links → Ptr → Links
init_list_head l head = let l = set_prev l head head in set_next l head head

unfoldable pub is_queue_empty : Links → Ptr → Bool
is_queue_empty l queue = l.next queue == queue

unfoldable pub list_insert : Links → (new prev next : Ptr) → Links
list_insert l new prev next =
    let l = set_prev l next new in
    let l = set_next l prev new in let l = set_next l new next in set_prev l new prev

unfoldable pub list_add_tail : Links → (new head : Ptr) → Links
unfolding list_insert
list_add_tail l new head = list_insert l new (l.prev head) head

unfoldable pub list_delete_entry : Links → Ptr → Links
list_delete_entry l entry =
    let l = set_prev l (l.next entry) (l.prev entry) in set_next l (l.prev entry) (l.next entry)

-- The nodes that `list_for_each_entry` visits from `pos` on, up to the head; `none` where the
-- fuel runs out.
unfoldable pub list_for_each : Links → ℕ → (pos head : Ptr) → Option (List Ptr)
list_for_each l zero pos head = none
list_for_each l (suc fuel) pos head = elim (pos == head) [
  | true ↦ some []
  | false ↦ elim (list_for_each l fuel (l.next pos) head) [
    | none ↦ none
    | some xs ↦ some (pos ∷ xs)
  ]
]

-- The loop `list_for_each_entry_safe`: `q` is the node behind `p`, read before the body runs.
-- `links` reads the lists from the state; `none` is a fault of the body, or fuel run out.
module _ {ℓ} {S : Type ℓ} (links : S → Links) (body : Ptr → S → Option S) (head : Ptr) where
  unfoldable pub safe_loop : ℕ → (p q : Ptr) → S → Option S
  safe_loop zero p q s = none
  safe_loop (suc fuel) p q s = elim (p == head) [
    | true ↦ some s
    | false ↦ elim (body p s) [ none ↦ none | some s' ↦ safe_loop fuel q ((links s').next q) s' ]
  ]

  unfoldable pub list_for_each_safe : ℕ → S → Option S
  unfolding safe_loop
  list_for_each_safe fuel s = let p = (links s).next head in safe_loop fuel p ((links s).next p) s

-- The search of a list by a loop that returns: `some none` where the loop ends.
unfoldable pub find_entry : Links → (Ptr → Bool) → ℕ → (pos head : Ptr) → Option (Option Ptr)
find_entry l test zero pos head = none
find_entry l test (suc fuel) pos head = elim (pos == head) [
  | true ↦ some none
  | false ↦ elim (test pos) [
    | true ↦ some (some pos)
    | false ↦ find_entry l test fuel (l.next pos) head
  ]
]
