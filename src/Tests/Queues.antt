-- ===== src/Tests/Queues.antt =====
-- The theorems on lists and on the scheduler's queues, at the sample machine.
use ucas_os_kernel.Base.{◌≡◌, refl, true, [], ◌∷◌, some, arith}
use ucas_os_kernel.Queue.{list_add_tail, list_delete_entry, list_for_each, is_queue_empty}
use ucas_os_kernel.Queue.Rep.{
  Rep, appended, removed, moved, add_tail-Rep, delete-Rep, move-Rep, list_for_each-Rep,
  is_queue_empty-Rep,
}
use ucas_os_kernel.Layout.{list_fuel}
use ucas_os_kernel.Tests.Samples.{sample_head, sample_links, sample_view, sample-Rep}

add_tail-Rep_example :
    Rep sample_head (list_add_tail sample_links 5304 1000) (appended sample_view 5304 1000)
add_tail-Rep_example = add_tail-Rep sample-Rep 5304 1000 refl (refl, λ h e. ground arith)

delete-Rep_example :
    Rep sample_head (list_delete_entry sample_links 5032) (removed sample_view 5032 1000)
delete-Rep_example = delete-Rep sample-Rep 5032 1000 refl refl

move-Rep_example :
    Rep sample_head
      (list_add_tail (list_delete_entry sample_links 5032) 5032 1016)
      (moved sample_view 5032 1000 1016)
move-Rep_example = move-Rep 5032 1000 1016 sample-Rep refl refl refl

list_for_each-Rep_example :
    list_for_each sample_links list_fuel (sample_links.next 1000) 1000 ≡ some (5032 ∷ 5168 ∷ [])
list_for_each-Rep_example = list_for_each-Rep sample-Rep 1000 list_fuel refl (omega arith)

is_queue_empty-Rep_example : is_queue_empty sample_links 1016 ≡ true
is_queue_empty-Rep_example = is_queue_empty-Rep sample-Rep 1016 refl
