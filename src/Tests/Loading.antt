-- ===== src/Tests/Loading.antt =====
-- The loading of programs: a table of two programs, `a` and `b`.
use ucas_os_kernel.Base.{
  ℕ, ◌+◌, ◌<◌, ◌≡◌, refl, ◌≢◌, some, none, ◌>>=◌, arith, [], ◌∷◌, ltb, inr, ◌==◌, find_index_hit,
  if◌then◌else◌,
}
use ucas_os_kernel.Strings.{Bytes}
use ucas_os_kernel.Strings.Compare.{terminated}
use ucas_os_kernel.Layout.{num_max_task, pcb_ptr}
use ucas_os_kernel.Kernel.{Kernel, set_pcb}
use ucas_os_kernel.Loader.{TaskInfo, load_task_img}
use ucas_os_kernel.Loader.Search.{Named, sectors_before}
use ucas_os_kernel.Loader.Pages.{round_up, load_plan}
use ucas_os_kernel.Loader.Found.{load_task_img-missing, load_task_img-found}
use ucas_os_kernel.Process.{find_pcb}
use ucas_os_kernel.Process.Start.{do_exec}
use ucas_os_kernel.Process.Exec.{do_exec-refused, do_exec-empty}
use ucas_os_kernel.Tests.Samples.{sample_bios, sample_layout, sample_mm, sample_base, sample_kernel}

abbrev name_of : ℕ → Bytes
name_of i = (97 + i) ∷ []

abbrev table : ℕ → TaskInfo
table i = record {
  name = terminated (name_of i) (7 ∷ []);
  sectors_num = 12;
  filesz = 6000;
  memsz = 9000;
}

table-Named : (i : ℕ) → i < 2 → Named table i (name_of i)
table-Named i h = record { rest = 7 ∷ []; name = refl; string = ground arith }

other_name : (i c : ℕ) → 97 + i ≢ c → name_of i ≢ c ∷ []
other_name i c n e = n (ground arith)

load_task_img-missing_example :
    load_task_img sample_bios sample_layout table 2 40
      (terminated (99 ∷ []) [])
      sample_base
      sample_mm
    ≡ some (0, sample_mm)
load_task_img-missing_example =
    load_task_img-missing sample_bios sample_layout table 2 40 sample_base name_of (99 ∷ []) [] refl
      table-Named (λ i h. other_name i 99 (omega arith)) sample_mm

load_task_img-found_example :
    load_task_img sample_bios sample_layout table 2 40
      (terminated (98 ∷ []) [])
      sample_base
      sample_mm
    ≡ (load_plan sample_bios sample_layout 6000
          (40 + 1 + sectors_before table 1)
          sample_base
          (round_up 9000 4095)
          0
          sample_mm
        >>= λ m1. some (1, m1))
load_task_img-found_example =
    load_task_img-found sample_bios sample_layout table 2 40 sample_base name_of (98 ∷ []) [] refl 1
      (omega arith) (λ i h. table-Named i (omega arith)) refl (λ i h. other_name i 98 (omega arith))
      sample_mm

-- The table with two programs as the memory holds it: the other places are zero.
abbrev filled : ℕ → Bytes
filled i = if ltb i 2 then name_of i else []

abbrev memory_table : ℕ → TaskInfo
memory_table i = record (table i) { name = terminated (filled i) [] }

filled-Named : (i : ℕ) → Named memory_table i (filled i)
filled-Named i = record { rest = []; name = refl; string = ground arith }

not_empty : (i : ℕ) → i < 2 → filled i ≢ []
not_empty i h e = ground (arith, e)

not_c : (i : ℕ) → filled i ≢ 99 ∷ []
not_c i e = ground (arith, e)

-- The third task block is unused.
abbrev unused : ℕ
unused = pcb_ptr sample_layout 2

abbrev free_kernel : Kernel ℕ
free_kernel =
    set_pcb sample_kernel unused
      (record (sample_kernel.pcb_at unused) { pid = 0; name = 7 ∷ 7 ∷ 7 ∷ [] })

free_block : find_pcb sample_layout free_kernel 0 ≡ some unused
unfolding find_pcb
free_block =
    rw
      (find_index_hit num_max_task 0 (λ i. (free_kernel.pcb_at (pcb_ptr sample_layout i)).pid == 0)
        2
        (record {
          from = omega arith;
          below = omega arith;
          holds = refl;
          earlier = λ i p q. ground arith;
        }))
      refl

do_exec-refused_example :
    do_exec sample_bios sample_layout 0 memory_table 2 40 free_kernel (terminated (99 ∷ []) []) 0 []
    ≡ some (0, free_kernel)
do_exec-refused_example =
    do_exec-refused sample_bios sample_layout 0 memory_table 2 40 filled free_kernel (99 ∷ []) [] 0
      [] refl (inr (λ i h. not_c i)) (λ i h. filled-Named i)

do_exec-empty_example :
    do_exec sample_bios sample_layout 0 memory_table 2 40 free_kernel (terminated [] []) 0 [] ≡ none
do_exec-empty_example =
    do_exec-empty sample_bios sample_layout 0 memory_table 2 40 filled free_kernel unused [] 0 []
      free_block (omega arith) (λ i h. filled-Named i) not_empty refl
