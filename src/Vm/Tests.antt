-- ===== src/Vm/Tests.antt =====
-- One user page behind three page tables, on which the functions of kernel/vm.c run.
use oslab.Prelude.{ℕ, ◌≡◌, refl, Bool, if◌then◌else◌, ◌==◌, Option, some, none}
use oslab.Prelude.Run.{Run, done}
use oslab.Kalloc.{Kmem}
use oslab.Vm.{
  walk_loop, walk, walkaddr, mappages_loop, mappages, copyin_loop, copyin, copyinstr_page,
  copyinstr_loop, copyinstr,
}
use oslab.Vm.Copyinstr.{Strings, copyinstr_lem}
use oslab.Vm.Copyin.{Fetches, copyin_lem}

-- the tables are at 4096, 8192 and 12288, and the page of address 0 is at 16384; the next free page is at 20480
abbrev memory : Kmem
memory = record {
  words = λ a.
      if a == 4096
      then 2049
      else if a == 8192
      then 3073
      else if a == 12288
      then 4115
      else if a == 16384
      then 0x0067666564636261
      else 0;
  freelist = 20480;
}

copyin_example : Fetches 4096 (λ a. 0) 100 2 4 memory (copyin 4096 (λ a. 0) 100 2 4 memory)
copyin_example = copyin_lem 4096 (λ a. 0) 100 2 4 memory

copyinstr_example : Strings 4096 (λ a. 0) 100 2 20 memory (copyinstr 4096 (λ a. 0) 100 2 20 memory)
copyinstr_example = copyinstr_lem 4096 (λ a. 0) 100 2 20 memory

-- the second byte of the page, and a page that is not mapped
abbrev fetched : Run (Bool × (ℕ → ℕ)) → ℕ → Option ℕ
fetched (done (ok, buf)) a = if ok then some (buf a) else none
fetched r a = none

copyinstr_run : fetched (copyinstr 4096 (λ a. 0) 100 2 20 memory) 102 ≡ some 101
unfolding copyinstr copyinstr_loop copyinstr_page walkaddr walk walk_loop
copyinstr_run = refl

copyin_unmapped : fetched (copyin 4096 (λ a. 0) 100 4090 10 memory) 100 ≡ none
unfolding copyin copyin_loop walkaddr walk walk_loop
copyin_unmapped = refl

abbrev mapped : Run (Bool × Kmem) → ℕ → Option ℕ
mapped (done (ok, k)) a = if ok then some (k.words a) else none
mapped r a = none

mappages_run : mapped (mappages 4096 4096 4096 24576 2 memory) 12296 ≡ some 6147
unfolding mappages mappages_loop walk walk_loop
mappages_run = refl
