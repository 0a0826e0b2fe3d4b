-- ===== src/System/Scheduler/Tests.antt =====
-- Runs of kernel/scheduler.cpp with three processes, and the theorems at these inputs.
use mesa_os.Prelude.{ℕ, ◌+◌, ◌≤◌, ◌<◌, ◌≡◌, refl, none, some, List, [], ◌∷◌, arith, length}
use mesa_os.System.Scheduler.{Scheduler, add_process, initialize, next_index, switch, schedule, run}
use mesa_os.System.Scheduler.Fair.{IsAt, ticks_to, run_reaches}
use mesa_os.System.Scheduler.Pids.{IsValid, create, tick, history, history-initialize}

abbrev blank : Scheduler
blank = record {
  process_list = [];
  current_process = none;
  next_pid = 0;
  frame_at = λ a. record { ds = 0; eip = 0; cs = 0; eflags = 0 };
}

-- The kernel, then a shell at address 1000 and a server at 2000.
abbrev three : Scheduler
three = add_process (add_process (initialize blank 0x10000) [] 1000 0x20000) [] 2000 0x30000

three-IsAt : IsAt 3 2 three
unfolding initialize add_process
three-IsAt = record { current = refl; within = omega arith; size = refl }

-- The kernel runs at index 2; three ticks later it goes on at the stack pointer it was
-- interrupted at.
three_ticks : (run three none (500 ∷ 600 ∷ 700 ∷ [])).1 ≡ some 500
unfolding run schedule switch next_index initialize add_process
three_ticks = refl

ticks : 2 ≡ ticks_to 3 2 1
unfolding ticks_to
ticks = refl

abbrev two_ticks : List ℕ
two_ticks = 500 ∷ 600 ∷ []

run_reaches_example :
    ((run three none two_ticks).0.current_process ≡ some 1) × (length two_ticks ≤ 3)
run_reaches_example = run_reaches 3 three none 2 1 two_ticks three-IsAt (omega arith) ticks

room : (initialize blank 0x10000).next_pid + 1 < 4294967296
unfolding initialize add_process
room = omega arith

history-initialize_example :
    (i : ℕ) × IsValid i
      (history (initialize blank 0x10000) (create [] 1000 0x20000 ∷ tick 500 ∷ []))
history-initialize_example =
    history-initialize blank 0x10000 (create [] 1000 0x20000 ∷ tick 500 ∷ []) (omega arith)
