-- ===== src/System/Scheduler/Pids.antt =====
-- Histories of kernel/scheduler.cpp: the pids, and which process runs.

use mesa_os.Prelude.{
  ℕ, zero, suc, ◌+◌, ◌%◌, ◌^◌, ◌≤◌, ◌<◌, ◌≡◌, ◌≢◌, refl, ap, ◌∙◌, some, List, [], ◌∷◌, arith, ◌==◌,
  if◌then◌else◌, length, map, modify,
}
use mesa_os.System.Scheduler.{
  Process, ready, running, Scheduler, add_process, initialize, set_state, next_index, stack_at,
  state_at, switch, schedule,
}
use mesa_os.System.Scheduler.Switch.{next_index-lt, state_at-switch}
use mesa_os.System.Scheduler.Fair.{IsAt, schedule-IsAt, schedule-some}

abbrev pub pids : List Process → List ℕ
pids = map (λ p. p.pid)

-- n - 1, …, 0
pub countdown : ℕ → List ℕ
countdown zero = []
countdown (suc n) = n ∷ countdown n

-- The process at `i` is the current one and the only one that runs, and the pids are those from
-- `next_pid - 1` down to 0, in the order of the list.
pub record IsValid (i : ℕ) (s : Scheduler) : Type 0 where
  pub at : IsAt s.next_pid i s
  pub runs : state_at s.process_list i ≡ some running
  pub alone : (k : ℕ) → k ≢ i → state_at s.process_list k ≢ some running
  pub numbered : pids s.process_list ≡ countdown s.next_pid

pids-modify :
    (ps : List Process) (i : ℕ) (f : Process → Process)
    → ((p : Process) → (f p).pid ≡ p.pid)
    → pids (modify ps i f) ≡ pids ps
pids-modify [] i f h = refl
pids-modify (p ∷ ps) zero f h = rw (h p)
pids-modify (p ∷ ps) (suc i) f h = rw (pids-modify ps i f h)

pids-switch : (ps : List Process) (i j sp : ℕ) → pids (switch ps i j sp) ≡ pids ps
unfolding switch
pids-switch ps i j sp =
    pids-modify (modify ps i (λ p. record p { stack_ptr = sp; state = ready })) j
      (set_state running) (λ p. refl)
    ∙ pids-modify ps i (λ p. record p { stack_ptr = sp; state = ready }) (λ p. refl)

-- If the current process is the only one that runs, and the pids are in order, a timer interrupt
-- passes the processor on to the next process, which is then the only one that runs, and leaves
-- the pids.
pub schedule-IsValid :
    (s : Scheduler) (i sp : ℕ) → IsValid i s → IsValid (next_index s.next_pid i) (schedule s sp).0
schedule-IsValid s i sp v = record {
  at = rw same_next (schedule-IsAt s.next_pid s i sp v.at);
  runs = rw step (ground (arith, state (next_index s.next_pid i)));
  alone = λ k ne. rw step (ground (arith, state k, v.alone k));
  numbered = rw step (pids-switch s.process_list i (next_index s.next_pid i) sp ∙ v.numbered);
}
  where
    step : schedule s sp ≡ (
      record s {
        process_list = switch s.process_list i (next_index s.next_pid i) sp;
        current_process = some (next_index s.next_pid i);
      },
      stack_at (switch s.process_list i (next_index s.next_pid i) sp) (next_index s.next_pid i),
    )
    step = schedule-some s.next_pid s i sp v.at

    same_next : (schedule s sp).0.next_pid ≡ s.next_pid
    same_next = rw step

    state :
        (k : ℕ)
        → state_at (switch s.process_list i (next_index s.next_pid i) sp) k ≡ (
            if next_index s.next_pid i == k
            then some running
            else if i == k
            then some ready
            else state_at s.process_list k)
    state k =
        state_at-switch s.process_list i (next_index s.next_pid i) sp k (rw v.at.size v.at.within)
          (rw v.at.size (next_index-lt s.next_pid i v.at.within))

-- While the next pid fits 32 bits, `add_process` gives the new process the next pid and does not
-- let it run: the current process stays the only one that runs.
pub add_process-IsValid :
    (s : Scheduler) (name : List ℕ) (entry_point stack i : ℕ)
    → s.next_pid + 1 < 2 ^ 32
    → IsValid i s
    → IsValid (suc i) (add_process s name entry_point stack)
unfolding add_process countdown
add_process-IsValid s name entry_point stack i h v =
    let e : (s.next_pid + 1) % 2 ^ 32 ≡ suc s.next_pid = omega arith in
    rw e (record {
      at = record {
        current = rw v.at.current;
        within = omega (arith, v.at.within);
        size = omega (arith, v.at.size);
      };
      runs = v.runs;
      alone = shifted;
      numbered = rw v.numbered;
    })
  where
    shifted :
        (k : ℕ)
        → k ≢ suc i
        → state_at (add_process s name entry_point stack).process_list k ≢ some running
    shifted zero ne = λ q. cc
    shifted (suc k) ne = v.alone k (λ q. ne (ap suc q))

pub initialize-IsValid : (s : Scheduler) (stack : ℕ) → IsValid 0 (initialize s stack)
unfolding initialize add_process countdown
initialize-IsValid s stack = record {
  at = record { current = refl; within = omega arith; size = refl };
  runs = refl;
  alone = rest;
  numbered = refl;
}
  where
    rest : (k : ℕ) → k ≢ 0 → state_at (initialize s stack).process_list k ≢ some running
    rest zero ne = absurd (ne refl)
    rest (suc k) ne = λ q. cc

-- What happens to the scheduler after `initialize`.
pub data Event : Type 0 where
  create : List ℕ → ℕ → ℕ → Event
  tick : ℕ → Event

pub step : Scheduler → Event → Scheduler
step s (create name entry_point stack) = add_process s name entry_point stack
step s (tick sp) = (schedule s sp).0

pub history : Scheduler → List Event → Scheduler
history s [] = s
history s (e ∷ es) = history (step s e) es

step-IsValid :
    (s : Scheduler) (e : Event) (i : ℕ)
    → s.next_pid + 1 < 2 ^ 32
    → IsValid i s
    → (j : ℕ) × IsValid j (step s e) × ((step s e).next_pid ≤ s.next_pid + 1)
unfolding step
step-IsValid s (create name entry_point stack) i h v =
    (suc i, add_process-IsValid s name entry_point stack i h v, unfold add_process in omega arith)
step-IsValid s (tick sp) i h v = (
  next_index s.next_pid i,
  schedule-IsValid s i sp v,
  rw (step, schedule-some s.next_pid s i sp v.at) (omega arith),
)

history-IsValid :
    (s : Scheduler) (es : List Event) (i : ℕ)
    → s.next_pid + length es < 2 ^ 32
    → IsValid i s
    → (j : ℕ) × IsValid j (history s es)
unfolding history
history-IsValid s [] i h v = (i, v)
history-IsValid s (e ∷ es) i h v =
    let (j, w, l) = step-IsValid s e i (omega arith) v in
    history-IsValid (step s e) es j (omega arith) w

-- After any history of fewer than 2 ^ 32 - 1 process creations and timer interrupts since
-- `initialize`, exactly one process runs, it is the current one, and the pids are those of the
-- processes that were ever created, each once.
pub history-initialize :
    (s : Scheduler) (stack : ℕ) (es : List Event)
    → length es + 1 < 2 ^ 32
    → (i : ℕ) × IsValid i (history (initialize s stack) es)
history-initialize s stack es h =
    history-IsValid (initialize s stack) es 0 (unfold initialize add_process in omega arith)
      (initialize-IsValid s stack)
