-- ===== src/System/Scheduler/Switch.antt =====
-- One switch of kernel/scheduler.cpp: what it saves, what it returns and who runs.
use mesa_os.Prelude.{
  ℕ, ◌<◌, ◌≡◌, ◌∙◌, some, List, arith, ◌==◌, if◌then◌else◌, length, modify, length-modify,
  get_elem?-modify, get_elem?-lt,
}
use mesa_os.System.Scheduler.{
  Process, ready, running, set_state, next_index, stack_at, state_at, switch,
}

pub next_index-lt : (n i : ℕ) → i < n → next_index n i < n
unfolding next_index
next_index-lt n i h = ground arith

pub length-switch : (ps : List Process) (i j sp : ℕ) → length (switch ps i j sp) ≡ length ps
unfolding switch
length-switch ps i j sp =
    length-modify (modify ps i (λ p. record p { stack_ptr = sp; state = ready })) j
      (set_state running)
    ∙ length-modify ps i _

-- The stack pointers after a switch: that of the process which leaves is saved, the others stay.
pub stack_at-switch :
    (ps : List Process) (i j sp k : ℕ)
    → i < length ps
    → stack_at (switch ps i j sp) k ≡ (if i == k then some sp else stack_at ps k)
unfolding switch
stack_at-switch ps i j sp k h =
    let leave : Process → Process = λ p. record p { stack_ptr = sp; state = ready } in
    ground (
      arith,
      get_elem?-modify (modify ps i leave) j k (set_state running),
      get_elem?-modify ps i k leave,
      get_elem?-lt ps i h,
    )

-- The states: the process that is switched to runs, the one that leaves is ready, others stay.
pub state_at-switch :
    (ps : List Process) (i j sp k : ℕ)
    → i < length ps
    → j < length ps
    → state_at (switch ps i j sp) k
      ≡ (if j == k then some running else if i == k then some ready else state_at ps k)
unfolding switch
state_at-switch ps i j sp k h l =
    let leave : Process → Process = λ p. record p { stack_ptr = sp; state = ready } in
    ground (
      arith,
      get_elem?-modify (modify ps i leave) j k (set_state running),
      get_elem?-modify ps i k leave,
      get_elem?-lt ps i h,
      get_elem?-lt ps j l,
    )
