-- ===== src/System/Scheduler.antt =====
-- kernel/scheduler.cpp: the list of processes and the round-robin switch of the timer interrupt.
-- A list stands for the chain of `next` pointers from `process_list` on, and the index into it for
-- `current_process`. `kmalloc` is a caller's business: the address of the stack that it returns is
-- an argument. The field `regs`, which the code only clears, is left out; names are their bytes.
pub mod Switch
pub mod Fair
pub mod Pids
mod Tests
use mathlib.Core.Option
use mesa_os.Prelude.{
  ℕ, zero, suc, ◌+◌, ◌-◌, ◌%◌, ◌^◌, Option, none, some, List, [], ◌∷◌, ltb, ◌==◌, if◌then◌else◌,
  length, get_elem?, modify, update,
}

pub data ProcessState : Type 0 where
  ready running suspended terminated : ProcessState

pub record Process : Type 0 where
  pub pid : ℕ
  pub name : List ℕ
  pub state : ProcessState
  pub stack_ptr : ℕ

-- The fields of `Registers` that `add_process` sets; it clears the others.
pub record Registers : Type 0 where
  pub ds : ℕ
  pub eip : ℕ
  pub cs : ℕ
  pub eflags : ℕ

-- `frame_at` is the register frame that stands in memory at an address.
pub record Scheduler : Type 0 where
  pub process_list : List Process
  pub current_process : Option ℕ
  pub next_pid : ℕ
  pub frame_at : ℕ → Registers

abbrev pub stack_size : ℕ
stack_size = 8192

-- `sizeof(Registers)`: 14 words.
abbrev pub registers_size : ℕ
registers_size = 56

-- A new process stands in front of the list, so the index of the current one grows.
pub add_process : Scheduler → List ℕ → ℕ → ℕ → Scheduler
add_process s name entry_point stack =
    let sp = (stack + stack_size - registers_size) % 2 ^ 32 in
    record {
      process_list =
          record { pid = s.next_pid; name = name; state = ready; stack_ptr = sp } ∷ s.process_list;
      current_process = Option.map suc s.current_process;
      next_pid = (s.next_pid + 1) % 2 ^ 32;
      frame_at =
          update s.frame_at sp (record { ds = 0x10; eip = entry_point; cs = 0x08; eflags = 0x202 });
    }

-- The bytes of "kernel".
abbrev pub kernel_name : List ℕ
kernel_name = b'k' ∷ b'e' ∷ b'r' ∷ b'n' ∷ b'e' ∷ b'l' ∷ []

abbrev pub set_state : ProcessState → Process → Process
set_state st p = record p { state = st }

pub initialize : Scheduler → ℕ → Scheduler
initialize s stack =
    let s' : Scheduler =
      add_process (record s { process_list = []; current_process = none; next_pid = 0 }) kernel_name
        0 stack in
    record s' {
      process_list = modify s'.process_list 0 (set_state running);
      current_process = some 0;
    }

-- The process after the one at `i`, of `n`: the first after the last.
pub next_index : ℕ → ℕ → ℕ
next_index n i = if ltb (i + 1) n then i + 1 else 0

-- The stack pointer of the process at `j`; `none` is a read through a null pointer.
abbrev pub stack_at : List Process → ℕ → Option ℕ
stack_at ps j = Option.map (λ p. p.stack_ptr) (get_elem? ps j)

abbrev pub state_at : List Process → ℕ → Option ProcessState
state_at ps j = Option.map (λ p. p.state) (get_elem? ps j)

-- The list after the switch from the process at `i`, whose stack is at `sp`, to the one at `j`.
pub switch : List Process → ℕ → ℕ → ℕ → List Process
switch ps i j sp =
    modify (modify ps i (λ p. record p { stack_ptr = sp; state = ready })) j (set_state running)

-- The new state and the stack pointer to go on with.
pub schedule : Scheduler → ℕ → Scheduler × Option ℕ
schedule s current_stack = elim s.current_process [
  | none ↦ (s, some current_stack)
  | some i ↦
      let j = next_index (length s.process_list) i in
      let ps = switch s.process_list i j current_stack in
      (record s { process_list = ps; current_process = some j }, stack_at ps j)
]

-- A run of timer interrupts, each with the stack pointer that it is handed; the result is what the
-- last one returns.
pub run : Scheduler → Option ℕ → List ℕ → Scheduler × Option ℕ
run s out [] = (s, out)
run s out (sp ∷ sps) = let (s', out') = schedule s sp in run s' out' sps
