-- ===== src/System/Scheduler/Fair.antt =====
-- Runs of timer interrupts in kernel/scheduler.cpp.
use mesa_os.Prelude.{
  ℕ, suc, ◌+◌, ◌-◌, ◌≤◌, ◌<◌, ◌≡◌, ◌≢◌, refl, ap, ◌∙◌, Option, some, List, [], ◌∷◌, arith, ltb,
  ◌==◌, if◌then◌else◌, Bool-cases, inl, inr, length, ==_iff,
}
use mesa_os.System.Scheduler.{Scheduler, next_index, stack_at, switch, schedule, run}
use mesa_os.System.Scheduler.Switch.{next_index-lt, length-switch, stack_at-switch}

-- The process at `i`, of `n`, is the current one.
pub record IsAt (n i : ℕ) (s : Scheduler) : Type 0 where
  pub current : s.current_process ≡ some i
  pub within : i < n
  pub size : length s.process_list ≡ n

-- The ticks that it takes to get from the process at `i` to that at `j`, at least one.
unfoldable pub ticks_to : ℕ → ℕ → ℕ → ℕ
ticks_to n i j = if ltb i j then j - i else j + n - i

ticks_to-next :
    (n i j : ℕ)
    → i < n
    → j < n
    → next_index n i ≢ j
    → ticks_to n i j ≡ suc (ticks_to n (next_index n i) j)
unfolding ticks_to next_index
ticks_to-next n i j h l e = ground arith

ticks_to-last : (n i j : ℕ) → i < n → j < n → next_index n i ≡ j → ticks_to n i j ≡ 1
unfolding ticks_to next_index
ticks_to-last n i j h l e = ground arith

module _ (n : ℕ) where
  pub schedule-some :
      (s : Scheduler) (i sp : ℕ)
      → IsAt n i s
      → schedule s sp ≡ (
        record s {
          process_list = switch s.process_list i (next_index n i) sp;
          current_process = some (next_index n i);
        },
        stack_at (switch s.process_list i (next_index n i) sp) (next_index n i),
      )
  unfolding schedule
  schedule-some s i sp a = ground (arith, a.size, a.current)

  pub schedule-IsAt :
      (s : Scheduler) (i sp : ℕ) → IsAt n i s → IsAt n (next_index n i) (schedule s sp).0
  schedule-IsAt s i sp a = rw (schedule-some s i sp a) (record {
    current = refl;
    within = next_index-lt n i a.within;
    size = length-switch s.process_list i (next_index n i) sp ∙ a.size;
  })

  -- The stack pointers after a tick.
  stack_at-schedule :
      (s : Scheduler) (i sp k : ℕ)
      → IsAt n i s
      → stack_at (schedule s sp).0.process_list k
        ≡ (if i == k then some sp else stack_at s.process_list k)
  stack_at-schedule s i sp k a =
      rw (schedule-some s i sp a)
        (stack_at-switch s.process_list i (next_index n i) sp k (rw a.size a.within))

  returned :
      (s : Scheduler) (i sp : ℕ)
      → IsAt n i s
      → (schedule s sp).1
        ≡ (if i == next_index n i then some sp else stack_at s.process_list (next_index n i))
  returned s i sp a =
      rw (schedule-some s i sp a)
        (stack_at-switch s.process_list i (next_index n i) sp (next_index n i) (rw a.size a.within))

  -- Every process gets its turn: from the process at `i` of `n` it takes `ticks_to n i j` timer
  -- interrupts, which is at most `n`, to get to the process at `j`, whatever the stack pointers
  -- are.
  pub run_reaches :
      (s : Scheduler) (out : Option ℕ) (i j : ℕ) (sps : List ℕ)
      → IsAt n i s
      → j < n
      → length sps ≡ ticks_to n i j
      → ((run s out sps).0.current_process ≡ some j) × (length sps ≤ n)
  unfolding run
  run_reaches s out i j [] a l e = absurd (unfold ticks_to in ground (arith, a.within))
  run_reaches s out i j (sp ∷ sps) a l e = elim (Bool-cases (next_index n i == j)) [
    | inl here ↦
        let q : next_index n i ≡ j = (==_iff _ _).0 here in
        arrived sps (omega (arith, ticks_to-last n i j a.within l q)) q (schedule-IsAt s i sp a)
    | inr on ↦
        let q : next_index n i ≢ j = λ t. ground arith in
        let ih : ((run (schedule s sp).0 (schedule s sp).1 sps).0.current_process ≡ some j)
            × (length sps ≤ n) =
          run_reaches (schedule s sp).0 (schedule s sp).1 (next_index n i) j sps
            (schedule-IsAt s i sp a) l (omega (arith, ticks_to-next n i j a.within l q)) in
        (ih.0, unfold ticks_to in ground (arith, a.within))
  ]
    where
      arrived :
          (sps : List ℕ)
          → length sps ≡ 0
          → next_index n i ≡ j
          → IsAt n (next_index n i) (schedule s sp).0
          → ((run (schedule s sp).0 (schedule s sp).1 sps).0.current_process ≡ some j)
            × (suc (length sps) ≤ n)
      arrived [] z q b = (b.current ∙ ap some q, omega (arith, a.within))
      arrived (x ∷ xs) z q b = absurd (omega arith)

  -- While others run, a saved stack pointer stays; the tick that comes back to it returns it.
  run_away :
      (s : Scheduler) (out : Option ℕ) (i c sp : ℕ) (sps : List ℕ)
      → IsAt n c s
      → i < n
      → c ≢ i
      → stack_at s.process_list i ≡ some sp
      → length sps ≡ ticks_to n c i
      → (run s out sps).1 ≡ some sp
  unfolding run
  run_away s out i c sp [] a l ne e z = absurd (unfold ticks_to in ground (arith, a.within))
  run_away s out i c sp (x ∷ xs) a l ne e z = elim (Bool-cases (next_index n c == i)) [
    | inl here ↦
        let q : next_index n c ≡ i = (==_iff _ _).0 here in
        back xs (omega (arith, ticks_to-last n c i a.within l q))
          (returned s c x a ∙ rw q (ground arith))
    | inr on ↦
        let q : next_index n c ≢ i = λ t. ground arith in
        run_away (schedule s x).0 (schedule s x).1 i (next_index n c) sp xs (schedule-IsAt s c x a)
          l q (ground (arith, stack_at-schedule s c x i a))
          (omega (arith, ticks_to-next n c i a.within l q))
  ]
    where
      back :
          (xs : List ℕ)
          → length xs ≡ 0
          → (schedule s x).1 ≡ some sp
          → (run (schedule s x).0 (schedule s x).1 xs).1 ≡ some sp
      back [] w r = r
      back (y ∷ ys) w r = absurd (omega arith)

  -- A process that is interrupted at the stack pointer `sp` goes on there: of `n` timer interrupts
  -- with `n` processes, the first of which interrupts it, the last returns `sp`.
  pub run_resumes :
      (s : Scheduler) (out : Option ℕ) (i sp : ℕ) (sps : List ℕ)
      → IsAt n i s
      → length (sp ∷ sps) ≡ n
      → (run s out (sp ∷ sps)).1 ≡ some sp
  unfolding run
  run_resumes s out i sp sps a e = elim (Bool-cases (i == next_index n i)) [
    | inl alone ↦
        only sps (unfold next_index in ground (arith, a.within)) (returned s i sp a ∙ rw alone)
    | inr others ↦
        let q : next_index n i ≢ i = λ t. ground arith in
        run_away (schedule s sp).0 (schedule s sp).1 i (next_index n i) sp sps
          (schedule-IsAt s i sp a) a.within q (ground (arith, stack_at-schedule s i sp i a))
          (unfold ticks_to next_index in ground (arith, a.within))
  ]
    where
      only :
          (sps : List ℕ)
          → length sps ≡ 0
          → (schedule s sp).1 ≡ some sp
          → (run (schedule s sp).0 (schedule s sp).1 sps).1 ≡ some sp
      only [] w r = r
      only (y ∷ ys) w r = absurd (omega arith)
