-- ===== src/Net/Firewall/Default.antt =====
-- How kernel/net/firewall.cpp decides as its table changes.
use mesa_os.Prelude.{
  ℕ, zero, suc, ◌+◌, ◌≤◌, ◌<◌, ◌≡◌, refl, ◌∙◌, Bool, true, false, not, ◌&&◌, ◌||◌, List, [], ◌∷◌,
  arith, leb, ◌==◌, if◌then◌else◌, Bool-cases, inl, inr, update, ==_iff,
}
use mesa_os.Net.Firewall.Order.{applies}
use mesa_os.Net.Firewall.{
  Firewall, FirewallAction, deny, Packet, any_packet, new_rule, add_rule, rule_matches, is_allow,
  check_from, check_packet, enable_rule, disable_rule, initialize, max_firewall_rules, Call, add,
  enable, disable, step, run,
}

-- Some rule from `i` on applies, with `n` rules to go.
pub any_applies : Firewall → Packet → ℕ → ℕ → Bool
any_applies f k i zero = false
any_applies f k i (suc n) = applies f k i || any_applies f k (i + 1) n

check_from-append :
    (f g : Firewall) (k : Packet) (i n m : ℕ)
    → i + n ≡ m
    → ((j : ℕ) → j < m → g.rules j ≡ f.rules j)
    → (g.rules m).enabled ≡ true
    → check_from g k i (suc n) ≡ (
        if any_applies f k i n
        then check_from f k i n
        else rule_matches (g.rules m) k && is_allow (g.rules m).action)
unfolding check_from any_applies
check_from-append f g k i zero m e same on =
    let q : i ≡ m = omega arith in rw (q, on) (ground arith)
check_from-append f g k i (suc n) m e same on =
    rw (same i (omega arith))
      (ground (arith, check_from-append f g k (i + 1) n m (omega arith) same on))

-- Adding a rule to a table that is not full succeeds, and changes the decision on just those
-- packets to which no rule applied: on these the new rule decides, and it lets through those that
-- it matches if its action is to allow. A full table decides as before.
pub check_packet-add_rule :
    (f : Firewall) (r k : Packet) (action : FirewallAction)
    → check_packet (add_rule f r action).0 k ≡ (
        if (add_rule f r action).1 && not (any_applies f k 0 f.rule_count)
        then rule_matches (new_rule r action) k && is_allow action
        else check_packet f k)
unfolding check_packet add_rule new_rule
check_packet-add_rule f r k action = elim (Bool-cases (leb max_firewall_rules f.rule_count)) [
  | inl full ↦ rw full
  | inr room ↦
      let s : f.rule_count + 1 ≡ suc f.rule_count = omega arith in
      let here : (f.rule_count == f.rule_count) ≡ true =
        (==_iff f.rule_count f.rule_count).1 refl in
      rw (room, s)
        (check_from-append f
            (record {
              rules = update f.rules f.rule_count (new_rule r action);
              rule_count = suc f.rule_count;
            })
            k 0 f.rule_count f.rule_count (omega arith) (λ j l. ground arith) (rw here)
          ∙ rw here (ground arith))
]

-- Rule 0 denies everything, as `initialize` leaves it.
pub record IsShut (f : Firewall) : Type 0 where
  pub some_rule : 0 < f.rule_count
  pub first : f.rules 0 ≡ new_rule any_packet deny

initialize-IsShut : (f : Firewall) → IsShut (initialize f)
unfolding initialize add_rule
initialize-IsShut f = record { some_rule = omega arith; first = refl }

-- A call that does not disable rule 0.
unfoldable pub spares_first : Call → Bool
spares_first (add k action) = true
spares_first (enable index) = true
spares_first (disable index) = not (index == 0)

unfoldable pub all_spare_first : List Call → Bool
all_spare_first [] = true
all_spare_first (c ∷ cs) = spares_first c && all_spare_first cs

step-IsShut : (f : Firewall) (c : Call) → spares_first c ≡ true → IsShut f → IsShut (step f c)
unfolding step spares_first add_rule enable_rule disable_rule new_rule
step-IsShut f (add k action) h s = record {
  some_rule = ground (arith, s.some_rule);
  first = ground (arith, s.some_rule, s.first);
}
step-IsShut f (enable index) h s = record {
  some_rule = ground (arith, s.some_rule);
  first = ground (arith, s.some_rule, s.first);
}
step-IsShut f (disable index) h s = record {
  some_rule = ground (arith, s.some_rule);
  first = ground (arith, s.some_rule, s.first);
}

check_packet-IsShut :
    (f : Firewall) (k : Packet) (n : ℕ) → f.rule_count ≡ n → IsShut f → check_packet f k ≡ false
unfolding check_packet check_from rule_matches new_rule
check_packet-IsShut f k zero e s = absurd (omega (arith, s.some_rule))
check_packet-IsShut f k (suc n) e s = rw (e, check_from, s.first)

run-IsShut :
    (f : Firewall) (cs : List Call) → all_spare_first cs ≡ true → IsShut f → IsShut (run f cs)
unfolding run all_spare_first
run-IsShut f [] h s = s
run-IsShut f (c ∷ cs) h s =
    run-IsShut (step f c) cs (ground (arith, h)) (step-IsShut f c (ground (arith, h)) s)

-- After `initialize` no packet gets through, whatever rules are added, enabled and disabled, as
-- long as rule 0 is not disabled.
pub initialize_denies :
    (f : Firewall) (cs : List Call) (k : Packet)
    → all_spare_first cs ≡ true
    → check_packet (run (initialize f) cs) k ≡ false
initialize_denies f cs k h =
    check_packet-IsShut (run (initialize f) cs) k (run (initialize f) cs).rule_count refl
      (run-IsShut (initialize f) cs h (initialize-IsShut f))

-- No history of calls brings the table above its 32 places.
step-le : (f : Firewall) (c : Call) → f.rule_count ≤ 32 → (step f c).rule_count ≤ 32
unfolding step add_rule enable_rule disable_rule
step-le f (add k action) h = ground arith
step-le f (enable index) h = ground arith
step-le f (disable index) h = ground arith

-- From a table of at most 32 rules, no sequence of calls gets one of more than 32.
pub run-le : (f : Firewall) (cs : List Call) → f.rule_count ≤ 32 → (run f cs).rule_count ≤ 32
unfolding run
run-le f [] h = h
run-le f (c ∷ cs) h = run-le (step f c) cs (step-le f c h)
