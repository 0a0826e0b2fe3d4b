-- ===== src/Net/Firewall/Order.antt =====
-- The decision of kernel/net/firewall.cpp, as a condition on the table.
use native.Mathlib.Nat.{zero-add}
use mesa_os.Prelude.{
  ℕ, zero, suc, ◌+◌, ◌≤◌, ◌<◌, ◌≡◌, ◌↔◌, sym, ◌∙◌, Bool, true, false, ◌&&◌, arith, ◌==◌, Bool-cases,
  inl, inr, ==_iff,
}
use mesa_os.Net.Firewall.{Firewall, Packet, rule_matches, is_allow, check_from, check_packet}

-- The rule at `i` takes part and matches.
abbrev pub applies : Firewall → Packet → ℕ → Bool
applies f k i = (f.rules i).enabled && rule_matches (f.rules i) k

-- Some rule from `lo` on and below `hi` applies to the packet and allows it, and no rule from `lo`
-- on before that one applies.
pub data IsAllowed (f : Firewall) (k : Packet) (lo hi : ℕ) : Type 0 where
  by_rule :
      (i : ℕ)
      → lo ≤ i
      → i < hi
      → applies f k i ≡ true
      → is_allow (f.rules i).action ≡ true
      → ((j : ℕ) → lo ≤ j → j < i → applies f k j ≡ false)
      → IsAllowed f k lo hi

check_from-skip :
    (f : Firewall) (k : Packet) (i n : ℕ)
    → applies f k i ≡ false
    → check_from f k i (suc n) ≡ check_from f k (i + 1) n
unfolding check_from
check_from-skip f k i n e = ground arith

check_from-stop :
    (f : Firewall) (k : Packet) (i n : ℕ)
    → applies f k i ≡ true
    → check_from f k i (suc n) ≡ is_allow (f.rules i).action
unfolding check_from
check_from-stop f k i n e = ground arith

check_from_sound :
    (f : Firewall) (k : Packet) (i n : ℕ) → check_from f k i n ≡ true → IsAllowed f k i (i + n)
unfolding check_from
check_from_sound f k i zero h = cc
check_from_sound f k i (suc n) h = elim (Bool-cases (applies f k i)) [
  | inl hit ↦
      by_rule i (omega arith) (omega arith) hit (sym (check_from-stop f k i n hit) ∙ h)
        (λ j x y. absurd (omega arith))
  | inr miss ↦ widen (check_from_sound f k (i + 1) n (sym (check_from-skip f k i n miss) ∙ h)) miss
]
  where
    widen : IsAllowed f k (i + 1) (i + 1 + n) → applies f k i ≡ false → IsAllowed f k i (i + suc n)
    widen (by_rule j lo hi hit ok before) miss =
        by_rule j (omega arith) (omega arith) hit ok (λ c x y. elim (Bool-cases (i == c)) [
          | inl e ↦ rw (← (==_iff i c).0 e) miss
          | inr e ↦ before c (ground arith) y
        ])

check_from_complete :
    (f : Firewall) (k : Packet) (i n : ℕ) → IsAllowed f k i (i + n) → check_from f k i n ≡ true
check_from_complete f k i zero (by_rule j lo hi hit ok before) = absurd (omega arith)
check_from_complete f k i (suc n) (by_rule j lo hi hit ok before) = elim (Bool-cases (i == j)) [
  | inl e ↦ let q : i ≡ j = (==_iff i j).0 e in check_from-stop f k i n (rw q hit) ∙ (rw q ok)
  | inr e ↦
      check_from-skip f k i n (before i (omega arith) (ground arith))
      ∙ check_from_complete f k (i + 1) n
          (by_rule j (ground arith) (omega arith) hit ok (λ c x y. before c (omega arith) y))
]

-- `check_packet` lets a packet through exactly if some enabled rule of the table matches it and
-- allows it, and no enabled rule before that one matches it.
pub check_packet_iff :
    (f : Firewall) (k : Packet) → (check_packet f k ≡ true) ↔ IsAllowed f k 0 f.rule_count
unfolding check_packet
check_packet_iff f k = (
  λ h. rw (zero-add f.rule_count) at (check_from_sound f k 0 f.rule_count h),
  λ h. check_from_complete f k 0 f.rule_count (rw (zero-add f.rule_count) h),
)
