-- ===== src/Net/Firewall.antt =====
-- kernel/net/firewall.cpp: a table of at most 32 rules, of which the first that matches decides.
-- The array is a function from the index; log messages are left out.
pub mod Order
pub mod Default
mod Tests
use mesa_os.Prelude.{
  ℕ, zero, suc, ◌+◌, Bool, true, false, ◌&&◌, ◌||◌, List, [], ◌∷◌, ltb, leb, ◌==◌, if◌then◌else◌,
  update,
}

pub data FirewallAction : Type 0 where
  allow deny : FirewallAction

pub record FirewallRule : Type 0 where
  pub src_ip : ℕ
  pub dst_ip : ℕ
  pub src_port : ℕ
  pub dst_port : ℕ
  pub protocol : ℕ
  pub action : FirewallAction
  pub enabled : Bool

pub record Firewall : Type 0 where
  pub rules : ℕ → FirewallRule
  pub rule_count : ℕ

-- The arguments of `check_packet`, and those of `add_rule` besides the action.
pub record Packet : Type 0 where
  pub src_ip : ℕ
  pub dst_ip : ℕ
  pub src_port : ℕ
  pub dst_port : ℕ
  pub protocol : ℕ

abbrev pub max_firewall_rules : ℕ
max_firewall_rules = 32

pub new_rule : Packet → FirewallAction → FirewallRule
new_rule k action = record {
  src_ip = k.src_ip;
  dst_ip = k.dst_ip;
  src_port = k.src_port;
  dst_port = k.dst_port;
  protocol = k.protocol;
  action = action;
  enabled = true;
}

pub add_rule : Firewall → Packet → FirewallAction → Firewall × Bool
add_rule f k action = if leb max_firewall_rules f.rule_count then (f, false) else (
  record f {
    rules = update f.rules f.rule_count (new_rule k action);
    rule_count = f.rule_count + 1;
  },
  true,
)

-- `memset(rules, 0, sizeof(rules))` makes of each rule one that is not enabled.
abbrev pub zero_rule : FirewallRule
zero_rule = record {
  src_ip = 0;
  dst_ip = 0;
  src_port = 0;
  dst_port = 0;
  protocol = 0;
  action = allow;
  enabled = false;
}

abbrev pub any_packet : Packet
any_packet = record { src_ip = 0; dst_ip = 0; src_port = 0; dst_port = 0; protocol = 0 }

pub initialize : Firewall → Firewall
initialize f = (add_rule (record { rules = λ _. zero_rule; rule_count = 0 }) any_packet deny).0

-- The five tests of `check_packet`; 0 in a rule matches everything.
pub rule_matches : FirewallRule → Packet → Bool
rule_matches r k =
    (r.src_ip == 0 || r.src_ip == k.src_ip)
    && (r.dst_ip == 0 || r.dst_ip == k.dst_ip)
    && (r.src_port == 0 || r.src_port == k.src_port)
    && (r.dst_port == 0 || r.dst_port == k.dst_port)
    && (r.protocol == 0 || r.protocol == k.protocol)

abbrev pub is_allow : FirewallAction → Bool
is_allow allow = true
is_allow deny = false

-- The loop of `check_packet` over `i`, with `n` rounds left.
pub check_from : Firewall → Packet → ℕ → ℕ → Bool
check_from f k i zero = false
check_from f k i (suc n) =
    let rest = check_from f k (i + 1) n in
    if (f.rules i).enabled
    then (if rule_matches (f.rules i) k then is_allow (f.rules i).action else rest)
    else rest

pub check_packet : Firewall → Packet → Bool
check_packet f k = check_from f k 0 f.rule_count

pub enable_rule : Firewall → ℕ → Firewall
enable_rule f index =
    if ltb index f.rule_count
    then record f { rules = update f.rules index (record (f.rules index) { enabled = true }) }
    else f

pub disable_rule : Firewall → ℕ → Firewall
disable_rule f index =
    if ltb index f.rule_count
    then record f { rules = update f.rules index (record (f.rules index) { enabled = false }) }
    else f

-- The calls that change the table after `initialize`.
pub data Call : Type 0 where
  add : Packet → FirewallAction → Call
  enable disable : ℕ → Call

pub step : Firewall → Call → Firewall
step f (add k action) = (add_rule f k action).0
step f (enable index) = enable_rule f index
step f (disable index) = disable_rule f index

pub run : Firewall → List Call → Firewall
run f [] = f
run f (c ∷ cs) = run (step f c) cs
