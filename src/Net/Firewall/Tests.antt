-- ===== src/Net/Firewall/Tests.antt =====
-- Runs of kernel/net/firewall.cpp, and the theorems at these inputs.
use mesa_os.Prelude.{◌≡◌, ◌↔◌, refl, true, false, [], ◌∷◌}
use mesa_os.Net.Firewall.Order.{IsAllowed, check_packet_iff}
use mesa_os.Net.Firewall.Default.{all_spare_first, spares_first, initialize_denies}
use mesa_os.Net.Firewall.{
  Firewall, allow, Packet, new_rule, add_rule, zero_rule, initialize, rule_matches, check_from,
  check_packet, enable_rule, disable_rule, add, enable, disable, step, run,
}

abbrev empty : Firewall
empty = record { rules = λ i. zero_rule; rule_count = 0 }

-- A packet to a web server, and the rule that means to let it in.
abbrev web : Packet
web = record { src_ip = 7; dst_ip = 9; src_port = 50000; dst_port = 80; protocol = 6 }

abbrev to_web : Packet
to_web = record { src_ip = 0; dst_ip = 0; src_port = 0; dst_port = 80; protocol = 6 }

-- Rules without the first one of `initialize`: that packet and no other gets in.
web_allowed : check_packet (add_rule empty to_web allow).0 web ≡ true
unfolding check_packet check_from add_rule new_rule rule_matches
web_allowed = refl

-- With the first rule the packet gets in once that rule is disabled.
disable_first : check_packet (run (initialize empty) (add to_web allow ∷ disable 0 ∷ [])) web ≡ true
unfolding run step initialize check_packet check_from add_rule disable_rule enable_rule new_rule
    rule_matches
disable_first = refl

check_packet_iff_example :
    (check_packet (initialize empty) web ≡ true)
    ↔ IsAllowed (initialize empty) web 0 (initialize empty).rule_count
check_packet_iff_example = check_packet_iff (initialize empty) web

spared : all_spare_first (add to_web allow ∷ enable 1 ∷ []) ≡ true
unfolding all_spare_first spares_first
spared = refl

initialize_denies_example :
    check_packet (run (initialize empty) (add to_web allow ∷ enable 1 ∷ [])) web ≡ false
initialize_denies_example = initialize_denies empty (add to_web allow ∷ enable 1 ∷ []) web spared
