-- ===== src/Net/Icmp/Tests.antt =====
-- A reply that kernel/net/icmp.cpp prints, and a request, which it does not answer.
use mesa_os.Prelude.{◌≡◌, refl, none, some, [], ◌∷◌, nth}
use mesa_os.Net.Icmp.{handle_packet, swapped}

reply_test :
    handle_packet (nth (0 ∷ 0 ∷ 0 ∷ 0 ∷ 0 ∷ 0 ∷ 1 ∷ 2 ∷ [])) 40 0x0100000a
    ≡ some (record { address = 10 ∷ 0 ∷ 0 ∷ 1 ∷ []; bytes = 32; sequence = 0x0102 })
unfolding handle_packet nth swapped
reply_test = refl

request_test : handle_packet (nth (8 ∷ 0 ∷ [])) 40 0x0100000a ≡ none
unfolding handle_packet nth
request_test = refl
