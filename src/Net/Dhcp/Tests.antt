-- ===== src/Net/Dhcp/Tests.antt =====
-- A reply to kernel/net/dhcp.cpp with a netmask, one of a single byte, and a router.
use mesa_os.Prelude.{
  ℕ, ◌-◌, ◌≡◌, refl, inl, inr, List, [], ◌∷◌, arith, ltb, leb, ◌==◌, if◌then◌else◌, nth,
}
use mesa_os.Net.Ipv4.{at_boot}
use mesa_os.Net.Dhcp.{handle_packet, parse_options}
use mesa_os.Net.Dhcp.Options.{parse_options_fuel, handle_packet-agree}
use mesa_os.Net.Dhcp.Lease.{
  Item, netmask, router, other, IsItem, encode, item_bytes, apply_all, parse_options-encode,
}

abbrev items : List Item
items = netmask 0xffffff ∷ other 1 (9 ∷ []) ∷ router 0x0100000a [] ∷ []

abbrev reply : ℕ → ℕ
reply i = nth (1 ∷ 4 ∷ 0xff ∷ 0xff ∷ 0xff ∷ 0 ∷ 1 ∷ 1 ∷ 9 ∷ 3 ∷ 4 ∷ 10 ∷ 0 ∷ 0 ∷ 1 ∷ 255 ∷ []) i

another : IsItem (other 1 (9 ∷ []))
another = (
  λ e. omega (arith, e),
  λ e. omega (arith, e),
  inr (λ e. omega (arith, e)),
  inl (λ e. omega (arith, e)),
)

parse_options-encode_example : parse_options 20 reply 20 0 at_boot ≡ apply_all items at_boot
unfolding encode item_bytes nth
parse_options-encode_example =
    parse_options-encode items 20 reply 20 0 at_boot (omega arith, (another, (omega arith, tt)))
      (
        refl,
        (
          refl,
          (
            refl,
            (
              refl,
              (
                refl,
                (
                  refl,
                  (
                    refl,
                    (refl, (refl, (refl, (refl, (refl, (refl, (refl, (refl, (refl, tt))))))))),
                  ),
                ),
              ),
            ),
          ),
        ),
      )
      (omega arith) (omega arith)

parse_options_fuel_example :
    parse_options 13 reply 13 0 at_boot ≡ parse_options 40 reply 13 0 at_boot
parse_options_fuel_example = parse_options_fuel 13 40 reply 13 0 at_boot (omega arith) (omega arith)

-- A whole message for the card 5, and the same with other bytes behind the five that may be read past
-- its end.
abbrev message : ℕ → ℕ
message i = if i == 16 then 10 else if i == 28 then 5 else if leb 240 i then reply (i - 240) else 0

abbrev longer : ℕ → ℕ
longer i = if ltb i 258 then message i else 9

handle_packet-agree_example :
    handle_packet 5 message 253 at_boot ≡ handle_packet 5 longer 253 at_boot
handle_packet-agree_example = handle_packet-agree 5 message longer 253 at_boot (λ i h. ground arith)
