-- ===== src/Net/Dhcp.antt =====
-- kernel/net/dhcp.cpp. What the machine knows of its address is the state of kernel/net/ipv4.cpp; the
-- hardware address of this machine, a number of 48 bits, is the argument `mac`.
pub mod Options
pub mod Lease
mod Tests
use mesa_os.Prelude.{
  ℕ, zero, suc, ◌+◌, ◌-◌, ◌*◌, ◌/◌, ◌%◌, ◌^◌, Bool, not, ◌&&◌, List, [], ◌∷◌, bit_and, bit_or, ltb,
  leb, ◌==◌, if◌then◌else◌, nth, all_below,
}
use mesa_os.Net.Arp.{Arp}
use mesa_os.Net.Ipv4
use mesa_os.Net.Ipv4.{Ipv4, Outcome, set_ip, set_netmask, set_gateway}
use mesa_os.Net.Udp
use mesa_os.Net.Packet.{byte, word32}

-- The option `code` whose value of `len` bytes stands at `at`.
unfoldable pub read_option : (ℕ → ℕ) → ℕ → ℕ → ℕ → Ipv4 → Ipv4
read_option packet code len at s =
    if code == 1 && len == 4
    then set_netmask (word32 packet at) s
    else if code == 3 && leb 4 len
    then set_gateway (word32 packet at) s
    else s

-- The loop over the options, on fuel; `at` is the offset of `ptr`.
unfoldable pub parse_options : ℕ → (ℕ → ℕ) → ℕ → ℕ → Ipv4 → Ipv4
parse_options zero packet size at s = s
parse_options (suc fuel) packet size at s =
    let code = packet at in
    let len = packet (at + 1) in
    let rest =
      parse_options fuel packet size (if code == 0 then at + 1 else at + 2 + len)
        (if code == 0 then s else read_option packet code len (at + 2) s) in
    if ltb at size then if code == 255 then s else rest else s

-- The options start at 240, `chaddr` at 28 and `yiaddr` at 16.
unfoldable pub handle_packet : ℕ → (ℕ → ℕ) → ℕ → Ipv4 → Ipv4
handle_packet mac packet size s =
    if ltb size 240
    then s
    else if all_below (λ i. packet (28 + i) == byte i mac) 6
    then if word32 packet 16 == 0
      then s
      else parse_options size packet size 240 (set_ip (word32 packet 16) s)
    else s

unfoldable pub swap_uint32 : ℕ → ℕ
swap_uint32 val =
    bit_or
      (bit_or (bit_or (bit_and (val / 2 ^ 24) 0xff) (bit_and (val / 2 ^ 8) 0xff00))
        (bit_and (val * 2 ^ 8) 0xff0000))
      (bit_and (val * 2 ^ 24) 0xff000000)

abbrev pub transaction_id : ℕ
transaction_id = 0x12345678

-- The message that `discover` sends: `op`, `htype` and `hlen`, `xid` at 4, `chaddr` at 28, the cookie
-- at 236 and the options.
unfoldable pub discover_message : ℕ → ℕ → ℕ
discover_message mac i =
    if ltb i 4
    then nth (1 ∷ 1 ∷ 6 ∷ 0 ∷ []) i
    else if ltb i 8
    then byte (i - 4) (swap_uint32 transaction_id)
    else if leb 28 i && ltb i 34
    then byte (i - 28) mac
    else if leb 236 i && ltb i 240
    then byte (i - 236) (swap_uint32 0x63825363)
    else if leb 240 i && ltb i 250
    then nth (53 ∷ 1 ∷ 1 ∷ 55 ∷ 4 ∷ 1 ∷ 3 ∷ 15 ∷ 6 ∷ 255 ∷ []) (i - 240)
    else 0

-- One attempt of `discover`: the message is sent.
unfoldable pub send_discover : ℕ → (ℕ → ℕ) → (ℕ → ℕ) → (ℕ → ℕ) → Arp → Ipv4 → Outcome
send_discover mac old_datagram old old_frame arp s =
    Udp.send_packet mac old_datagram old old_frame arp s 0xffffffff 68 67 (discover_message mac) 552

-- What polling the cards does to the state, at each time, is the argument `poll`.
module _ (poll : ℕ → Ipv4 → Ipv4) where
  -- The loop that polls, with `n` rounds left: the state and the time afterwards.
  unfoldable pub scan : ℕ → ℕ → Ipv4 → Ipv4 × ℕ
  scan zero time s = (s, time)
  scan (suc n) time s =
      let next = poll time s in
      let rest = scan n (time + 1) next in if not (next.my_ip == 0) then (next, time + 1) else rest

  -- The attempts of `discover`, on fuel.
  unfoldable pub discover : ℕ → ℕ → (ℕ → ℕ) → (ℕ → ℕ) → (ℕ → ℕ) → Arp → ℕ → Ipv4 → Ipv4 × ℕ
  discover zero mac old_datagram old old_frame arp time s = (s, time)
  discover (suc fuel) mac old_datagram old old_frame arp time s =
      let scanned =
        scan 60000000 time ((send_discover mac old_datagram old old_frame arp s).state) in
      let rest = discover fuel mac old_datagram old old_frame arp (scanned.1) (scanned.0) in
      if s.my_ip == 0 then rest else (s, time)
