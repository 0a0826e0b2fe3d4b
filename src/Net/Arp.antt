-- ===== src/Net/Arp.antt =====
-- kernel/net/arp.cpp: the cache of one address, and the messages that are sent. A message is a record
-- of its fields as the processor reads them, the lowest byte first; a hardware address is a number of 48
-- bits. The addresses of the machine and its gateway, which other parts keep, are arguments, and so are
-- the hardware address `mac` that `Ethernet::get_mac_address` returns and the one, `card_mac`, that
-- `RTL8139::get_mac_address` does, which is zero where another card is in use.
pub mod Cache
mod Tests
use mesa_os.Prelude.{
  ℕ, ◌*◌, ◌/◌, ◌%◌, ◌^◌, ◌++◌, Bool, true, false, not, ◌&&◌, List, [], ◌∷◌, bit_or, ltb, ◌==◌,
  if◌then◌else◌,
}

pub record ArpMessage : Type 0 where
  pub hardware_type : ℕ
  pub protocol_type : ℕ
  pub hardware_addr_len : ℕ
  pub protocol_addr_len : ℕ
  pub opcode : ℕ
  pub src_mac : ℕ
  pub src_ip : ℕ
  pub dest_mac : ℕ
  pub dest_ip : ℕ

pub record Arp : Type 0 where
  pub cache_ip : ℕ
  pub cache_mac : ℕ

abbrev pub broadcast_mac : ℕ
broadcast_mac = 0xffff_ffff_ffff

-- A call of `Ethernet::send_packet`; the message is padded with zeros to `length`.
pub record Frame : Type 0 where
  pub destination : ℕ
  pub ethertype : ℕ
  pub message : ArpMessage
  pub length : ℕ

unfoldable pub swap_uint16 : ℕ → ℕ
swap_uint16 val = bit_or (val * 2 ^ 8) (val / 2 ^ 8) % 2 ^ 16

module _ (ip card_mac : ℕ) where
  pub send_reply : ℕ → ℕ → Frame
  send_reply dest_mac dest_ip = record {
    destination = dest_mac;
    ethertype = 0x0806;
    message = record {
      hardware_type = swap_uint16 1;
      protocol_type = swap_uint16 0x0800;
      hardware_addr_len = 6;
      protocol_addr_len = 4;
      opcode = swap_uint16 2;
      src_mac = card_mac;
      src_ip = ip;
      dest_mac = dest_mac;
      dest_ip = dest_ip;
    };
    length = 28;
  }

  -- A message of 28 bytes; `size` is that of the packet.
  pub handle_packet : Arp → ArpMessage → ℕ → Arp × List Frame
  handle_packet a msg size =
      let opcode = swap_uint16 msg.opcode in
      let cached : Arp =
        if msg.dest_ip == ip
        then record { cache_ip = msg.src_ip; cache_mac = msg.src_mac }
        else a in
      if ltb size 28
      then (a, [])
      else if opcode == 0x0100 && msg.dest_ip == ip
      then (cached, send_reply msg.src_mac msg.src_ip ∷ [])
      else (cached, [])

module _ (ip gateway mac : ℕ) where
  pub send_request : ℕ → Frame
  send_request target_ip = record {
    destination = broadcast_mac;
    ethertype = 0x0806;
    message = record {
      hardware_type = swap_uint16 1;
      protocol_type = swap_uint16 0x0800;
      hardware_addr_len = 6;
      protocol_addr_len = 4;
      opcode = swap_uint16 1;
      src_mac = mac;
      src_ip = ip;
      dest_mac = 0;
      dest_ip = target_ip;
    };
    length = 46;
  }

  -- The hardware address, and the requests that are sent meanwhile.
  pub resolve : Arp → ℕ → ℕ × List Frame
  resolve a target_ip =
      if target_ip == a.cache_ip && not (a.cache_ip == 0)
      then (a.cache_mac, [])
      else if not (gateway == 0) && not (target_ip == gateway)
      then if gateway == a.cache_ip
        then (a.cache_mac, send_request target_ip ∷ [])
        else (broadcast_mac, send_request target_ip ∷ send_request gateway ∷ [])
      else (broadcast_mac, send_request target_ip ∷ [])
