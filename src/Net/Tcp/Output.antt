-- ===== src/Net/Tcp/Output.antt =====
-- `send_packet` of kernel/net/tcp.cpp. What it hands to IPv4 is a value, a segment.
use mesa_os.Prelude.{
  ℕ, ◌+◌, ◌-◌, ◌*◌, ◌/◌, ◌%◌, ◌^◌, Bool, ◌&&◌, ◌||◌, List, [], ◌∷◌, ◌++◌, ltb, ◌==◌, if◌then◌else◌,
  length, take,
}
use mesa_os.Net.Checksum.{tcp_checksum}
use mesa_os.Net.Tcp.Types.{TcpConnection, tcp_fin, tcp_syn, header_size, has, is_established}

-- A packet on its way to IPv4, with the fields of `TCPHeader`.
pub record Segment : Type 0 where
  pub dest_ip : ℕ
  pub src_port : ℕ
  pub dest_port : ℕ
  pub seq_number : ℕ
  pub ack_number : ℕ
  pub data_offset : ℕ
  pub flags : ℕ
  pub window_size : ℕ
  pub checksum : ℕ
  pub urgent_ptr : ℕ
  pub payload : List ℕ

unfoldable pub bytes_16 : ℕ → List ℕ
bytes_16 n = n % 256 ∷ n / 256 % 256 ∷ []

unfoldable pub bytes_32 : ℕ → List ℕ
unfolding bytes_16
bytes_32 n = bytes_16 n ++ bytes_16 (n / 2 ^ 16)

-- The bytes of a packet, each field in the byte order of the processor.
unfoldable pub segment_bytes : Segment → List ℕ
segment_bytes g =
    bytes_16 g.src_port
    ++ bytes_16 g.dest_port
    ++ bytes_32 g.seq_number
    ++ bytes_32 g.ack_number
    ++ g.data_offset ∷ g.flags ∷ []
    ++ bytes_16 g.window_size
    ++ bytes_16 g.checksum
    ++ bytes_16 g.urgent_ptr
    ++ g.payload

-- The bytes that the send window still has room for.
abbrev pub available_window : TcpConnection → ℕ
available_window c = (c.send_window_end + 2 ^ 32 - c.send_window_start) % 2 ^ 32

-- The data that is sent: what the window has room for, once the connection is established.
unfoldable pub windowed : TcpConnection → List ℕ → List ℕ
windowed c payload =
    if ltb 0 (length payload) && is_established c.state
    then take (available_window c) payload
    else payload

unfoldable pub make_segment : TcpConnection → ℕ → List ℕ → Segment
make_segment c flags payload =
    let blank : Segment = record {
      dest_ip = c.remote_ip;
      src_port = c.local_port;
      dest_port = c.remote_port;
      seq_number = c.seq_number;
      ack_number = c.ack_number;
      data_offset = header_size / 4 * 16;
      flags = flags;
      window_size = c.advertised_window % 2 ^ 16;
      checksum = 0;
      urgent_ptr = 0;
      payload = payload;
    } in
    record blank { checksum = tcp_checksum (segment_bytes blank) c.local_ip c.remote_ip }

abbrev pub one_if : Bool → ℕ
one_if b = if b then 1 else 0

-- The connection once `size` bytes are sent with `flags`.
unfoldable pub advance : TcpConnection → ℕ → ℕ → TcpConnection
advance c flags size =
    if ltb 0 size || has flags tcp_syn || has flags tcp_fin
    then record c {
      seq_number =
          (c.seq_number + size + one_if (has flags tcp_syn) + one_if (has flags tcp_fin)) % 2 ^ 32;
      send_window_start =
          if ltb 0 size && is_established c.state
          then (c.send_window_start + size) % 2 ^ 32
          else c.send_window_start;
    }
    else c

-- The payload is the data at `data`, of which there are `data_size` bytes.
unfoldable pub send_packet : TcpConnection → ℕ → List ℕ → TcpConnection × List Segment
send_packet c flags payload =
    let sent = windowed c payload in
    if ltb 0 (length payload) && is_established c.state && length sent == 0
    then (c, [])
    else (advance c flags (length sent), make_segment c flags sent ∷ [])
