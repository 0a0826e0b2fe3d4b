-- ===== src/Net/Tcp/Handshake.antt =====
-- SYN packets for which kernel/net/tcp.cpp has no connection: the ones that make a connection, and
-- the ones that are dropped as a flood.
use mesa_os.Prelude.{
  ℕ, ◌+◌, ◌-◌, ◌%◌, ◌^◌, ◌≤◌, ◌<◌, ◌≡◌, refl, ap, ◌∙◌, true, false, none, some, List, [], ◌∷◌,
  arith, ltb, ◌==◌, ==_refl,
}
use mesa_os.Net.Tcp.Types.{
  TcpConnection, listen, syn_received, Tcp, tcp_syn, tcp_ack, header_size, has, find_connection,
  new_connection, create_connection, store,
}
use mesa_os.Net.Tcp.Output.{Segment, make_segment, advance, windowed, send_packet}
use mesa_os.Net.Tcp.Stream.{deliver-kept}
use mesa_os.Net.Tcp.Input.{
  Memory, read_header, acknowledge, react, deliver, admit_syn, handle_unknown, handle_packet,
  set_state,
}

-- A SYN packet with a complete header, for which the table has no connection, is dropped once ten
-- such are counted: no connection is made and no segment is sent, and only the count grows, so
-- long as the count fits 32 bits. The clock that should forget the count stands still.
pub handle_packet_flood :
    (t : Tcp) (my_ip src_ip : ℕ) (packet : Memory) (size : ℕ)
    → header_size ≤ size
    → find_connection t.connections my_ip src_ip
        (read_header packet).dest_port
        (read_header packet).src_port
      ≡ none
    → has (read_header packet).flags tcp_syn ≡ true
    → t.last_syn_time ≡ 0
    → 10 ≤ t.syn_count
    → t.syn_count + 1 < 2 ^ 32
    → handle_packet t my_ip src_ip packet size ≡ (record t { syn_count = t.syn_count + 1 }, [])
unfolding handle_packet handle_unknown admit_syn
handle_packet_flood t my_ip src_ip packet size h f s l k w =
    let complete : ltb size header_size ≡ false = ground arith in
    let soon : ltb ((0 + 2 ^ 32 - t.last_syn_time) % 2 ^ 32) 1000 ≡ true = ground arith in
    let more : (t.syn_count + 1) % 2 ^ 32 ≡ t.syn_count + 1 = omega arith in
    let over : ltb 10 (t.syn_count + 1) ≡ true = ground arith in
    rw (complete, f, s, soon, more, over)

-- The connection that is made for a SYN packet, as it stands in the table before the packet is
-- delivered to it.
abbrev pub listening : Tcp → ℕ → ℕ → Memory → TcpConnection
listening t my_ip src_ip packet =
    let h = read_header packet in
    record (new_connection t.next_handle my_ip src_ip h.dest_port h.src_port) {
      state = listen;
      syn_timestamp = 0;
    }

-- The connection that a SYN packet leaves.
pub opened : Tcp → ℕ → ℕ → Memory → ℕ → TcpConnection
opened t my_ip src_ip packet size =
    let c = acknowledge (listening t my_ip src_ip packet) (read_header packet) size in
    (send_packet (set_state c syn_received) (tcp_syn + tcp_ack) []).0

admitted : Tcp → TcpConnection → Tcp
admitted t c = record t {
  connections = c ∷ t.connections;
  next_handle = t.next_handle + 1;
  syn_count = t.syn_count + 1;
}

store-head :
    (cs : List TcpConnection) (c d : TcpConnection)
    → d.handle ≡ c.handle
    → store (d ∷ cs) c ≡ c ∷ cs
unfolding store
store-head cs c d e = let here : (d.handle == c.handle) ≡ true = rw (e, ==_refl c.handle) in rw here

handle_unknown-admitted :
    (t : Tcp) (my_ip src_ip : ℕ) (packet : Memory) (size : ℕ)
    → has (read_header packet).flags tcp_syn ≡ true
    → t.last_syn_time ≡ 0
    → t.syn_count < 10
    → handle_unknown t my_ip src_ip packet (read_header packet) size
      ≡ deliver
          (admitted t (listening t my_ip src_ip packet))
          (listening t my_ip src_ip packet)
          packet
          (read_header packet)
          size
unfolding handle_unknown admit_syn create_connection admitted new_connection
handle_unknown-admitted t my_ip src_ip packet size s l k =
    let soon : ltb ((0 + 2 ^ 32 - t.last_syn_time) % 2 ^ 32) 1000 ≡ true = ground arith in
    let more : (t.syn_count + 1) % 2 ^ 32 ≡ t.syn_count + 1 = omega arith in
    let under : ltb 10 (t.syn_count + 1) ≡ false = ground arith in
    let h = read_header packet in
    let fresh = new_connection t.next_handle my_ip src_ip h.dest_port h.src_port in
    let stored = store-head t.connections (listening t my_ip src_ip packet) fresh refl in
    rw (s, soon, more, under, stored)

-- A SYN packet with a complete header, for which the table has no connection, while fewer than ten
-- such are counted: it makes a connection, on whatever port, that is put first in the table with
-- its addresses from the packet, is half open, and is found for later packets; the one segment
-- that is sent has SYN and ACK set and the acknowledgment number of the connection.
pub handle_packet_syn :
    (t : Tcp) (my_ip src_ip : ℕ) (packet : Memory) (size : ℕ)
    → header_size ≤ size
    → find_connection t.connections my_ip src_ip
        (read_header packet).dest_port
        (read_header packet).src_port
      ≡ none
    → has (read_header packet).flags tcp_syn ≡ true
    → t.last_syn_time ≡ 0
    → t.syn_count < 10
    → (g : Segment) × (handle_packet t my_ip src_ip packet size ≡ (
      record t {
        connections = opened t my_ip src_ip packet size ∷ t.connections;
        next_handle = t.next_handle + 1;
        syn_count = t.syn_count + 1;
      },
      g ∷ [],
    ))
      × ((opened t my_ip src_ip packet size).state ≡ syn_received)
      × (find_connection
            (opened t my_ip src_ip packet size ∷ t.connections)
            my_ip
            src_ip
            (read_header packet).dest_port
            (read_header packet).src_port
          ≡ some (opened t my_ip src_ip packet size))
      × (g.flags ≡ tcp_syn + tcp_ack)
      × (g.ack_number ≡ (opened t my_ip src_ip packet size).ack_number)
unfolding handle_packet react acknowledge send_packet windowed advance opened find_connection
    make_segment admitted new_connection
handle_packet_syn t my_ip src_ip packet size h f s l k =
    let complete : ltb size header_size ≡ false = ground arith in
    let hd = read_header packet in
    let c1 = listening t my_ip src_ip packet in
    let c2 = set_state (acknowledge c1 hd size) syn_received in
    let g = make_segment c2 (tcp_syn + tcp_ack) [] in
    let reacted : react listen (acknowledge c1 hd size) packet hd size
        ≡ (some (opened t my_ip src_ip packet size), g ∷ []) =
      rw s in
    let unknown : handle_packet t my_ip src_ip packet size
        ≡ handle_unknown t my_ip src_ip packet hd size =
      rw (complete, f) in
    (
      g,
      unknown
          ∙ handle_unknown-admitted t my_ip src_ip packet size s l k
          ∙ deliver-kept (admitted t c1) c1 (opened t my_ip src_ip packet size) packet hd size _
              reacted
          ∙ ap (λ cs. (record (admitted t c1) { connections = cs }, g ∷ []))
              (store-head t.connections (opened t my_ip src_ip packet size) c1 refl),
      refl,
      rw (==_refl my_ip, ==_refl src_ip, ==_refl hd.dest_port, ==_refl hd.src_port),
      refl,
      refl,
    )
