-- ===== src/Net/Tcp/Stream.antt =====
-- The byte stream of an established connection in kernel/net/tcp.cpp, from the packets that arrive
-- to the calls of `recv`.
use mathlib.Core.List.{append-nil, append_assoc}
use mesa_os.Prelude.{ℕ, ◌≤◌, ◌≡◌, refl, sym, ap, ◌∙◌, false, some, List, [], ◌∷◌, ◌++◌, arith, ltb}
use mesa_os.Net.Tcp.Types.{TcpConnection, Tcp, tcp_ack, header_size, find_connection, store}
use mesa_os.Net.Tcp.Output.{Segment, make_segment, advance, windowed, send_packet}
use mesa_os.Net.Tcp.Input.{
  Memory, Header, read_header, data_size, receive_data, bytes_to_copy, acknowledge, react, deliver,
  handle_packet,
}
use mesa_os.Net.Tcp.Sockets.{read_data}
use mesa_os.Net.Tcp.Ring.{contents, bytes_at, IsBuffered, receive_data_lem, read_data_lem}

-- What happens to the receive buffer of a connection: a payload arrives, or the program reads.
pub data Event : Type 0 where
  arrive : Memory → ℕ → ℕ → Event
  read : ℕ → Event

pub after : TcpConnection → Event → TcpConnection
after c (arrive packet o size) = receive_data packet o size c
after c (read size) = (read_data size c).0

-- The bytes that find room.
pub accepted : TcpConnection → List Event → List ℕ
accepted c [] = []
accepted c (arrive packet o size ∷ es) =
    bytes_at packet o (bytes_to_copy c size) ++ accepted (receive_data packet o size c) es
accepted c (read size ∷ es) = accepted (read_data size c).0 es

-- The bytes that the program gets.
pub delivered : TcpConnection → List Event → List ℕ
delivered c [] = []
delivered c (arrive packet o size ∷ es) = delivered (receive_data packet o size c) es
delivered c (read size ∷ es) = (read_data size c).1 ++ delivered (read_data size c).0 es

pub history : TcpConnection → List Event → TcpConnection
history c [] = c
history c (e ∷ es) = history (after c e) es

-- From a connection whose buffer indices are in order, over any history of arriving payloads and
-- reads: what the program has read, followed by what still waits, is what waited at the start,
-- followed by what was accepted; no accepted byte is lost, repeated or moved.
pub stream_lem :
    (c : TcpConnection) (es : List Event)
    → IsBuffered c
    → delivered c es ++ contents (history c es) ≡ contents c ++ accepted c es
unfolding history after accepted delivered
stream_lem c [] b = sym (append-nil (contents c))
stream_lem c (arrive packet o size ∷ es) b =
    let (more, still, _) = receive_data_lem packet o size c b in
    stream_lem (receive_data packet o size c) es still
    ∙ ap (λ l. l ++ accepted (receive_data packet o size c) es) more
    ∙ append_assoc (contents c) _ _
stream_lem c (read size ∷ es) b =
    let (split, _, still) = read_data_lem size c b in
    append_assoc (read_data size c).1 _ _
    ∙ ap (◌++◌ (read_data size c).1) (stream_lem (read_data size c).0 es still)
    ∙ sym (append_assoc (read_data size c).1 _ _)
    ∙ ap (λ l. l ++ accepted (read_data size c).0 es) (sym split)

-- An empty packet that only acknowledges leaves the connection as it is.
pub send_packet_ack :
    (c : TcpConnection) → send_packet c tcp_ack [] ≡ (c, make_segment c tcp_ack [] ∷ [])
unfolding send_packet windowed advance
send_packet_ack c = refl

pub deliver-kept :
    (t : Tcp) (c c' : TcpConnection) (packet : Memory) (h : Header) (size : ℕ) (out : List Segment)
    → react c.state (acknowledge c h size) packet h size ≡ (some c', out)
    → deliver t c packet h size ≡ (record t { connections = store t.connections c' }, out)
unfolding deliver
deliver-kept t c c' packet h size out e = rw (e, deliver) (rw e)

pub handle_packet-found :
    (t : Tcp) (my_ip src_ip : ℕ) (packet : Memory) (size : ℕ) (c : TcpConnection)
    → header_size ≤ size
    → find_connection t.connections my_ip src_ip
        (read_header packet).dest_port
        (read_header packet).src_port
      ≡ some c
    → handle_packet t my_ip src_ip packet size ≡ deliver t c packet (read_header packet) size
unfolding handle_packet
handle_packet-found t my_ip src_ip packet size c h f =
    let complete : ltb size header_size ≡ false = ground arith in rw (complete, f)

-- A packet with a complete header, with data and with no FIN on an established connection.
module _ (t : Tcp) (my_ip src_ip : ℕ) (packet : Memory) (size : ℕ) (c : TcpConnection) where
  abbrev head : Header
  head = read_header packet

  -- The connection that `handle_packet` leaves in the table.
  pub updated : TcpConnection
  updated = receive_data packet head.data_offset (data_size head size) (acknowledge c head size)
