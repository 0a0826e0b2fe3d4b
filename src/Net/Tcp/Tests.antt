-- ===== src/Net/Tcp/Tests.antt =====
-- Runs of kernel/net/tcp.cpp on one connection, and the theorems at these inputs.
use mesa_os.Prelude.{
  ℕ, ◌-◌, ◌≡◌, refl, true, none, some, List, [], ◌∷◌, ◌++◌, arith, ltb, ◌==◌, if◌then◌else◌, take,
}
use mesa_os.Net.Tcp.Types.{
  established, TcpConnection, Tcp, tcp_fin, tcp_syn, tcp_ack, has, find_connection, new_connection,
  at_handle,
}
use mesa_os.Net.Tcp.Sockets.{value}
use mesa_os.Net.Tcp.Input.{Memory, read_header, react}
use mesa_os.Net.Tcp.Ring.{contents, IsBuffered}
use mesa_os.Net.Tcp.Stream.{Event, arrive, read, accepted, delivered, history, stream_lem}
use mesa_os.Net.Tcp.Machine.{Moves, react-Moves}
use mesa_os.Net.Tcp.SendWindow.{payloads, concat, send_all, AreData, IsOpen, send_all_lem}

-- A connection between 10 and 20, both on port 0.
abbrev connection : TcpConnection
connection = record (new_connection 1 10 20 0 0) { state = established }

abbrev table : List TcpConnection → ℕ → Tcp
table connections syn_count = record {
  connections = connections;
  next_ephemeral_port = 49152;
  syn_count = syn_count;
  last_syn_time = 0;
  next_handle = 2;
}

-- A packet with the header length 20 and the given flags, and 7 everywhere in its data.
abbrev packet_of : ℕ → Memory
packet_of flags i = if i == 12 then 0x50 else if i == 13 then flags else if ltb i 20 then 0 else 7

connection-IsBuffered : IsBuffered connection
unfolding new_connection
connection-IsBuffered = record { start = omega arith; count = omega arith; end = refl }

connection-IsOpen : IsOpen connection
unfolding new_connection
connection-IsOpen = record { established_state = refl; order = omega arith; bound = omega arith }

-- Two payloads, between them and after them a read.
abbrev events : List Event
events =
    arrive (packet_of tcp_ack) 20 5 ∷ read 3 ∷ arrive (packet_of tcp_ack) 20 4095 ∷ read 5000 ∷ []

stream_lem_example :
    delivered connection events ++ contents (history connection events)
    ≡ contents connection ++ accepted connection events
stream_lem_example = stream_lem connection events connection-IsBuffered

not_found :
    find_connection [] 10 20
      (read_header (packet_of tcp_syn)).dest_port
      (read_header (packet_of tcp_syn)).src_port
    ≡ none
unfolding find_connection
not_found = refl

with_syn : has (read_header (packet_of tcp_syn)).flags tcp_syn ≡ true
unfolding read_header
with_syn = refl

react-Moves_example :
    Moves
      (read_header (packet_of tcp_fin)).flags
      established
      (react established connection (packet_of tcp_fin) (read_header (packet_of tcp_fin)) 20).0
react-Moves_example =
    react-Moves established connection (packet_of tcp_fin) (read_header (packet_of tcp_fin)) 20 refl

found_fd : at_handle (table (connection ∷ []) 0).connections 1 ≡ some connection
unfolding at_handle new_connection
found_fd = refl

send_all_lem_example :
    let out = send_all (table (connection ∷ []) 0) 1 ((1 ∷ 2 ∷ []) ∷ (3 ∷ []) ∷ []) in
    (payloads out.0
      ≡ take
          (connection.send_window_end - connection.send_window_start)
          (concat ((1 ∷ 2 ∷ []) ∷ (3 ∷ []) ∷ [])))
    × AreData connection out.0
    × (out.1 ≡ value 2 ∷ value 1 ∷ [])
send_all_lem_example =
    send_all_lem ((1 ∷ 2 ∷ []) ∷ (3 ∷ []) ∷ []) (table (connection ∷ []) 0) 1 connection found_fd
      connection-IsOpen
