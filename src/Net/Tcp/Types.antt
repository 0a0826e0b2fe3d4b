-- ===== src/Net/Tcp/Types.antt =====
-- The data of kernel/net/tcp.hpp, and the table of connections of kernel/net/tcp.cpp. The list of
-- connections stands for the chain of `next` pointers from `connections` on. `handle` is the
-- address of a connection, which is its socket descriptor too: the heap never gives an address out
-- twice, so a counter serves. Addresses, ports and sequence numbers are unsigned words.
use mesa_os.Prelude.{
  ℕ, ◌+◌, Bool, true, false, not, ◌&&◌, Option, none, some, List, [], ◌∷◌, bit_and, ◌==◌,
  if◌then◌else◌,
}

pub data TcpState : Type 0 where
  closed listen syn_sent syn_received established fin_wait_1 fin_wait_2 close_wait closing last_ack
        time_wait :
      TcpState

pub record TcpConnection : Type 0 where
  pub handle : ℕ
  pub local_ip : ℕ
  pub remote_ip : ℕ
  pub local_port : ℕ
  pub remote_port : ℕ
  pub state : TcpState
  pub seq_number : ℕ
  pub ack_number : ℕ
  pub window_size : ℕ
  pub advertised_window : ℕ
  pub send_window_start : ℕ
  pub send_window_end : ℕ
  pub recv_window_start : ℕ
  pub recv_window_end : ℕ
  pub recv_buffer : ℕ → ℕ
  pub recv_start : ℕ
  pub recv_end : ℕ
  pub recv_count : ℕ
  pub last_ack_time : ℕ
  pub rto : ℕ
  pub retransmit_count : ℕ
  pub syn_timestamp : ℕ
  pub syn_cookie_enabled : Bool

-- The static fields of `TCP`, the two static variables of `handle_packet`, and the address that the
-- heap gives out next.
pub record Tcp : Type 0 where
  pub connections : List TcpConnection
  pub next_ephemeral_port : ℕ
  pub syn_count : ℕ
  pub last_syn_time : ℕ
  pub next_handle : ℕ

abbrev pub tcp_fin : ℕ
tcp_fin = 0x01

abbrev pub tcp_syn : ℕ
tcp_syn = 0x02

abbrev pub tcp_psh : ℕ
tcp_psh = 0x08

abbrev pub tcp_ack : ℕ
tcp_ack = 0x10

abbrev pub tcp_buffer_size : ℕ
tcp_buffer_size = 4096

abbrev pub tcp_default_window_size : ℕ
tcp_default_window_size = 8192

abbrev pub tcp_retransmit_timeout_ms : ℕ
tcp_retransmit_timeout_ms = 1000

-- `sizeof(TCPHeader)`
abbrev pub header_size : ℕ
header_size = 20

-- `flags & flag`, as a truth value.
abbrev pub has : ℕ → ℕ → Bool
has flags flag = not (bit_and flags flag == 0)

abbrev pub is_established : TcpState → Bool
is_established established = true
is_established _ = false

unfoldable pub initialize : Tcp → Tcp
initialize t = record t { connections = []; next_ephemeral_port = 49152 }

abbrev pub is_between : ℕ → ℕ → ℕ → ℕ → TcpConnection → Bool
is_between local_ip remote_ip local_port remote_port c =
    c.local_ip == local_ip
    && c.remote_ip == remote_ip
    && c.local_port == local_port
    && c.remote_port == remote_port

unfoldable pub find_connection : List TcpConnection → ℕ → ℕ → ℕ → ℕ → Option TcpConnection
find_connection [] local_ip remote_ip local_port remote_port = none
find_connection (c ∷ cs) local_ip remote_ip local_port remote_port =
    if is_between local_ip remote_ip local_port remote_port c
    then some c
    else find_connection cs local_ip remote_ip local_port remote_port

-- `kmalloc` returns memory that is cleared, and panics where it has none.
unfoldable pub new_connection : ℕ → ℕ → ℕ → ℕ → ℕ → TcpConnection
new_connection handle local_ip remote_ip local_port remote_port = record {
  handle = handle;
  local_ip = local_ip;
  remote_ip = remote_ip;
  local_port = local_port;
  remote_port = remote_port;
  state = closed;
  seq_number = 0x12345678;
  ack_number = 0;
  window_size = tcp_default_window_size;
  advertised_window = tcp_default_window_size;
  send_window_start = 0x12345678;
  send_window_end = 0x12345678 + tcp_default_window_size;
  recv_window_start = 0;
  recv_window_end = tcp_default_window_size;
  recv_buffer = λ _. 0;
  recv_start = 0;
  recv_end = 0;
  recv_count = 0;
  last_ack_time = 0;
  rto = tcp_retransmit_timeout_ms;
  retransmit_count = 0;
  syn_timestamp = 0;
  syn_cookie_enabled = true;
}

-- The new table, whose first connection is the new one, and the new connection.
unfoldable pub create_connection : Tcp → ℕ → ℕ → ℕ → ℕ → Tcp × TcpConnection
create_connection t local_ip remote_ip local_port remote_port =
    let c = new_connection t.next_handle local_ip remote_ip local_port remote_port in
    (record t { connections = c ∷ t.connections; next_handle = t.next_handle + 1 }, c)

-- The connection at an address; `none` is a pointer to no live connection.
unfoldable pub at_handle : List TcpConnection → ℕ → Option TcpConnection
at_handle [] h = none
at_handle (c ∷ cs) h = if c.handle == h then some c else at_handle cs h

-- What is written through a pointer to `c`.
unfoldable pub store : List TcpConnection → TcpConnection → List TcpConnection
store [] c = []
store (d ∷ cs) c = if d.handle == c.handle then c ∷ cs else d ∷ store cs c

unfoldable pub remove_connection : List TcpConnection → ℕ → List TcpConnection
remove_connection [] h = []
remove_connection (c ∷ cs) h = if c.handle == h then cs else c ∷ remove_connection cs h
