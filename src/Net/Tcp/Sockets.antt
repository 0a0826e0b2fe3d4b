-- ===== src/Net/Tcp/Sockets.antt =====
-- The calls on sockets in kernel/net/tcp.cpp. A socket descriptor is the address of a connection,
-- 0 for none. A call through the address of a connection that was removed is a read of freed
-- memory: its result is `fault`, and the table stays.
use mesa_os.Prelude.{
  ℕ, zero, suc, ◌+◌, ◌-◌, ◌%◌, ◌^◌, Option, none, some, List, [], ◌∷◌, ltb, ◌==◌, if◌then◌else◌,
  length,
}
use mesa_os.Net.Tcp.Types.{
  listen, syn_sent, established, fin_wait_1, TcpConnection, Tcp, tcp_fin, tcp_syn, tcp_psh, tcp_ack,
  tcp_buffer_size, is_established, create_connection, at_handle, store, remove_connection,
}
use mesa_os.Net.Tcp.Output.{Segment, send_packet}

-- The integer that a call returns.
pub data Returned : Type 0 where
  value : ℕ → Returned
  minus_one : Returned
  fault : Returned

-- `listen` names a state too.
unfoldable pub listen_on : Tcp → ℕ → ℕ → Tcp × ℕ
listen_on t my_ip port =
    let (t', c) = create_connection t my_ip 0 port 0 in
    (record t' { connections = store t'.connections (record c { state = listen }) }, c.handle)

-- The connection that a descriptor stands for, if it is established.
unfoldable pub open_connection : Tcp → ℕ → Option TcpConnection
open_connection t fd = elim (at_handle t.connections fd) [
  | none ↦ none
  | some c ↦ if is_established c.state then some c else none
]

-- What a call returns if `open_connection` finds nothing.
unfoldable pub refusal : Tcp → ℕ → Returned
refusal t fd =
    if fd == 0
    then minus_one
    else elim (at_handle t.connections fd) [ none ↦ fault | some c ↦ minus_one ]

-- The result, and the address and port of the client that go out through the pointers.
unfoldable pub accept : Tcp → ℕ → Returned × Option (ℕ × ℕ)
accept t fd = elim (open_connection t fd) [
  | none ↦ (refusal t fd, none)
  | some c ↦ (value fd, some (c.remote_ip, c.remote_port))
]

-- The copy loop out of the receive buffer, with `n` rounds left.
unfoldable pub drain_buffer : ℕ → TcpConnection → TcpConnection × List ℕ
drain_buffer zero c = (c, [])
drain_buffer (suc n) c =
    let (c', rest) =
      drain_buffer n (record c { recv_start = (c.recv_start + 1) % tcp_buffer_size }) in
    (c', c.recv_buffer c.recv_start ∷ rest)

abbrev pub bytes_to_read : TcpConnection → ℕ → ℕ
bytes_to_read c size = if ltb size c.recv_count then size else c.recv_count

-- The connection after a read of at most `size` bytes, with the bytes.
unfoldable pub read_data : ℕ → TcpConnection → TcpConnection × List ℕ
read_data size c =
    let n = bytes_to_read c size in
    let (c', bytes) = drain_buffer n c in
    (record c' { recv_count = (c'.recv_count + 2 ^ 32 - n) % 2 ^ 32 }, bytes)

-- `buffer` is not null.
unfoldable pub recv : Tcp → ℕ → ℕ → Tcp × Returned × List ℕ
recv t fd size = elim (open_connection t fd) [
  | none ↦ (t, refusal t fd, [])
  | some c ↦
      if c.recv_count == 0
      then (t, value 0, [])
      else let (c', bytes) = read_data size c in
        (record t { connections = store t.connections c' }, value (bytes_to_read c size), bytes)
]

unfoldable pub send : Tcp → ℕ → List ℕ → Tcp × Returned × List Segment
send t fd payload = elim (open_connection t fd) [
  | none ↦ (t, refusal t fd, [])
  | some c ↦
      let (c', out) = send_packet c (tcp_ack + tcp_psh) payload in
      (record t { connections = store t.connections c' }, value (length payload), out)
]

unfoldable pub close : Tcp → ℕ → Tcp × List Segment
close t fd = elim (at_handle t.connections fd) [
  | none ↦ (t, [])
  | some c ↦
      if is_established c.state
      then (let (c', out) = send_packet (record c { state = fin_wait_1 }) (tcp_fin + tcp_ack) [] in
          (record t { connections = store t.connections c' }, out))
      else (record t { connections = remove_connection t.connections c.handle }, [])
]

-- The handshake is simulated: the connection is established as soon as the SYN is sent.
unfoldable pub connect : Tcp → ℕ → ℕ → ℕ → Tcp × ℕ × List Segment
connect t my_ip dest_ip dest_port =
    let local_port = t.next_ephemeral_port in
    let (t', c) =
      create_connection (record t { next_ephemeral_port = (local_port + 1) % 2 ^ 16 }) my_ip dest_ip
        local_port dest_port in
    let (c', out) = send_packet (record c { state = syn_sent }) tcp_syn [] in
    (
      record t' { connections = store t'.connections (record c' { state = established }) },
      c.handle,
      out,
    )
