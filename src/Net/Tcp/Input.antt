-- ===== src/Net/Tcp/Input.antt =====
-- `handle_packet` of kernel/net/tcp.cpp. A packet is its address: `packet` is the memory from there
-- on, as a function from the offset to the byte, and `size` the number of bytes that arrived.
use mesa_os.Prelude.{
  ℕ, zero, suc, ◌+◌, ◌-◌, ◌*◌, ◌/◌, ◌%◌, ◌^◌, Bool, false, ◌&&◌, Option, none, some, List, [], ◌++◌,
  ltb, if◌then◌else◌, update,
}
use mesa_os.Net.Tcp.Types.{
  TcpState, listen, syn_sent, syn_received, established, fin_wait_1, fin_wait_2, close_wait,
  last_ack, time_wait, TcpConnection, Tcp, tcp_fin, tcp_syn, tcp_ack, tcp_buffer_size, header_size,
  has, find_connection, create_connection, store, remove_connection,
}
use mesa_os.Net.Tcp.Output.{Segment, one_if, send_packet}

abbrev pub Memory : Type 0
Memory = ℕ → ℕ

-- Fields are read in the byte order of the processor.
abbrev pub word_16 : Memory → ℕ → ℕ
word_16 packet i = packet i + packet (i + 1) * 256

abbrev pub word_32 : Memory → ℕ → ℕ
word_32 packet i = word_16 packet i + word_16 packet (i + 2) * 2 ^ 16

-- The fields of the header that `handle_packet` reads, with what it computes from them.
pub record Header : Type 0 where
  pub src_port : ℕ
  pub dest_port : ℕ
  pub seq_number : ℕ
  pub flags : ℕ
  pub data_offset : ℕ

unfoldable pub read_header : Memory → Header
read_header packet = record {
  src_port = word_16 packet 0;
  dest_port = word_16 packet 2;
  seq_number = word_32 packet 4;
  flags = packet 13;
  data_offset = packet 12 / 16 * 4;
}

-- `size - data_offset`, which wraps where the offset is past the end.
unfoldable pub data_size : Header → ℕ → ℕ
data_size h size = (size + 2 ^ 32 - h.data_offset) % 2 ^ 32

-- The copy loop into the receive buffer, over `i` with `n` rounds left.
unfoldable pub fill_buffer : Memory → ℕ → ℕ → ℕ → TcpConnection → TcpConnection
fill_buffer packet offset i zero c = c
fill_buffer packet offset i (suc n) c = fill_buffer packet offset (i + 1) n (record c {
  recv_buffer = update c.recv_buffer c.recv_end (packet (offset + i));
  recv_end = (c.recv_end + 1) % tcp_buffer_size;
})

-- `TCP_BUFFER_SIZE - conn->recv_count` and the smaller of that and the size.
abbrev pub bytes_to_copy : TcpConnection → ℕ → ℕ
bytes_to_copy c size =
    let space = (tcp_buffer_size + 2 ^ 32 - c.recv_count) % 2 ^ 32 in
    if ltb size space then size else space

unfoldable pub receive_data : Memory → ℕ → ℕ → TcpConnection → TcpConnection
receive_data packet offset size c =
    let n = bytes_to_copy c size in
    let filled = fill_buffer packet offset 0 n c in
    record filled { recv_count = (filled.recv_count + n) % 2 ^ 32 }

-- What becomes of a connection, with the segments that are sent; `none` if it is removed.
abbrev pub Outcome : Type 0
Outcome = Option TcpConnection × List Segment

abbrev pub keep : TcpConnection → Outcome
keep c = (some c, [])

abbrev pub set_state : TcpConnection → TcpState → TcpConnection
set_state c st = record c { state = st }

-- `send_packet(conn, flags, nullptr, 0)`
abbrev pub reply : TcpConnection → ℕ → Outcome
reply c flags = let (c', out) = send_packet c flags [] in (some c', out)

-- The case of an established connection.
unfoldable pub react_established : TcpConnection → Memory → Header → ℕ → Outcome
react_established c packet h size =
    if has h.flags tcp_fin
    then (let (c1, out1) = send_packet (set_state c close_wait) tcp_ack [] in
        let (c2, out2) = send_packet (set_state c1 last_ack) (tcp_fin + tcp_ack) [] in
        (some c2, out1 ++ out2))
    else if ltb 0 (data_size h size)
    then reply (receive_data packet h.data_offset (data_size h size) c) tcp_ack
    else keep c

-- The switch on the state of the connection.
unfoldable pub react : TcpState → TcpConnection → Memory → Header → ℕ → Outcome
react listen c packet h size =
    if has h.flags tcp_syn then reply (set_state c syn_received) (tcp_syn + tcp_ack) else keep c
react syn_sent c packet h size =
    if has h.flags tcp_syn && has h.flags tcp_ack
    then reply (set_state c established) tcp_ack
    else keep c
react syn_received c packet h size =
    if has h.flags tcp_ack then keep (set_state c established) else keep c
react established c packet h size = react_established c packet h size
react fin_wait_1 c packet h size =
    if has h.flags tcp_ack then keep (set_state c fin_wait_2) else keep c
react fin_wait_2 c packet h size =
    if has h.flags tcp_fin then reply (set_state c time_wait) tcp_ack else keep c
react last_ack c packet h size = if has h.flags tcp_ack then (none, []) else keep c
react time_wait c packet h size = (none, [])
react _ c packet h size = keep c

-- The acknowledgment number is moved first, in every state.
unfoldable pub acknowledge : TcpConnection → Header → ℕ → TcpConnection
acknowledge c h size = record c {
  ack_number =
      (h.seq_number
        + data_size h size
        + one_if (has h.flags tcp_syn)
        + one_if (has h.flags tcp_fin))
      % 2 ^ 32;
}

unfoldable pub deliver : Tcp → TcpConnection → Memory → Header → ℕ → Tcp × List Segment
deliver t c packet h size =
    let (after, out) = react c.state (acknowledge c h size) packet h size in
    elim after [
      | none ↦ (record t { connections = remove_connection t.connections c.handle }, out)
      | some c' ↦ (record t { connections = store t.connections c' }, out)
    ]

-- The protection against floods of SYN packets: the counters, and whether the packet is dropped.
-- `current_time` is the constant 0 in the source.
unfoldable pub admit_syn : Tcp → Tcp × Bool
admit_syn t =
    if ltb ((0 + 2 ^ 32 - t.last_syn_time) % 2 ^ 32) 1000
    then (record t { syn_count = (t.syn_count + 1) % 2 ^ 32 }, ltb 10 ((t.syn_count + 1) % 2 ^ 32))
    else (record t { syn_count = 1; last_syn_time = 0 }, false)

-- A packet for which there is no connection.
unfoldable pub handle_unknown : Tcp → ℕ → ℕ → Memory → Header → ℕ → Tcp × List Segment
handle_unknown t my_ip src_ip packet h size =
    if has h.flags tcp_syn
    then (let (t1, drop) = admit_syn t in
        let (t2, c) = create_connection t1 my_ip src_ip h.dest_port h.src_port in
        let c' : TcpConnection = record c { state = listen; syn_timestamp = 0 } in
        if drop
        then (t1, [])
        else deliver (record t2 { connections = store t2.connections c' }) c' packet h size)
    else (t, [])

unfoldable pub handle_packet : Tcp → ℕ → ℕ → Memory → ℕ → Tcp × List Segment
handle_packet t my_ip src_ip packet size =
    let h = read_header packet in
    if ltb size header_size
    then (t, [])
    else elim (find_connection t.connections my_ip src_ip h.dest_port h.src_port) [
      | none ↦ handle_unknown t my_ip src_ip packet h size
      | some c ↦ deliver t c packet h size
    ]
