-- ===== src/Net/Tcp/Machine.antt =====
-- The state machine of kernel/net/tcp.cpp: the moves that packets cause.
use mesa_os.Prelude.{
  ℕ, ◌+◌, ◌≡◌, refl, ap, Bool, true, false, ◌&&◌, Option, none, some, List, [], arith, ltb,
  if◌then◌else◌, Bool-cases, inl, inr, length,
}
use mesa_os.Net.Tcp.Types.{
  TcpConnection, TcpState, closed, listen, syn_sent, syn_received, established, fin_wait_1,
  fin_wait_2, close_wait, closing, last_ack, time_wait, tcp_fin, tcp_syn, tcp_ack, has,
}
use mesa_os.Net.Tcp.Output.{advance, windowed, send_packet}
use mesa_os.Net.Tcp.Input.{
  Memory, Header, data_size, receive_data, react_established, react, Outcome, set_state, reply,
}
use mesa_os.Net.Tcp.Ring.{fill_buffer_fields}

-- The moves of a connection, with the flags of the packet that causes them.
pub data Edge (flags : ℕ) : TcpState → TcpState → Type 0 where
  syn_arrives : has flags tcp_syn ≡ true → Edge flags listen syn_received
  answered : has flags tcp_syn ≡ true → has flags tcp_ack ≡ true → Edge flags syn_sent established
  confirmed : has flags tcp_ack ≡ true → Edge flags syn_received established
  closed_by_peer : has flags tcp_fin ≡ true → Edge flags established last_ack
  fin_acknowledged : has flags tcp_ack ≡ true → Edge flags fin_wait_1 fin_wait_2
  peer_done : has flags tcp_fin ≡ true → Edge flags fin_wait_2 time_wait
  stays : (s : TcpState) → Edge flags s s

-- The states in which a packet may remove its connection.
pub data Ends (flags : ℕ) : TcpState → Type 0 where
  last_acknowledged : has flags tcp_ack ≡ true → Ends flags last_ack
  lingered : Ends flags time_wait

-- What a packet makes of a connection in the state `s`.
pub data Moves (flags : ℕ) (s : TcpState) : Option TcpConnection → Type 0 where
  goes_on : (c : TcpConnection) → Edge flags s c.state → Moves flags s (some c)
  ends : Ends flags s → Moves flags s none

state-advance : (c : TcpConnection) (flags n : ℕ) → (advance c flags n).state ≡ c.state
unfolding advance
state-advance c flags n = ground arith

pub state-send_packet :
    (c : TcpConnection) (flags : ℕ) (payload : List ℕ)
    → (send_packet c flags payload).0.state ≡ c.state
unfolding send_packet
state-send_packet c flags payload =
    ground (arith, state-advance c flags (length (windowed c payload)))

state-receive_data :
    (packet : Memory) (o n : ℕ) (c : TcpConnection) → (receive_data packet o n c).state ≡ c.state
unfolding receive_data
state-receive_data packet o n c = ap (λ d. d.state) (fill_buffer_fields packet o 0 _ c)

reply-Moves :
    (flags out : ℕ) (s : TcpState) (c : TcpConnection)
    → Edge flags s c.state
    → Moves flags s (reply c out).0
reply-Moves flags out s c e = goes_on (send_packet c out []).0 (rw (state-send_packet c out []) e)

react_established-Moves :
    (c : TcpConnection) (packet : Memory) (h : Header) (size : ℕ)
    → c.state ≡ established
    → Moves h.flags established (react_established c packet h size).0
unfolding react_established
react_established-Moves c packet h size e = elim (Bool-cases (has h.flags tcp_fin)) [
  | inl fin ↦
      let c1 = (send_packet (set_state c close_wait) tcp_ack []).0 in
      rw fin (
        goes_on (send_packet (set_state c1 last_ack) (tcp_fin + tcp_ack) []).0 (
          rw (state-send_packet (set_state c1 last_ack) (tcp_fin + tcp_ack) [])
            (closed_by_peer fin)))
  | inr no_fin ↦ elim (Bool-cases (ltb 0 (data_size h size))) [
    | inl some_data ↦
        rw (no_fin, some_data)
          (reply-Moves h.flags tcp_ack established
            (receive_data packet h.data_offset (data_size h size) c)
            (rw (state-receive_data packet h.data_offset (data_size h size) c, e)
              (stays established)))
    | inr no_data ↦ rw (no_fin, no_data) (goes_on c (rw e (stays established)))
  ]
]

-- A case that is taken only if a flag is set, and otherwise leaves the connection.
guarded-Moves :
    (flags : ℕ) (s : TcpState) (c : TcpConnection) (test : Bool) (r : Outcome)
    → c.state ≡ s
    → (test ≡ true → Moves flags s r.0)
    → Moves flags s (if test then r else (some c, [])).0
guarded-Moves flags s c true r e m = m refl
guarded-Moves flags s c false r e m = goes_on c (rw e (stays s))

-- A packet moves a connection along an edge of the state machine, with the flags that the edge
-- asks for, or leaves its state, or removes it: in LAST_ACK if the packet has ACK, or in
-- TIME_WAIT. Nothing else happens in any state.
pub react-Moves :
    (s : TcpState) (c : TcpConnection) (packet : Memory) (h : Header) (size : ℕ)
    → c.state ≡ s
    → Moves h.flags s (react s c packet h size).0
unfolding react
react-Moves closed c packet h size e = goes_on c (rw e (stays closed))
react-Moves listen c packet h size e =
    guarded-Moves h.flags listen c (has h.flags tcp_syn)
      (reply (set_state c syn_received) (tcp_syn + tcp_ack)) e
      (λ f.
        reply-Moves h.flags (tcp_syn + tcp_ack) listen (set_state c syn_received) (syn_arrives f))
react-Moves syn_sent c packet h size e =
    guarded-Moves h.flags syn_sent c (has h.flags tcp_syn && has h.flags tcp_ack)
      (reply (set_state c established) tcp_ack) e
      (λ f.
        reply-Moves h.flags tcp_ack syn_sent (set_state c established)
          (answered (ground (arith, f)) (ground (arith, f))))
react-Moves syn_received c packet h size e =
    guarded-Moves h.flags syn_received c (has h.flags tcp_ack) (some (set_state c established), [])
      e (λ f. goes_on (set_state c established) (confirmed f))
react-Moves established c packet h size e = react_established-Moves c packet h size e
react-Moves fin_wait_1 c packet h size e =
    guarded-Moves h.flags fin_wait_1 c (has h.flags tcp_ack) (some (set_state c fin_wait_2), []) e
      (λ f. goes_on (set_state c fin_wait_2) (fin_acknowledged f))
react-Moves fin_wait_2 c packet h size e =
    guarded-Moves h.flags fin_wait_2 c (has h.flags tcp_fin) (reply (set_state c time_wait) tcp_ack)
      e (λ f. reply-Moves h.flags tcp_ack fin_wait_2 (set_state c time_wait) (peer_done f))
react-Moves close_wait c packet h size e = goes_on c (rw e (stays close_wait))
react-Moves closing c packet h size e = goes_on c (rw e (stays closing))
react-Moves last_ack c packet h size e =
    guarded-Moves h.flags last_ack c (has h.flags tcp_ack) (none, []) e
      (λ f. ends (last_acknowledged f))
react-Moves time_wait c packet h size e = ends lingered
