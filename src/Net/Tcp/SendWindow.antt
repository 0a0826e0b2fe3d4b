-- ===== src/Net/Tcp/SendWindow.antt =====
-- The send window of kernel/net/tcp.cpp: what reaches IPv4 of the data that `TCP::send` is given.
use mathlib.Core.List.{append_assoc, append-nil}
use mesa_os.Prelude.{
  ℕ, zero, suc, ◌+◌, ◌-◌, ◌%◌, ◌^◌, ◌≤◌, ◌<◌, ◌≡◌, refl, sym, ap, ap₂, ◌∙◌, true, false, some, List,
  [], ◌∷◌, ◌++◌, arith, ltb, ◌==◌, Bool-cases, inl, inr, map, length, take,
}
use mesa_os.Net.Tcp.Types.{
  TcpConnection, Tcp, established, tcp_psh, tcp_ack, is_established, at_handle, store,
}
use mesa_os.Net.Tcp.Handles.{at_handle_handle, stored}
use mesa_os.Net.Tcp.Sockets.{Returned, value, open_connection, send}
use mesa_os.Net.Tcp.Output.{Segment, available_window, make_segment, advance, windowed, send_packet}

-- The data of a sequence of segments.
abbrev pub payloads : List Segment → List ℕ
payloads [] = []
payloads (g ∷ gs) = g.payload ++ payloads gs

abbrev pub concat : List (List ℕ) → List ℕ
concat [] = []
concat (p ∷ ps) = p ++ concat ps

-- A sequence of calls of `send` on one descriptor: the segments, and what the calls return.
pub send_all : Tcp → ℕ → List (List ℕ) → List Segment × List Returned
send_all t fd [] = ([], [])
send_all t fd (p ∷ ps) =
    let (t', returned, out) = send t fd p in
    let (outs, results) = send_all t' fd ps in (out ++ outs, returned ∷ results)

-- A segment of a connection with its data, as `send` makes it.
abbrev pub IsData : TcpConnection → Segment → Type 0
IsData c g =
    (g.flags ≡ tcp_psh + tcp_ack)
    × (g.dest_ip ≡ c.remote_ip)
    × (g.src_port ≡ c.local_port)
    × (g.dest_port ≡ c.remote_port)

abbrev pub AreData : TcpConnection → List Segment → Type 0
AreData c [] = Unit {0}
AreData c (g ∷ gs) = IsData c g × AreData c gs

-- An established connection whose window has not wrapped around.
pub record IsOpen (c : TcpConnection) : Type 0 where
  pub established_state : c.state ≡ established
  pub order : c.send_window_start ≤ c.send_window_end
  pub bound : c.send_window_end < 2 ^ 32

payloads-append : (gs hs : List Segment) → payloads (gs ++ hs) ≡ payloads gs ++ payloads hs
payloads-append [] hs = refl
payloads-append (g ∷ gs) hs =
    ap (◌++◌ g.payload) (payloads-append gs hs) ∙ sym (append_assoc g.payload _ _)

length-take : (n : ℕ) (xs : List ℕ) → length (take n xs) ≤ n
length-take zero xs = omega arith
length-take (suc n) [] = omega arith
length-take (suc n) (x ∷ xs) = omega (arith, length-take n xs)

take-append :
    (n : ℕ) (xs ys : List ℕ) → take n (xs ++ ys) ≡ take n xs ++ take (n - length (take n xs)) ys
take-append zero xs ys = refl
take-append (suc n) [] ys = let e : suc n ≡ suc n - 0 = omega arith in ap (λ k. take k ys) e
take-append (suc n) (x ∷ xs) ys =
    let e : n - length (take n xs) ≡ suc n - suc (length (take n xs)) = omega arith in
    ap (◌∷◌ x) (take-append n xs ys ∙ ap (λ k. take n xs ++ take k ys) e)

take-nil : (n : ℕ) → take {A = ℕ} n [] ≡ []
take-nil zero = refl
take-nil (suc n) = refl

available :
    (c : TcpConnection) → IsOpen c → available_window c ≡ c.send_window_end - c.send_window_start
available c o = omega (arith, o.order, o.bound)

-- One packet: the data that goes out, and the connection that is left.
pub record IsSent (c : TcpConnection) (p : List ℕ) (c' : TcpConnection) (out : List Segment)
    : Type 0 where
  pub data_sent : payloads out ≡ take (available_window c) p
  pub segments : AreData c out
  pub same_handle : c'.handle ≡ c.handle
  pub same_state : c'.state ≡ c.state
  pub same_end : c'.send_window_end ≡ c.send_window_end
  pub moved : c'.send_window_start ≡ c.send_window_start + length (take (available_window c) p)
  pub same_remote : (c'.remote_ip ≡ c.remote_ip) × (c'.remote_port ≡ c.remote_port)
  pub same_local : c'.local_port ≡ c.local_port

length-zero : (xs : List ℕ) → (length xs == 0) ≡ true → xs ≡ []
length-zero [] e = refl
length-zero (x ∷ xs) e = absurd (ground (arith, e))

-- The whole window is in flight: nothing is sent.
send_packet-blocked :
    (c : TcpConnection) (x : ℕ) (xs : List ℕ)
    → is_established c.state ≡ true
    → (length (take (available_window c) (x ∷ xs)) == 0) ≡ true
    → send_packet c (tcp_ack + tcp_psh) (x ∷ xs) ≡ (c, [])
unfolding send_packet windowed
send_packet-blocked c x xs o e =
    let given : ltb 0 (length (x ∷ xs)) ≡ true = ground arith in rw (o, given, e)

-- There is room: what the window has room for is sent, and the window moves on by that.
send_packet-sent :
    (c : TcpConnection) (x : ℕ) (xs : List ℕ)
    → is_established c.state ≡ true
    → (length (take (available_window c) (x ∷ xs)) == 0) ≡ false
    → send_packet c (tcp_ack + tcp_psh) (x ∷ xs) ≡ (
      record c {
        seq_number = (c.seq_number + length (take (available_window c) (x ∷ xs)) + 0 + 0) % 2 ^ 32;
        send_window_start =
            (c.send_window_start + length (take (available_window c) (x ∷ xs))) % 2 ^ 32;
      },
      make_segment c (tcp_ack + tcp_psh) (take (available_window c) (x ∷ xs)) ∷ [],
    )
unfolding send_packet windowed advance
send_packet-sent c x xs o e =
    let some_sent : ltb 0 (length (take (available_window c) (x ∷ xs))) ≡ true =
      ground (arith, e) in
    let given : ltb 0 (length (x ∷ xs)) ≡ true = ground arith in rw (o, given, e, some_sent)

send_packet_lem :
    (c : TcpConnection) (p : List ℕ)
    → IsOpen c
    → IsSent c p (send_packet c (tcp_ack + tcp_psh) p).0 (send_packet c (tcp_ack + tcp_psh) p).1
unfolding send_packet windowed advance make_segment
send_packet_lem c [] o =
    let none_sent = take-nil (available_window c) in
    record {
      data_sent = sym none_sent;
      segments = ((refl, refl, refl, refl), tt);
      same_handle = refl;
      same_state = refl;
      same_end = refl;
      moved = rw none_sent (omega arith);
      same_remote = (refl, refl);
      same_local = refl;
    }
send_packet_lem c (x ∷ xs) o =
    let is_open : is_established c.state ≡ true = rw o.established_state in
    let sent = take (available_window c) (x ∷ xs) in
    let fits = length-take (available_window c) (x ∷ xs) in
    let room = available c o in
    elim (Bool-cases (length sent == 0)) [
      | inl empty ↦
          let none_sent = length-zero sent empty in
          rw (send_packet-blocked c x xs is_open empty) (record {
            data_sent = sym none_sent;
            segments = tt;
            same_handle = refl;
            same_state = refl;
            same_end = refl;
            moved = rw none_sent (omega arith);
            same_remote = (refl, refl);
            same_local = refl;
          })
      | inr some_sent ↦ rw (send_packet-sent c x xs is_open some_sent) (record {
        data_sent = append-nil sent;
        segments = ((refl, refl, refl, refl), tt);
        same_handle = refl;
        same_state = refl;
        same_end = refl;
        same_remote = (refl, refl);
        same_local = refl;
        moved = omega (arith, fits, room, o.order, o.bound);
      })
    ]

-- One call of `send` on an established connection.
send_open :
    (t : Tcp) (fd : ℕ) (p : List ℕ) (c : TcpConnection)
    → at_handle t.connections fd ≡ some c
    → is_established c.state ≡ true
    → send t fd p ≡ (
      record t { connections = store t.connections (send_packet c (tcp_ack + tcp_psh) p).0 },
      value (length p),
      (send_packet c (tcp_ack + tcp_psh) p).1,
    )
unfolding send open_connection
send_open t fd p c found o = rw (found, o, send, open_connection)

AreData-append :
    (c : TcpConnection) (gs hs : List Segment) → AreData c gs → AreData c hs → AreData c (gs ++ hs)
AreData-append c [] hs a b = b
AreData-append c (g ∷ gs) hs a b = (a.0, AreData-append c gs hs a.1 b)

-- Segments of a connection are those of another one with the same ends.
AreData-same :
    (c d : TcpConnection) (gs : List Segment)
    → (d.remote_ip ≡ c.remote_ip) × (d.remote_port ≡ c.remote_port)
    → d.local_port ≡ c.local_port
    → AreData d gs
    → AreData c gs
AreData-same c d [] r l a = tt
AreData-same c d (g ∷ gs) r l a =
    ((a.0.0, a.0.1 ∙ r.0, a.0.2 ∙ l, a.0.3 ∙ r.1), AreData-same c d gs r l a.1)

-- Over any sequence of calls of `send` on the descriptor of an established connection of the table
-- whose send window has not wrapped around: the data that goes out is the data that was given, cut
-- off where the window that was open at the start is full, so that nothing after that is sent by any
-- later call; all of it goes with the flags PSH and ACK and no other to the remote address and port,
-- from the local port; and yet each call returns the whole size that it was given.
pub send_all_lem :
    (ps : List (List ℕ)) (t : Tcp) (fd : ℕ) (c : TcpConnection)
    → at_handle t.connections fd ≡ some c
    → IsOpen c
    → (payloads (send_all t fd ps).0 ≡ take (c.send_window_end - c.send_window_start) (concat ps))
      × AreData c (send_all t fd ps).0
      × ((send_all t fd ps).1 ≡ map value (map length ps))
unfolding send_all
send_all_lem [] t fd c found o =
    (sym (take-nil (c.send_window_end - c.send_window_start)), tt, refl)
send_all_lem (p ∷ ps) t fd c found o =
    let c1 = (send_packet c (tcp_ack + tcp_psh) p).0 in
    let out = (send_packet c (tcp_ack + tcp_psh) p).1 in
    let t1 : Tcp = record t { connections = store t.connections c1 } in
    let step = send_packet_lem c p o in
    let fits = length-take (available_window c) p in
    let room = available c o in
    let o1 : IsOpen c1 = record {
      established_state = step.same_state ∙ o.established_state;
      order = omega (arith, step.same_end, step.moved, fits, room, o.order);
      bound = omega (arith, step.same_end, o.bound);
    } in
    let left : c1.send_window_end - c1.send_window_start
        ≡ available_window c - length (take (available_window c) p) =
      omega (arith, step.same_end, step.moved, room) in
    let own : c1.handle ≡ fd = step.same_handle ∙ at_handle_handle t.connections fd c found in
    let found1 : at_handle (store t.connections c1) fd ≡ some c1 =
      stored t.connections fd c c1 own found in
    let later = send_all_lem ps t1 fd c1 found1 o1 in
    let is_open : is_established c.state ≡ true = rw o.established_state in
    let call = send_open t fd p c found is_open in
    rw (call, send_all)
      (
        payloads-append out (send_all t1 fd ps).0
            ∙ ap₂ ◌++◌ step.data_sent (later.0 ∙ ap (λ k. take k (concat ps)) left)
            ∙ sym (take-append (available_window c) p (concat ps))
            ∙ ap (λ k. take k (p ++ concat ps)) room,
        AreData-append c out (send_all t1 fd ps).0 step.segments
            (AreData-same c c1 (send_all t1 fd ps).0 step.same_remote step.same_local later.1),
        ap (◌∷◌ (value (length p))) later.2,
      )
