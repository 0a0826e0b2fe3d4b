-- ===== src/Net/Tcp/Ring.antt =====
-- The receive buffer of kernel/net/tcp.cpp, read as the queue of the bytes that it holds.
use mathlib.Core.List.{append-nil, append_assoc}
use mesa_os.Prelude.{
  ℕ, zero, suc, ◌+◌, ◌-◌, ◌%◌, ◌^◌, ◌≤◌, ◌<◌, ◌≡◌, refl, sym, ap, ap₂, ◌∙◌, true, List, [], ◌∷◌,
  ◌++◌, arith, ◌==◌, length, update, ==_iff,
}
use mesa_os.Net.Tcp.Types.{TcpConnection, tcp_buffer_size}
use mesa_os.Net.Tcp.Input.{Memory, fill_buffer, receive_data, bytes_to_copy}
use mesa_os.Net.Tcp.Sockets.{drain_buffer, read_data, bytes_to_read}

-- The `n` bytes at the places `h + j`, `h + j + 1`, … of the circular buffer.
pub window : (ℕ → ℕ) → ℕ → ℕ → ℕ → List ℕ
window f h j zero = []
window f h j (suc n) = f ((h + j) % tcp_buffer_size) ∷ window f h (j + 1) n

-- The bytes that wait to be read, oldest first.
unfoldable pub contents : TcpConnection → List ℕ
contents c = window c.recv_buffer c.recv_start 0 c.recv_count

-- The `n` bytes of memory from an offset on.
pub bytes_at : Memory → ℕ → ℕ → List ℕ
bytes_at packet o zero = []
bytes_at packet o (suc n) = packet o ∷ bytes_at packet (o + 1) n

-- The indices stay in the buffer, and `recv_end` stands `recv_count` places behind `recv_start`.
pub record IsBuffered (c : TcpConnection) : Type 0 where
  pub start : c.recv_start < tcp_buffer_size
  pub count : c.recv_count ≤ tcp_buffer_size
  pub end : c.recv_end ≡ (c.recv_start + c.recv_count) % tcp_buffer_size

pub length-window : (f : ℕ → ℕ) (h j n : ℕ) → length (window f h j n) ≡ n
unfolding window
length-window f h j zero = refl
length-window f h j (suc n) = ap suc (length-window f h (j + 1) n)

pub length-bytes_at : (packet : Memory) (o n : ℕ) → length (bytes_at packet o n) ≡ n
unfolding bytes_at
length-bytes_at packet o zero = refl
length-bytes_at packet o (suc n) = ap suc (length-bytes_at packet (o + 1) n)

window_ext :
    (f g : ℕ → ℕ) (h j n : ℕ)
    → ((t : ℕ) → j ≤ t → t < j + n → f ((h + t) % tcp_buffer_size) ≡ g ((h + t) % tcp_buffer_size))
    → window f h j n ≡ window g h j n
unfolding window
window_ext f g h j zero e = refl
window_ext f g h j (suc n) e =
    ap₂ ◌∷◌ (e j (omega arith) (omega arith))
      (window_ext f g h (j + 1) n (λ t x y. e t (omega arith) (omega arith)))

window-add :
    (f : ℕ → ℕ) (h j m n : ℕ) → window f h j (m + n) ≡ window f h j m ++ window f h (j + m) n
unfolding window
window-add f h j zero n =
    let a : 0 + n ≡ n = omega arith in let b : j + 0 ≡ j = omega arith in rw (a, b)
window-add f h j (suc m) n =
    let a : suc m + n ≡ suc (m + n) = omega arith in
    let b : j + suc m ≡ j + 1 + m = omega arith in
    rw (a, b, window) (ap (◌∷◌ (f ((h + j) % tcp_buffer_size))) (window-add f h (j + 1) m n))

-- Starting one place later is going one place on.
window-shift :
    (f : ℕ → ℕ) (h j n : ℕ) → window f ((h + 1) % tcp_buffer_size) j n ≡ window f h (j + 1) n
unfolding window
window-shift f h j zero = refl
window-shift f h j (suc n) =
    let e : ((h + 1) % tcp_buffer_size + j) % tcp_buffer_size ≡ (h + (j + 1)) % tcp_buffer_size =
      omega arith in
    rw e (ap (◌∷◌ (f ((h + (j + 1)) % tcp_buffer_size))) (window-shift f h (j + 1) n))

-- A write just past a window of fewer than 4096 bytes leaves the window alone.
window-update :
    (f : ℕ → ℕ) (h k v : ℕ)
    → k < tcp_buffer_size
    → window (update f ((h + k) % tcp_buffer_size) v) h 0 (k + 1) ≡ window f h 0 k ++ v ∷ []
unfolding window
window-update f h k v l =
    let p = (h + k) % tcp_buffer_size in
    let here : (p == p) ≡ true = (==_iff p p).1 refl in
    rw (window-add (update f p v) h 0 k 1) (
      ap₂ ◌++◌ (window_ext (update f p v) f h 0 k (λ t x y. ground arith))
        (let z : 0 + k ≡ k = omega arith in rw (z, window, here)))

-- The copy loop writes the bytes of the packet behind the window, and only moves `recv_end`.
fill_buffer_lem :
    (packet : Memory) (o i n k : ℕ) (c : TcpConnection)
    → k + n ≤ tcp_buffer_size
    → c.recv_end ≡ (c.recv_start + k) % tcp_buffer_size
    → (window (fill_buffer packet o i n c).recv_buffer c.recv_start 0 (k + n)
        ≡ window c.recv_buffer c.recv_start 0 k ++ bytes_at packet (o + i) n)
      × ((fill_buffer packet o i n c).recv_end ≡ (c.recv_start + (k + n)) % tcp_buffer_size)
unfolding fill_buffer bytes_at
fill_buffer_lem packet o i zero k c h e =
    let z : k + 0 ≡ k = omega arith in
    rw z (sym (append-nil (window c.recv_buffer c.recv_start 0 k)), e)
fill_buffer_lem packet o i (suc n) k c h e =
    let c1 : TcpConnection = record c {
      recv_buffer = update c.recv_buffer c.recv_end (packet (o + i));
      recv_end = (c.recv_end + 1) % tcp_buffer_size;
    } in
    let ih : (window (fill_buffer packet o (i + 1) n c1).recv_buffer c.recv_start 0 (k + 1 + n)
          ≡ window (update c.recv_buffer c.recv_end (packet (o + i))) c.recv_start 0 (k + 1)
            ++ bytes_at packet (o + (i + 1)) n)
        × ((fill_buffer packet o (i + 1) n c1).recv_end
            ≡ (c.recv_start + (k + 1 + n)) % tcp_buffer_size) =
      fill_buffer_lem packet o (i + 1) n (k + 1) c1 (omega arith) (omega arith) in
    let w : window (update c.recv_buffer c.recv_end (packet (o + i))) c.recv_start 0 (k + 1)
        ≡ window c.recv_buffer c.recv_start 0 k ++ packet (o + i) ∷ [] =
      rw e (window-update c.recv_buffer c.recv_start k (packet (o + i)) (omega arith)) in
    let s : k + 1 + n ≡ k + suc n = omega arith in
    let t : o + (i + 1) ≡ o + i + 1 = omega arith in
    (
      rw (← s, ← t)
          (ih.0
            ∙ ap (λ l. l ++ bytes_at packet (o + (i + 1)) n) w
            ∙ append_assoc (window c.recv_buffer c.recv_start 0 k) (packet (o + i) ∷ []) _),
      rw (← s) ih.1,
    )

-- The copy loop changes no other field.
pub fill_buffer_fields :
    (packet : Memory) (o i n : ℕ) (c : TcpConnection)
    → fill_buffer packet o i n c ≡ record c {
      recv_buffer = (fill_buffer packet o i n c).recv_buffer;
      recv_end = (fill_buffer packet o i n c).recv_end;
    }
unfolding fill_buffer
fill_buffer_fields packet o i zero c = refl
fill_buffer_fields packet o i (suc n) c = fill_buffer_fields packet o (i + 1) n (record c {
  recv_buffer = update c.recv_buffer c.recv_end (packet (o + i));
  recv_end = (c.recv_end + 1) % tcp_buffer_size;
})

pub bytes_to_copy_lem :
    (c : TcpConnection) (size : ℕ)
    → IsBuffered c
    → (c.recv_count + bytes_to_copy c size ≤ tcp_buffer_size) × (bytes_to_copy c size ≤ size)
bytes_to_copy_lem c size b = ground (arith, b.count)

-- With the buffer indices in order, an arriving payload is appended to what waits to be read, as
-- far as the buffer has room, and the indices stay in order and in the buffer. Nothing else of the
-- connection changes.
pub receive_data_lem :
    (packet : Memory) (o size : ℕ) (c : TcpConnection)
    → IsBuffered c
    → (contents (receive_data packet o size c)
        ≡ contents c ++ bytes_at packet o (bytes_to_copy c size))
      × IsBuffered (receive_data packet o size c)
      × (receive_data packet o size c ≡ record c {
        recv_buffer = (receive_data packet o size c).recv_buffer;
        recv_end = (receive_data packet o size c).recv_end;
        recv_count = c.recv_count + bytes_to_copy c size;
      })
unfolding receive_data contents
receive_data_lem packet o size c b =
    let n = bytes_to_copy c size in
    let c' = fill_buffer packet o 0 n c in
    let fields : c' ≡ record c { recv_buffer = c'.recv_buffer; recv_end = c'.recv_end } =
      fill_buffer_fields packet o 0 n c in
    let bound : (c.recv_count + n ≤ tcp_buffer_size) × (n ≤ size) = bytes_to_copy_lem c size b in
    let same_start : c'.recv_start ≡ c.recv_start = ap (λ d. d.recv_start) fields in
    let same_count : c'.recv_count ≡ c.recv_count = ap (λ d. d.recv_count) fields in
    let sum : (c'.recv_count + n) % 2 ^ 32 ≡ c.recv_count + n = omega arith in
    let w : (window c'.recv_buffer c.recv_start 0 (c.recv_count + n)
          ≡ window c.recv_buffer c.recv_start 0 c.recv_count ++ bytes_at packet (o + 0) n)
        × (c'.recv_end ≡ (c.recv_start + (c.recv_count + n)) % tcp_buffer_size) =
      fill_buffer_lem packet o 0 n c.recv_count c bound.0 b.end in
    let z : o + 0 ≡ o = omega arith in
    (
      ap₂ (λ s t. window c'.recv_buffer s 0 t) same_start sum ∙ rw z at w.0,
      record { start = omega (arith, b.start); count = omega arith; end = omega (arith, w.1) },
      ap₂ {A = TcpConnection} (λ d t. record d { recv_count = t }) fields sum,
    )

-- The loop that copies out returns the first bytes of the window, and only moves `recv_start`.
drain_buffer_lem :
    (n : ℕ) (c : TcpConnection)
    → c.recv_start < tcp_buffer_size
    → ((drain_buffer n c).1 ≡ window c.recv_buffer c.recv_start 0 n)
      × ((drain_buffer n c).0 ≡ record c { recv_start = (c.recv_start + n) % tcp_buffer_size })
unfolding drain_buffer window
drain_buffer_lem zero c h =
    let e : (c.recv_start + 0) % tcp_buffer_size ≡ c.recv_start = omega arith in (refl, rw e)
drain_buffer_lem (suc n) c h =
    let c1 : TcpConnection = record c { recv_start = (c.recv_start + 1) % tcp_buffer_size } in
    let ih : ((drain_buffer n c1).1
          ≡ window c.recv_buffer ((c.recv_start + 1) % tcp_buffer_size) 0 n)
        × ((drain_buffer n c1).0 ≡ record c {
          recv_start = ((c.recv_start + 1) % tcp_buffer_size + n) % tcp_buffer_size;
        }) =
      drain_buffer_lem n c1 (omega arith) in
    let s : (c.recv_start + 0) % tcp_buffer_size ≡ c.recv_start = omega arith in
    let t : ((c.recv_start + 1) % tcp_buffer_size + n) % tcp_buffer_size
        ≡ (c.recv_start + suc n) % tcp_buffer_size =
      omega arith in
    (
      ap₂ ◌∷◌ (ap c.recv_buffer (sym s)) (ih.0 ∙ window-shift c.recv_buffer c.recv_start 0 n),
      ih.1 ∙ ap (λ x. record c { recv_start = x }) t,
    )

-- Going on at the place `h + j` is starting there.
window-moved :
    (f : ℕ → ℕ) (h j i n : ℕ) → window f ((h + j) % tcp_buffer_size) i n ≡ window f h (i + j) n
unfolding window
window-moved f h j i zero = refl
window-moved f h j i (suc n) =
    let e : ((h + j) % tcp_buffer_size + i) % tcp_buffer_size ≡ (h + (i + j)) % tcp_buffer_size =
      omega arith in
    let s : i + 1 + j ≡ i + j + 1 = omega arith in
    ap₂ ◌∷◌ (ap f e) (window-moved f h j (i + 1) n ∙ ap (λ t. window f h t n) s)

-- With the buffer indices in order, a read returns the oldest bytes, as many as it asks for or as
-- there are; the others wait on, in their order, and the indices stay in order.
pub read_data_lem :
    (size : ℕ) (c : TcpConnection)
    → IsBuffered c
    → (contents c ≡ (read_data size c).1 ++ contents (read_data size c).0)
      × (length (read_data size c).1 ≡ bytes_to_read c size)
      × IsBuffered (read_data size c).0
unfolding read_data contents
read_data_lem size c b =
    let n = bytes_to_read c size in
    let le : n ≤ c.recv_count = ground arith in
    let d : ((drain_buffer n c).1 ≡ window c.recv_buffer c.recv_start 0 n)
        × ((drain_buffer n c).0 ≡ record c { recv_start = (c.recv_start + n) % tcp_buffer_size }) =
      drain_buffer_lem n c b.start in
    let left : (c.recv_count + 2 ^ 32 - n) % 2 ^ 32 ≡ c.recv_count - n = omega (arith, b.count) in
    let all : n + (c.recv_count - n) ≡ c.recv_count = omega arith in
    rw (d.0, d.1, left)
      (
        rw all at (window-add c.recv_buffer c.recv_start 0 n (c.recv_count - n))
            ∙ ap (◌++◌ (window c.recv_buffer c.recv_start 0 n))
                (sym (window-moved c.recv_buffer c.recv_start n 0 (c.recv_count - n))),
        length-window c.recv_buffer c.recv_start 0 n,
        record {
          start = omega arith;
          count = omega (arith, b.count);
          end = omega (arith, b.end, b.count);
        },
      )
