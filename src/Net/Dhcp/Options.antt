-- ===== src/Net/Dhcp/Options.antt =====
-- The loop over the options in kernel/net/dhcp.cpp: it ends, and how far it reads.
use mesa_os.Prelude.{
  ℕ, zero, suc, ◌+◌, ◌<◌, ◌≤◌, ◌≡◌, refl, sym, ap, ap₂, ◌∙◌, Bool, true, false, ◌&&◌, ltb, leb,
  ◌==◌, arith, if◌then◌else◌, if_true, if_false, if_cases, Bool-cases, inl, inr, all_below,
}
use mesa_os.Net.Ipv4.{Ipv4, set_ip, set_netmask, set_gateway}
use mesa_os.Net.Packet.{word32, byte, AgreeBelow}
use mesa_os.Net.Packet.Words.{word32-agree}
use mesa_os.Net.Dhcp.{read_option, parse_options, handle_packet}

-- One round of the loop, where there is something left.
next_at : ℕ → ℕ → ℕ → ℕ
next_at code len at = if code == 0 then at + 1 else at + 2 + len

next_at-lt : (code len at : ℕ) → at < next_at code len at
unfolding next_at
next_at-lt code len at =
    if_cases (λ (x : ℕ). at < x) (code == 0) (λ e. omega arith) (λ e. omega arith)

-- The loop over the options goes on only to higher offsets, so it ends: any two amounts of fuel
-- that are at least the number of bytes left give the same result, for any packet.
pub parse_options_fuel :
    (f g : ℕ) (packet : ℕ → ℕ) (size at : ℕ) (s : Ipv4)
    → size ≤ f + at
    → size ≤ g + at
    → parse_options f packet size at s ≡ parse_options g packet size at s
unfolding parse_options next_at
parse_options_fuel zero zero packet size at s h k = refl
parse_options_fuel zero (suc g) packet size at s h k =
    let ended : ltb at size ≡ false = ground arith in sym (if_false _ s ended)
parse_options_fuel (suc f) zero packet size at s h k =
    let ended : ltb at size ≡ false = ground arith in if_false _ s ended
parse_options_fuel (suc f) (suc g) packet size at s h k =
    let code = packet at in
    let len = packet (at + 1) in
    let far = next_at-lt code len at in
    let t = if code == 0 then s else read_option packet code len (at + 2) s in
    ap (λ (rest : Ipv4). if ltb at size then if code == 255 then s else rest else s)
      (parse_options_fuel f g packet size (if code == 0 then at + 1 else at + 2 + len) t
        (omega (arith, far)) (omega (arith, far)))

read_option-agree :
    (size : ℕ) (p q : ℕ → ℕ) (code len at : ℕ) (s : Ipv4)
    → AgreeBelow size p q
    → at + 3 < size
    → read_option p code len at s ≡ read_option q code len at s
unfolding read_option
read_option-agree size p q code len at s e h =
    let w : word32 p at ≡ word32 q at = word32-agree size p q at e h in
    ap
      (λ (x : ℕ).
        if code == 1 && len == 4
        then set_netmask x s
        else if code == 3 && leb 4 len
        then set_gateway x s
        else s)
      w

parse_options-agree :
    (f : ℕ) (p q : ℕ → ℕ) (size at : ℕ) (s : Ipv4)
    → AgreeBelow (size + 5) p q
    → parse_options f p size at s ≡ parse_options f q size at s
unfolding parse_options
parse_options-agree zero p q size at s e = refl
parse_options-agree (suc f) p q size at s e = elim (Bool-cases (ltb at size)) [
  | inl h ↦ inside h (
      parse_options-agree f p q size (if p at == 0 then at + 1 else at + 2 + p (at + 1))
        (if p at == 0 then s else read_option p (p at) (p (at + 1)) (at + 2) s) e)
  | inr h ↦ if_false _ s h ∙ sym (if_false _ s h)
]
  where
    whole : ℕ → Ipv4 → Ipv4
    whole code rest = if ltb at size then if code == 255 then s else rest else s

    goes_on : ℕ → ℕ → Ipv4 → Ipv4
    goes_on code len t =
        parse_options f q size (if code == 0 then at + 1 else at + 2 + len)
          (if code == 0 then s else t)

    before : Ipv4
    before = if p at == 0 then s else read_option p (p at) (p (at + 1)) (at + 2) s

    inside :
        ltb at size ≡ true
        → parse_options f p size (if p at == 0 then at + 1 else at + 2 + p (at + 1)) before
          ≡ parse_options f q size (if p at == 0 then at + 1 else at + 2 + p (at + 1)) before
        → parse_options (suc f) p size at s ≡ parse_options (suc f) q size at s
    inside h later =
        let code = p at in
        let len = p (at + 1) in
        let within : at < size = ground arith in
        let read = read_option-agree (size + 5) p q code len (at + 2) s e (omega arith) in
        ap (whole code) (later ∙ ap (goes_on code len) read)
        ∙ ap₂ (λ (c l : ℕ). whole c (goes_on c l (read_option q c l (at + 2) s)))
            (e at (omega arith)) (e (at + 1) (omega arith))

-- `DHCP::handle_packet` reads at most five bytes behind the end of the message: whatever stands
-- behind them makes no difference.
pub handle_packet-agree :
    (mac : ℕ) (p q : ℕ → ℕ) (size : ℕ) (s : Ipv4)
    → AgreeBelow (size + 5) p q
    → handle_packet mac p size s ≡ handle_packet mac q size s
unfolding handle_packet
handle_packet-agree mac p q size s e = elim (Bool-cases (ltb size 240)) [
  | inl h ↦ if_true s _ h ∙ sym (if_true s _ h)
  | inr h ↦ behind h
]
  where
    rest : Bool → ℕ → Ipv4 → Ipv4
    rest own ip t = if own then if ip == 0 then s else t else s

    behind : ltb size 240 ≡ false → handle_packet mac p size s ≡ handle_packet mac q size s
    behind h =
        let long : 240 ≤ size = ground arith in
        let own : all_below (λ i. p (28 + i) == byte i mac) 6
            ≡ all_below (λ i. q (28 + i) == byte i mac) 6 =
          rw
            (
              e 28 (omega arith),
              e 29 (omega arith),
              e 30 (omega arith),
              e 31 (omega arith),
              e 32 (omega arith),
              e 33 (omega arith),
            )
            refl in
        let ip : word32 p 16 ≡ word32 q 16 = word32-agree (size + 5) p q 16 e (omega arith) in
        let parsed = parse_options-agree size p q size 240 (set_ip (word32 p 16) s) e in
        if_false s _ h
        ∙ ap (rest (all_below (λ i. p (28 + i) == byte i mac) 6) (word32 p 16)) parsed
        ∙ ap₂ (λ (o : Bool) (w : ℕ). rest o w (parse_options size q size 240 (set_ip w s))) own ip
        ∙ sym (if_false s _ h)
