-- ===== src/Net/Arp/Cache.antt =====
-- What kernel/net/arp.cpp learns and answers.
use mesa_os.Prelude.{
  ℕ, ◌≤◌, ◌≡◌, ◌≢◌, ◌⊎◌, refl, ap, ◌∙◌, true, not, ◌&&◌, List, [], arith, ltb, ◌==◌, if_cases,
  if_true, inl, inr,
}
use mesa_os.Net.Arp.{
  ArpMessage, Arp, Frame, broadcast_mac, swap_uint16, send_request, handle_packet, resolve,
}

module _ (ip gateway mac card_mac : ℕ) where
  cached :
      (a : Arp) (msg : ArpMessage) (size : ℕ)
      → 28 ≤ size
      → msg.dest_ip ≡ ip
      → (handle_packet ip card_mac a msg size).0
        ≡ record { cache_ip = msg.src_ip; cache_mac = msg.src_mac }
  unfolding handle_packet
  cached a msg size h e =
      let mine : (msg.dest_ip == ip) ≡ true = ground (arith, e) in
      if_cases
        (λ (r : Arp × List Frame). r.0 ≡ record { cache_ip = msg.src_ip; cache_mac = msg.src_mac })
        (ltb size 28) (λ s. absurd (ground (arith, s, h)))
        (λ s.
          if_cases
            (λ (r : Arp × List Frame).
              r.0 ≡ record { cache_ip = msg.src_ip; cache_mac = msg.src_mac })
            (swap_uint16 msg.opcode == 0x0100 && msg.dest_ip == ip) (λ t. if_true _ a mine)
            (λ t. if_true _ a mine))

  -- After a whole message for this machine from an address that is not 0, `resolve` of that
  -- address returns the sender's hardware address, and sends nothing.
  pub resolve-handle_packet :
      (a : Arp) (msg : ArpMessage) (size : ℕ)
      → 28 ≤ size
      → msg.dest_ip ≡ ip
      → msg.src_ip ≢ 0
      → resolve ip gateway mac (handle_packet ip card_mac a msg size).0 msg.src_ip
        ≡ (msg.src_mac, [])
  unfolding resolve
  resolve-handle_packet a msg size h e n =
      let hit : (msg.src_ip == msg.src_ip && not (msg.src_ip == 0)) ≡ true = ground (arith, n) in
      ap (λ (b : Arp). resolve ip gateway mac b msg.src_ip) (cached a msg size h e)
      ∙ if_true _ _ hit

  -- `resolve` returns the broadcast address, or the hardware address in the cache, and that only
  -- where the cache is for the address asked for or for the gateway.
  pub resolve_lem :
      (a : Arp) (target : ℕ)
      → ((resolve ip gateway mac a target).0 ≡ broadcast_mac)
        ⊎ (((resolve ip gateway mac a target).0 ≡ a.cache_mac)
            × ((a.cache_ip ≡ target) ⊎ (a.cache_ip ≡ gateway)))
  unfolding resolve
  resolve_lem a target =
      let P : ℕ × List Frame → Type 0 = λ r.
        (r.0 ≡ broadcast_mac)
        ⊎ ((r.0 ≡ a.cache_mac) × ((a.cache_ip ≡ target) ⊎ (a.cache_ip ≡ gateway))) in
      if_cases P (target == a.cache_ip && not (a.cache_ip == 0))
        (λ e. inr (refl, inl (ground (arith, e))))
        (λ e.
          if_cases P (not (gateway == 0) && not (target == gateway))
            (λ f.
              if_cases P (gateway == a.cache_ip) (λ g. inr (refl, inr (ground (arith, g))))
                (λ g. inl refl))
            (λ f. inl refl))

  -- A request for this machine's address, as `send_request` on another one makes it, is not
  -- answered, whatever its size and the state of the cache.
  pub handle_packet-send_request :
      (a : Arp) (sender_ip sender_mac other size : ℕ)
      → (handle_packet ip card_mac a (send_request sender_ip other sender_mac ip).message size).1
        ≡ []
  unfolding handle_packet send_request swap_uint16
  handle_packet-send_request a sender_ip sender_mac other size =
      if_cases (λ (r : Arp × List Frame). r.1 ≡ []) (ltb size 28) (λ e. refl) (λ e. refl)
