-- ===== src/Ethernet/Returns.antt =====
-- The packets on which `parse_ethernet` returns.
use network_analyser_using_r.Base.{ℕ, ◌<◌, ◌≡◌, ◌↔◌, Bytes, ◌⊎◌, inl, inr, Bool-cases}
use network_analyser_using_r.Outcome.{ok, fault}
use network_analyser_using_r.State.{Platform, IsPlatform, Server, max_packet_info_count}
use network_analyser_using_r.State.Slots.{IsServer, current_lem}
use network_analyser_using_r.Dedup.Spec.{has_key, keys}
use network_analyser_using_r.Ethernet.{parse_ethernet}
use network_analyser_using_r.Ethernet.Key.{packet_key}
use network_analyser_using_r.Ethernet.Beacon.{parse_ethernet_other}
use network_analyser_using_r.Ethernet.Result.{parse_ethernet_duplicate, parse_ethernet_new}
use network_analyser_using_r.Ethernet.Total.{
  IsPacket, IsParsable, other, short, Unreadable, frame-cases, parse_ethernet-fault,
}

module _ (p : Platform) (packet : Bytes) (s : Server) (documented : IsPlatform p) (v : IsServer s)
    (room : s.cur_packet_count < max_packet_info_count) where
  IsParsable-returns : IsParsable packet → (r : ℕ × Server) × (parse_ethernet p packet s ≡ ok r)
  IsParsable-returns (other b0 b1 ty differs) =
      let (q, found, w) = current_lem s v room in
      (_, parse_ethernet_other p documented packet b0 b1 ty s v room q found w differs)
  IsParsable-returns (short len b) =
      elim (Bool-cases (has_key (keys s) (packet_key documented.address_text packet len))) [
        | inl dup ↦
            let (s1, e, d) = parse_ethernet_duplicate p documented packet len b s v room dup in
            ((0, s1), e)
        | inr new ↦
            let (s1, q, q1, e, d, f, g, b1) =
              parse_ethernet_new p documented packet len b s v room new in
            (_, e)
      ]

  -- With a machine as documented, globals that keep the invariant, fewer than 50 packets held and
  -- a packet of bytes, parse_ethernet returns exactly on frames of another type than a beacon,
  -- and on beacons that hold an SSID of less than 15 bytes whole.
  pub parse_ethernet-ok_iff :
      IsPacket packet → ((r : ℕ × Server) × (parse_ethernet p packet s ≡ ok r)) ↔ IsParsable packet
  parse_ethernet-ok_iff bytes =
      (λ (r, e). parsable r e (frame-cases packet bytes), IsParsable-returns)
    where
      parsable :
          (r : ℕ × Server)
          → parse_ethernet p packet s ≡ ok r
          → (IsParsable packet) ⊎ (Unreadable packet)
          → IsParsable packet
      parsable r e (inl h) = h
      parsable r e (inr bad) =
          absurd (differ (parse_ethernet-fault p packet s documented bad v room))
        where
          differ : parse_ethernet p packet s ≡ fault → ⊥
          differ f = cc
