-- ===== src/Callback/Ranges.antt =====
-- The callback keeps the radio measurements in range, on packets of bytes.
use network_analyser_using_r.Base.{ℕ, ◌≡◌, Bytes, ◌==◌, ltb, Bool-cases, inl, inr}
use network_analyser_using_r.Outcome.{ok, bind_inv, ok-injective}
use network_analyser_using_r.State.{Platform, IsPlatform, Server, current, max_packet_info_count}
use network_analyser_using_r.State.Ranges.{IsRanged}
use network_analyser_using_r.Radiotap.{parse_radio_tap}
use network_analyser_using_r.Radiotap.Ranges.{parse_radio_tap-IsRanged}
use network_analyser_using_r.Ethernet.{parse_ethernet, beacon_type}
use network_analyser_using_r.Ethernet.Total.{IsPacket}
use network_analyser_using_r.Ethernet.Ranges.{parse_ethernet-IsRanged}
use network_analyser_using_r.Callback.{packet_capture_callback, keep_packet, parse_header, bufsiz}

module _ (p : Platform) (fuel : ℕ) (packet : Bytes) (documented : IsPlatform p)
    (bytes : IsPacket packet) where
  parse_header-IsRanged :
      (s s' : Server) → IsRanged s → parse_header p fuel packet s ≡ ok s' → IsRanged s'
  unfolding parse_header
  parse_header-IsRanged s s' v h =
      let (q, found, h1) = bind_inv (current s) _ h in
      elim (Bool-cases (q.ethernet_type == beacon_type)) [
        | inl beacon ↦
            let (r, e, h2) =
              bind_inv (parse_radio_tap p packet fuel bufsiz s) _ (rw beacon at h1) in
            rw (← ok-injective h2)
              (parse_radio_tap-IsRanged p packet documented bytes fuel bufsiz s r v e)
        | inr other ↦ rw (← ok-injective (rw other at h1)) v
      ]

  keep_packet-IsRanged :
      (t : ℕ) (s s' : Server) → IsRanged s → keep_packet p fuel packet t s ≡ ok s' → IsRanged s'
  unfolding keep_packet
  keep_packet-IsRanged t s s' v h = elim (Bool-cases (t == 0)) [
    | inl zero_type ↦ rw (← ok-injective (rw zero_type at h)) v
    | inr nonzero ↦
        let (s1, e, h1) = bind_inv (parse_header p fuel packet s) _ (rw nonzero at h) in
        rw (← ok-injective h1) (parse_header-IsRanged s s1 v e)
  ]

  pub packet_capture_callback-IsRanged :
      (s s' : Server) → IsRanged s → packet_capture_callback p fuel packet s ≡ ok s' → IsRanged s'
  unfolding packet_capture_callback
  packet_capture_callback-IsRanged s s' v h =
      elim (Bool-cases (ltb s.cur_packet_count max_packet_info_count)) [
        | inl room ↦
            let (r, e, h1) = bind_inv (parse_ethernet p packet s) _ (rw room at h) in
            keep_packet-IsRanged r.0 r.1 s' (parse_ethernet-IsRanged p packet s r v e) h1
        | inr full ↦ rw (← ok-injective (rw full at h)) v
      ]
