-- ===== src/Capture/Shown.antt =====
-- What a capture shows, from its packets alone.
use network_analyser_using_r.Base.{
  ℕ, ◌≡◌, refl, ap, ◌∙◌, Bytes, List, [], ◌∷◌, Option, true, All, take,
}
use network_analyser_using_r.Outcome.{ok, bind_inv, ok-injective}
use network_analyser_using_r.State.{Platform, IsPlatform, Server}
use network_analyser_using_r.State.Slots.{IsServer}
use network_analyser_using_r.Ethernet.Total.{IsPacket}
use network_analyser_using_r.Json.Text.{members_of, document, document_of}
use network_analyser_using_r.Callback.{packet_capture_callback}
use network_analyser_using_r.Callback.Correct.{packet_capture_callback-Step}
use network_analyser_using_r.Callback.Beacon.{packet_capture_callback-BeaconChange}
use network_analyser_using_r.Callback.Tally.{IsReadableBeacon, beacon_key_lem}
use network_analyser_using_r.Callback.Shown.{
  IsMeasuredPacket, show_packet, show_packets, shown_members, BeaconChange-show_packet,
}
use network_analyser_using_r.Capture.{Pcap, IsPcap, capture_packets, run_callbacks, reset_counters}
use network_analyser_using_r.Capture.Correct.{
  is_ready, capture_packets_lem, reset_counters-IsServer,
}
use network_analyser_using_r.Capture.Tally.{capture_packets-distinct}
use mathlib.Core.List.{map}

module _ (p : Platform) (fuel : ℕ) (documented : IsPlatform p) where
  packet_capture_callback-show_packet :
      (packet : Bytes) (s s' : Server) (b : IsReadableBeacon p fuel packet)
      → IsMeasuredPacket p fuel packet
      → IsServer s
      → packet_capture_callback p fuel packet s ≡ ok s'
      → shown_members p fuel documented.address_text s'
        ≡ show_packet p fuel documented.address_text
            (shown_members p fuel documented.address_text s)
            packet
  packet_capture_callback-show_packet packet s s' b m v h =
      BeaconChange-show_packet p fuel documented.address_text packet s s' b m v (
        rw (beacon_key_lem documented.address_text packet b.len b.short)
          (packet_capture_callback-BeaconChange p fuel packet s s' documented b.len b.short v h))

  run_callbacks-show_packets :
      (packets : List Bytes) (s s' : Server)
      → All IsPacket packets
      → All (IsReadableBeacon p fuel) packets
      → All (IsMeasuredPacket p fuel) packets
      → IsServer s
      → run_callbacks p fuel packets s ≡ ok s'
      → shown_members p fuel documented.address_text s'
        ≡ show_packets p fuel documented.address_text
            (shown_members p fuel documented.address_text s)
            packets
  unfolding run_callbacks show_packets
  run_callbacks-show_packets [] s s' bytes b m v h = rw (← ok-injective h) refl
  run_callbacks-show_packets (packet ∷ packets) s s' bytes b m v h =
      let (t, called, rest) = bind_inv (packet_capture_callback p fuel packet s) _ h in
      run_callbacks-show_packets packets t s' bytes.1 b.1 m.1
        (packet_capture_callback-Step p fuel packet s t documented bytes.0 v called).valid rest
      ∙ ap (λ ms. show_packets p fuel documented.address_text ms packets)
          (packet_capture_callback-show_packet packet s t b.0 m.0 v called)

  -- The document for the packets of a capture.
  abbrev pub packets_document : List Bytes → Bytes
  packets_document packets = document (show_packets p fuel documented.address_text [] packets)

  pub capture_packets-show_packets :
      (n : ℕ) (c : Pcap) (dev filter : Option Bytes) (s s' : Server)
      → IsPcap c
      → is_ready c dev filter ≡ true
      → All (IsReadableBeacon p fuel) (c.loop n)
      → All (IsMeasuredPacket p fuel) (c.loop n)
      → IsServer s
      → capture_packets p fuel c dev n filter s ≡ ok s'
      → shown_members p fuel documented.address_text s'
        ≡ show_packets p fuel documented.address_text [] (c.loop n)
  capture_packets-show_packets n c dev filter s s' pcap ready b m v h =
      run_callbacks-show_packets (c.loop n) (reset_counters s) s' (pcap.bytes n) b m
        (reset_counters-IsServer s v) (rw (capture_packets_lem p fuel n c dev filter s, ready) at h)

  -- The globals that show these packets have their document.
  pub document_of-shown_members :
      (packets : List Bytes) (s : Server)
      → IsServer s
      → shown_members p fuel documented.address_text s
        ≡ show_packets p fuel documented.address_text [] packets
      → document_of p s ≡ packets_document packets
  unfolding document_of
  document_of-shown_members packets s v h =
      ap (λ k. document (map (members_of p) (take k s.cap_info.packet_info_array))) v.counted
      ∙ ap document h

  -- Where the machine and libpcap are as documented, libpcap accepts the device and the filter,
  -- all packets are beacons with an SSID of less than 15 bytes and a radiotap header that ends
  -- within the fuel and has a rate, an antenna, a signal power and a channel, and the globals
  -- keep the invariant, a capture returns. The document for the globals then depends on the
  -- packets alone: it lists, for the first packet of each SSID and BSSID, up to 50 of them, the
  -- texts of the packet and its measurements, each from the last field of its kind.
  pub capture_packets-packets_document :
      (n : ℕ) (c : Pcap) (dev filter : Option Bytes) (s : Server)
      → IsPcap c
      → is_ready c dev filter ≡ true
      → All (IsReadableBeacon p fuel) (c.loop n)
      → All (IsMeasuredPacket p fuel) (c.loop n)
      → IsServer s
      → (s' : Server) × (capture_packets p fuel c dev n filter s ≡ ok s')
        × (document_of p s' ≡ packets_document (c.loop n))
  capture_packets-packets_document n c dev filter s pcap ready b m v =
      let (s', e, valid, kept) =
        capture_packets-distinct p fuel documented n c dev filter s pcap ready b v in
      (
        s',
        e,
        document_of-shown_members (c.loop n) s' valid
            (capture_packets-show_packets n c dev filter s s' pcap ready b m v e),
      )
