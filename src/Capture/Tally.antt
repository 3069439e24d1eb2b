-- ===== src/Capture/Tally.antt =====
-- A capture of beacons, as a function of their keys.
use network_analyser_using_r.Base.{
  ℕ, ◌+◌, ◌<◌, ◌≡◌, refl, ap, ◌∙◌, arith, Bytes, List, [], ◌∷◌, Option, true, length, take, take_le,
  All, length-map,
}
use network_analyser_using_r.Outcome.{ok}
use network_analyser_using_r.State.{Platform, IsPlatform, Server, max_packet_info_count}
use network_analyser_using_r.State.Slots.{IsServer}
use network_analyser_using_r.Dedup.Spec.{Key, has_key, keys}
use network_analyser_using_r.Dedup.Tally.{
  Tally, tally, empty_tally, note_keys, distinct, kept-note_keys, dups-note_keys,
  has_key-distinct_onto, length-keys,
}
use network_analyser_using_r.Ethernet.Total.{IsPacket}
use network_analyser_using_r.Callback.Tally.{
  IsReadableBeacon, beacon_key, packet_capture_callback-note_key,
}
use network_analyser_using_r.Capture.{Pcap, IsPcap, capture_packets, run_callbacks, reset_counters}
use network_analyser_using_r.Capture.Correct.{
  is_ready, capture_packets_lem, reset_counters-IsServer,
}
use mathlib.Core.List.{map}

module _ (p : Platform) (fuel : ℕ) (documented : IsPlatform p) where
  -- The keys of the packets that libpcap hands over.
  abbrev pub packet_keys : List Bytes → List Key
  packet_keys = map (beacon_key documented.address_text)

  run_callbacks-note_keys :
      (packets : List Bytes) (s : Server)
      → All IsPacket packets
      → All (IsReadableBeacon p fuel) packets
      → IsServer s
      → (s' : Server) × (run_callbacks p fuel packets s ≡ ok s')
        × IsServer s'
        × (tally s' ≡ note_keys (tally s) (packet_keys packets))
  unfolding run_callbacks note_keys
  run_callbacks-note_keys [] s bytes b v = (s, refl, v, refl)
  run_callbacks-note_keys (packet ∷ packets) s bytes b v =
      let (t, called, valid, noted) =
        packet_capture_callback-note_key p fuel packet s documented bytes.0 b.0 v in
      let (s', e, valid', rest) = run_callbacks-note_keys packets t bytes.1 b.1 valid in
      (s', rw called e, valid', rest ∙ ap (λ u. note_keys u (packet_keys packets)) noted)

  -- Where the machine and libpcap are as documented, libpcap accepts the device and the filter,
  -- all packets are beacons with an SSID of less than 15 bytes and a radiotap header that ends
  -- within the fuel, and the globals keep the invariant, a capture returns and the invariant
  -- holds. The captured keys and both statistics are then those of a tally that starts empty and
  -- takes in the keys of the packets one by one: nothing with 50 keys held, one more duplicate
  -- for a key held, and else the key; the statistic of other BSSIDs grows by the keys held with
  -- the same SSID and another BSSID, before the first duplicate.
  pub capture_packets-note_keys :
      (n : ℕ) (c : Pcap) (dev filter : Option Bytes) (s : Server)
      → IsPcap c
      → is_ready c dev filter ≡ true
      → All (IsReadableBeacon p fuel) (c.loop n)
      → IsServer s
      → (s' : Server) × (capture_packets p fuel c dev n filter s ≡ ok s')
        × IsServer s'
        × (tally s' ≡ note_keys empty_tally (packet_keys (c.loop n)))
  unfolding keys
  capture_packets-note_keys n c dev filter s pcap ready b v =
      let (s', ran, valid, noted) =
        run_callbacks-note_keys (c.loop n) (reset_counters s) (pcap.bytes n) b
          (reset_counters-IsServer s v) in
      (s', capture_packets_lem p fuel n c dev filter s ∙ rw ready ran, valid, noted)

  -- Where the machine and libpcap are as documented, libpcap accepts the device and the filter,
  -- all packets are beacons with an SSID of less than 15 bytes and a radiotap header that ends
  -- within the fuel, and the globals keep the invariant, a capture returns and the invariant
  -- holds. The keys captured are the first 50 distinct keys of the packets, in the order of their
  -- first packets.
  pub capture_packets-distinct :
      (n : ℕ) (c : Pcap) (dev filter : Option Bytes) (s : Server)
      → IsPcap c
      → is_ready c dev filter ≡ true
      → All (IsReadableBeacon p fuel) (c.loop n)
      → IsServer s
      → (s' : Server) × (capture_packets p fuel c dev n filter s ≡ ok s')
        × IsServer s'
        × (keys s' ≡ take max_packet_info_count (distinct (packet_keys (c.loop n))))
  unfolding distinct
  capture_packets-distinct n c dev filter s pcap ready b v =
      let (s', e, valid, noted) = capture_packets-note_keys n c dev filter s pcap ready b v in
      (
        s',
        e,
        valid,
        ap (λ (t : Tally). t.kept) noted
            ∙ kept-note_keys empty_tally (packet_keys (c.loop n)) (omega arith),
      )

  -- Where the machine and libpcap are as documented, libpcap accepts the device and the filter,
  -- all packets are beacons with an SSID of less than 15 bytes and a radiotap header that ends
  -- within the fuel, the globals keep the invariant, and the packets have fewer than 50 distinct
  -- keys, a capture returns. A key is captured exactly where a packet has it, and the packets
  -- kept and those counted as duplicates are all the packets.
  pub capture_packets-has_key :
      (n : ℕ) (c : Pcap) (dev filter : Option Bytes) (s : Server)
      → IsPcap c
      → is_ready c dev filter ≡ true
      → All (IsReadableBeacon p fuel) (c.loop n)
      → IsServer s
      → length (distinct (packet_keys (c.loop n))) < max_packet_info_count
      → (s' : Server) × (capture_packets p fuel c dev n filter s ≡ ok s')
        × ((k : Key) → has_key (keys s') k ≡ has_key (packet_keys (c.loop n)) k)
        × (s'.cur_packet_count + s'.dup_packets_discarded ≡ length (c.loop n))
  unfolding distinct
  capture_packets-has_key n c dev filter s pcap ready b v few =
      let (s', e, valid, noted) = capture_packets-note_keys n c dev filter s pcap ready b v in
      let ks = packet_keys (c.loop n) in
      let kept : keys s' ≡ distinct ks =
        ap (λ (t : Tally). t.kept) noted
        ∙ kept-note_keys empty_tally ks (omega arith)
        ∙ take_le max_packet_info_count (distinct ks) (omega arith) in
      let counted =
        ap (λ (t : Tally). t.dups + length t.kept) noted ∙ dups-note_keys empty_tally ks few in
      (
        s',
        e,
        (λ k. ap (λ l. has_key l k) kept ∙ has_key-distinct_onto [] ks k ∙ unfold has_key in refl),
        omega (
          arith,
          counted,
          length-keys s' valid,
          length-map (c.loop n) (beacon_key documented.address_text),
        ),
      )
