-- ===== src/Capture/Older.antt =====
-- Where the slots come from after capture_packets, the measurements that a packet leaves out
-- included.
use network_analyser_using_r.Base.{ℕ, ◌≡◌, refl, Bytes, List, [], ◌∷◌, Option, true, All, arith}
use network_analyser_using_r.Outcome.{ok, bind_inv, ok-injective}
use network_analyser_using_r.State.{Platform, IsPlatform, Server}
use network_analyser_using_r.State.Slots.{IsServer}
use network_analyser_using_r.Ethernet.Total.{IsPacket}
use network_analyser_using_r.Callback.{packet_capture_callback}
use network_analyser_using_r.Callback.Correct.{packet_capture_callback-Step}
use network_analyser_using_r.Callback.Tally.{IsReadableBeacon}
use network_analyser_using_r.Callback.Older.{HasSources, packet_capture_callback-HasSources}
use network_analyser_using_r.Capture.{Pcap, IsPcap, capture_packets, run_callbacks, reset_counters}
use network_analyser_using_r.Capture.Correct.{
  is_ready, capture_packets_lem, reset_counters-IsServer,
}
use network_analyser_using_r.Capture.Tally.{capture_packets-note_keys}
use mathlib.Core.List.{Memᴰ}

reset_counters-HasSources :
    (p : Platform) (address_text : Bytes → Bytes) (packets : List Bytes) (s : Server)
    → HasSources p address_text packets s (reset_counters s)
reset_counters-HasSources p address_text packets s = record {
  used = λ i q below e. absurd (omega arith);
  free = λ i q from e. (q, e, record { rate = refl; antenna = refl; channel = refl; power = refl });
}

module _ (p : Platform) (fuel : ℕ) (documented : IsPlatform p) where
  run_callbacks-HasSources :
      (all packets : List Bytes) (s0 s s' : Server)
      → ((packet : Bytes) → Memᴰ packet packets → Memᴰ packet all)
      → All IsPacket packets
      → All (IsReadableBeacon p fuel) packets
      → IsServer s
      → HasSources p documented.address_text all s0 s
      → run_callbacks p fuel packets s ≡ ok s'
      → HasSources p documented.address_text all s0 s'
  unfolding run_callbacks
  run_callbacks-HasSources all [] s0 s s' sub bytes b v h ran = rw (← ok-injective ran) h
  run_callbacks-HasSources all (packet ∷ packets) s0 s s' sub bytes b v h ran =
      let (t, called, rest) = bind_inv (packet_capture_callback p fuel packet s) _ ran in
      run_callbacks-HasSources all packets s0 t s' (λ x m. sub x (Memᴰ.tail m)) bytes.1 b.1
        (packet_capture_callback-Step p fuel packet s t documented bytes.0 v called).valid
        (packet_capture_callback-HasSources p fuel documented all packet
          (sub packet (Memᴰ.head refl)) b.0 s0 s t h v called)
        rest

  -- Where the machine and libpcap are as documented, libpcap accepts the device and the filter,
  -- all packets are beacons with an SSID of less than 15 bytes and a radiotap header that ends
  -- within the fuel, and the globals keep the invariant, a capture returns. Each slot in use then
  -- comes from one of the packets: it has the type of a beacon, the SSID, the BSSID and both
  -- addresses of the packet, and each measurement from the last field of its kind in its radiotap
  -- header or, where there is none, the one that this slot of the array had before the capture.
  -- The slots that are not in use have the measurements that they had.
  pub capture_packets-HasSources :
      (n : ℕ) (c : Pcap) (dev filter : Option Bytes) (s : Server)
      → IsPcap c
      → is_ready c dev filter ≡ true
      → All (IsReadableBeacon p fuel) (c.loop n)
      → IsServer s
      → (s' : Server) × (capture_packets p fuel c dev n filter s ≡ ok s')
        × HasSources p documented.address_text (c.loop n) s s'
  capture_packets-HasSources n c dev filter s pcap ready b v =
      let (s', e, valid, noted) =
        capture_packets-note_keys p fuel documented n c dev filter s pcap ready b v in
      (
        s',
        e,
        run_callbacks-HasSources (c.loop n) (c.loop n) s (reset_counters s) s' (λ x m. m)
            (pcap.bytes n) b (reset_counters-IsServer s v)
            (reset_counters-HasSources p documented.address_text (c.loop n) s)
            (rw (capture_packets_lem p fuel n c dev filter s, ready) at e),
      )
