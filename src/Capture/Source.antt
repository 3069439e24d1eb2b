-- ===== src/Capture/Source.antt =====
-- The packets that the slots come from after capture_packets.
use network_analyser_using_r.Base.{ℕ, ◌≡◌, refl, Bytes, List, [], ◌∷◌, Option, true, All}
use network_analyser_using_r.Outcome.{ok, bind_inv, ok-injective}
use network_analyser_using_r.State.{Platform, IsPlatform, Server}
use network_analyser_using_r.State.Slots.{IsServer}
use network_analyser_using_r.Dedup.Spec.{captured}
use network_analyser_using_r.Ethernet.Total.{IsPacket}
use network_analyser_using_r.Callback.{packet_capture_callback}
use network_analyser_using_r.Callback.Correct.{packet_capture_callback-Step}
use network_analyser_using_r.Callback.Tally.{IsReadableBeacon}
use network_analyser_using_r.Callback.Source.{IsFromSome, packet_capture_callback-IsFromSome}
use network_analyser_using_r.Capture.{Pcap, IsPcap, capture_packets, run_callbacks, reset_counters}
use network_analyser_using_r.Capture.Correct.{
  is_ready, capture_packets_lem, reset_counters-IsServer,
}
use mathlib.Core.List.{Memᴰ}

module _ (p : Platform) (fuel : ℕ) (documented : IsPlatform p) where
  abbrev pub Known : List Bytes → Server → Type 0
  Known packets s = All (IsFromSome p documented.address_text packets) (captured s)

  run_callbacks-IsFromSome :
      (all packets : List Bytes) (s s' : Server)
      → ((packet : Bytes) → Memᴰ packet packets → Memᴰ packet all)
      → All IsPacket packets
      → All (IsReadableBeacon p fuel) packets
      → IsServer s
      → Known all s
      → run_callbacks p fuel packets s ≡ ok s'
      → Known all s'
  unfolding run_callbacks
  run_callbacks-IsFromSome all [] s s' sub bytes b v known h = rw (← ok-injective h) known
  run_callbacks-IsFromSome all (packet ∷ packets) s s' sub bytes b v known h =
      let (t, called, rest) = bind_inv (packet_capture_callback p fuel packet s) _ h in
      run_callbacks-IsFromSome all packets t s' (λ x m. sub x (Memᴰ.tail m)) bytes.1 b.1
        (packet_capture_callback-Step p fuel packet s t documented bytes.0 v called).valid
        (packet_capture_callback-IsFromSome p fuel documented all packet
          (sub packet (Memᴰ.head refl)) b.0 s t v called known)
        rest

  pub capture_packets-Known :
      (n : ℕ) (c : Pcap) (dev filter : Option Bytes) (s s' : Server)
      → IsPcap c
      → is_ready c dev filter ≡ true
      → All (IsReadableBeacon p fuel) (c.loop n)
      → IsServer s
      → capture_packets p fuel c dev n filter s ≡ ok s'
      → Known (c.loop n) s'
  capture_packets-Known n c dev filter s s' pcap ready b v h =
      run_callbacks-IsFromSome (c.loop n) (c.loop n) (reset_counters s) s' (λ x m. m) (pcap.bytes n)
        b (reset_counters-IsServer s v) tt
        (rw (capture_packets_lem p fuel n c dev filter s, ready) at h)
