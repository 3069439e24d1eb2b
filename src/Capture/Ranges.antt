-- ===== src/Capture/Ranges.antt =====
-- The ranges of the radio measurements over capture_packets.
use network_analyser_using_r.Base.{ℕ, ◌≡◌, Bytes, List, [], ◌∷◌, All, Option}
use network_analyser_using_r.Outcome.{ok, bind_inv, ok-injective}
use network_analyser_using_r.State.{Platform, IsPlatform, Server}
use network_analyser_using_r.State.Ranges.{IsRanged}
use network_analyser_using_r.Ethernet.Total.{IsPacket}
use network_analyser_using_r.Callback.{packet_capture_callback}
use network_analyser_using_r.Callback.Ranges.{packet_capture_callback-IsRanged}
use network_analyser_using_r.Capture.{
  Pcap, IsPcap, capture_packets, open_device, install_filter, run_callbacks, reset_counters,
}

module _ (p : Platform) (fuel : ℕ) (documented : IsPlatform p) where
  run_callbacks-IsRanged :
      (packets : List Bytes) (s s' : Server)
      → All IsPacket packets
      → IsRanged s
      → run_callbacks p fuel packets s ≡ ok s'
      → IsRanged s'
  unfolding run_callbacks
  run_callbacks-IsRanged [] s s' bytes v h = rw (← ok-injective h) v
  run_callbacks-IsRanged (packet ∷ packets) s s' bytes v h =
      let (t, called, rest) = bind_inv (packet_capture_callback p fuel packet s) _ h in
      run_callbacks-IsRanged packets t s' bytes.1
        (packet_capture_callback-IsRanged p fuel packet documented bytes.0 s t v called) rest

  -- With a machine and a libpcap as documented, a capture that returns keeps the radio
  -- measurements of all slots in the range of their radiotap fields: a rate of at most 255 * 500,
  -- an antenna and a power of a byte, and a channel of 16 bits.
  pub capture_packets-IsRanged :
      (n : ℕ) (c : Pcap) (dev filter : Option Bytes) (s s' : Server)
      → IsPcap c
      → IsRanged s
      → capture_packets p fuel c dev n filter s ≡ ok s'
      → IsRanged s'
  unfolding capture_packets
  capture_packets-IsRanged n c dev filter s s' pcap v h =
      let (_, opened, h1) = bind_inv (open_device c dev) _ h in
      let (_, installed, h2) = bind_inv (install_filter c filter) _ h1 in
      run_callbacks-IsRanged (c.loop n) (reset_counters s) s' (pcap.bytes n) v h2
