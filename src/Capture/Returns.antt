-- ===== src/Capture/Returns.antt =====
-- Captures that return.
use network_analyser_using_r.Base.{ℕ, ◌<◌, ◌≡◌, refl, ◌∙◌, Bytes, List, [], ◌∷◌, All, true, Option}
use network_analyser_using_r.Outcome.{ok}
use network_analyser_using_r.State.{Platform, IsPlatform, Server}
use network_analyser_using_r.State.Slots.{IsServer}
use network_analyser_using_r.Ethernet.Total.{IsPacket}
use network_analyser_using_r.Callback.Returns.{IsReadable, packet_capture_callback-returns}
use network_analyser_using_r.Capture.{Pcap, IsPcap, capture_packets, run_callbacks, reset_counters}
use network_analyser_using_r.Capture.Correct.{
  is_ready, capture_packets_lem, reset_counters-IsServer, IsCapture, capture_packets-IsCapture,
}

run_callbacks-returns :
    (p : Platform) (fuel : ℕ) (packets : List Bytes) (s : Server)
    → IsPlatform p
    → All IsPacket packets
    → All (IsReadable p fuel) packets
    → IsServer s
    → (s' : Server) × (run_callbacks p fuel packets s ≡ ok s')
unfolding run_callbacks
run_callbacks-returns p fuel [] s documented bytes r v = (s, refl)
run_callbacks-returns p fuel (packet ∷ packets) s documented bytes r v =
    let (t, called, step) =
      packet_capture_callback-returns p fuel packet s documented bytes.0 r.0 v in
    let (s', e) = run_callbacks-returns p fuel packets t documented bytes.1 r.1 step.valid in
    (s', rw called e)

-- Where the machine and libpcap are as documented, libpcap accepts the device and the filter,
-- every packet that it hands over is readable within the fuel, and the globals keep the
-- invariant, a capture of n packets, one or more, returns. The invariant holds then, the packets
-- kept and discarded are at most n, no beacon has the SSID and BSSID of a packet kept before it,
-- and the output is as before.
pub capture_packets-returns :
    (p : Platform) (fuel n : ℕ) (c : Pcap) (dev filter : Option Bytes) (s : Server)
    → IsPlatform p
    → IsPcap c
    → is_ready c dev filter ≡ true
    → All (IsReadable p fuel) (c.loop n)
    → IsServer s
    → 0 < n
    → (s' : Server) × (capture_packets p fuel c dev n filter s ≡ ok s') × IsCapture n s s'
capture_packets-returns p fuel n c dev filter s documented pcap ready r v positive =
    let (s', ran) =
      run_callbacks-returns p fuel (c.loop n) (reset_counters s) documented (pcap.bytes n) r
        (reset_counters-IsServer s v) in
    let e : capture_packets p fuel c dev n filter s ≡ ok s' =
      capture_packets_lem p fuel n c dev filter s ∙ rw ready ran in
    (s', e, capture_packets-IsCapture p fuel n c dev filter s s' documented pcap v positive e)
