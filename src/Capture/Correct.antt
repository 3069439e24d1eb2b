-- ===== src/Capture/Correct.antt =====
-- What one capture leaves behind, and when it ends the program instead.
use network_analyser_using_r.Base.{
  ℕ, ◌<◌, ◌+◌, ◌*◌, ◌≤◌, ◌≡◌, refl, arith, Bytes, Bool, true, false, ◌&&◌, not, Option, some, none,
  negsuc, equal_int, if◌then◌else◌,
}
use network_analyser_using_r.Outcome.{ok, exit, bind_inv}
use network_analyser_using_r.State.{Platform, IsPlatform, Server, max_packet_info_count}
use network_analyser_using_r.State.Slots.{IsServer}
use network_analyser_using_r.Dedup.Spec.{captured}
use network_analyser_using_r.Dedup.Distinct.{AreDistinct}
use network_analyser_using_r.Capture.{
  Pcap, IsPcap, capture_packets, open_device, install_filter, run_callbacks, reset_counters,
}
use network_analyser_using_r.Capture.Runs.{
  run_callbacks-Run, Run-IsServer, Run-IsCounted, Run-AreDistinct, Run-output,
}

-- libpcap accepts the device and the filter, if there is one.
unfoldable pub filter_ready : Pcap → Option Bytes → Bool
filter_ready c none = true
filter_ready c (some filter) =
    not (equal_int (c.compile filter) (negsuc 0))
    && not (equal_int (c.set_filter filter) (negsuc 0))

unfoldable pub is_ready : Pcap → Option Bytes → Option Bytes → Bool
unfolding filter_ready
is_ready c none filter = false
is_ready c (some dev) filter = c.open_live dev && filter_ready c filter

-- The body of a capture, with the two guards as one test.
pub capture_packets_lem :
    (p : Platform) (fuel n : ℕ) (c : Pcap) (dev filter : Option Bytes) (s : Server)
    → capture_packets p fuel c dev n filter s ≡ (
        if is_ready c dev filter
        then run_callbacks p fuel (c.loop n) (reset_counters s)
        else exit 1)
unfolding capture_packets open_device install_filter is_ready
capture_packets_lem p fuel n c none filter s = refl
capture_packets_lem p fuel n c (some dev) none s = ground arith
capture_packets_lem p fuel n c (some dev) (some filter) s = ground arith

pub reset_counters-IsServer : (s : Server) → IsServer s → IsServer (reset_counters s)
reset_counters-IsServer s v = record {
  counted = refl;
  within = omega arith;
  size = v.size;
  slots = v.slots;
  buffer = v.buffer;
}

-- After a capture of `n` packets: the invariant holds, the packets kept and discarded are no more
-- than were asked for, no beacon has the key of a packet before it, and the output is as before.
pub record IsCapture (n : ℕ) (s s' : Server) : Type 0 where
  pub valid : IsServer s'
  pub within : s'.cur_packet_count ≤ max_packet_info_count
  pub packets : s'.cur_packet_count + s'.dup_packets_discarded ≤ n
  pub diffs : s'.packets_same_ssid_diff_bssid ≤ max_packet_info_count * n
  pub distinct : AreDistinct (captured s')
  pub output : s'.output_buff ≡ s.output_buff

-- A capture that returns has left such globals, whatever was captured before.
pub capture_packets-IsCapture :
    (p : Platform) (fuel n : ℕ) (c : Pcap) (dev filter : Option Bytes) (s s' : Server)
    → IsPlatform p
    → IsPcap c
    → IsServer s
    → 0 < n
    → capture_packets p fuel c dev n filter s ≡ ok s'
    → IsCapture n s s'
unfolding capture_packets
capture_packets-IsCapture p fuel n c dev filter s s' documented pcap v positive h =
    let (_, opened, h1) = bind_inv (open_device c dev) _ h in
    let (_, installed, h2) = bind_inv (install_filter c filter) _ h1 in
    let v0 = reset_counters-IsServer s v in
    let run =
      run_callbacks-Run p fuel (c.loop n) (reset_counters s) s' documented (pcap.bytes n) v0 h2 in
    let counted = Run-IsCounted run v0 in
    let valid = Run-IsServer run v0 in
    record {
      valid = valid;
      within = valid.within;
      packets = omega (arith, counted, pcap.at_most n positive);
      diffs = grind (arith, counted, pcap.at_most n positive);
      distinct = Run-AreDistinct run tt;
      output = Run-output run;
    }
