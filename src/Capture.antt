-- ===== src/Capture.antt =====
-- `capture_packets`: the setup of libpcap, the reset of the counters and the capture itself.
pub mod Order
pub mod Runs
pub mod Correct
pub mod Returns
pub mod Ranges
pub mod Tally
pub mod Source
pub mod Older
pub mod Shown
use network_analyser_using_r.Base.{
  ℕ, ◌≤◌, ◌<◌, All, Bool, true, false, Bytes, ℤ, negsuc, equal_int, if◌then◌else◌, List, [], ◌∷◌,
  Option, none, some, codes, length,
}
use network_analyser_using_r.Outcome.{Outcome, ok, exit, ◌>>=◌}
use network_analyser_using_r.State.{CaptureInfo, Server, Platform}
use network_analyser_using_r.Callback.{packet_capture_callback}

-- libpcap during one capture: whether the device opens, what compiling and installing a filter
-- return, and the packets that `pcap_loop` hands over when it is asked for a number of them.
pub record Pcap : Type 0 where
  pub open_live : Bytes → Bool
  pub compile : Bytes → ℤ
  pub set_filter : Bytes → ℤ
  pub loop : ℕ → List Bytes

-- `pcap_loop` stops after the number of packets that it is asked for, but has no limit where that is
-- 0, and a packet is a list of bytes.
pub record IsPcap (c : Pcap) : Type 0 where
  pub at_most : (n : ℕ) → 0 < n → length (c.loop n) ≤ n
  pub bytes : (n : ℕ) → All (All (λ b. b < 256)) (c.loop n)

abbrev pub reset_counters : Server → Server
reset_counters s = record s {
  cur_packet_count = 0;
  dup_packets_discarded = 0;
  packets_same_ssid_diff_bssid = 0;
  cap_info = record (s.cap_info) { packet_info_count = 0 };
}

-- The filter is compiled and installed where one is given; -1 from either call ends the program.
unfoldable pub install_filter : Pcap → Option Bytes → Outcome (Unit {0})
install_filter c none = ok tt
install_filter c (some filter) =
    if equal_int (c.compile filter) (negsuc 0)
    then exit 1
    else if equal_int (c.set_filter filter) (negsuc 0)
    then exit 1
    else ok tt

-- Opening the device; there is none to open for NULL.
unfoldable pub open_device : Pcap → Option Bytes → Outcome (Unit {0})
open_device c none = exit 1
open_device c (some dev) = if c.open_live dev then ok tt else exit 1

module _ (p : Platform) (fuel : ℕ) where
  -- The callback on each packet in turn.
  unfoldable pub run_callbacks : List Bytes → Server → Outcome Server
  run_callbacks [] s = ok s
  run_callbacks (packet ∷ packets) s =
      packet_capture_callback p fuel packet s >>= run_callbacks packets

  unfoldable pub capture_packets : Pcap → Option Bytes → ℕ → Option Bytes → Server → Outcome Server
  capture_packets c dev num_of_packets filter s = do
    _ ← open_device c dev
    _ ← install_filter c filter
    run_callbacks (c.loop num_of_packets) (reset_counters s)
