-- ===== src/Callback.antt =====
-- `packet_capture_callback`: what libpcap calls for each packet.
pub mod Step
pub mod Branches
pub mod Beacon
pub mod Correct
pub mod Returns
pub mod Packet
pub mod Ranges
pub mod Tally
pub mod Source
pub mod Older
pub mod Shown
use network_analyser_using_r.Base.{ℕ, ◌+◌, Bool, true, false, Bytes, if◌then◌else◌, ◌==◌, ltb}
use network_analyser_using_r.Outcome.{Outcome, ok, ◌>>=◌}
use network_analyser_using_r.State.{
  PacketInfo, CaptureInfo, Server, Platform, current, max_packet_info_count,
}
use network_analyser_using_r.Radiotap.{parse_radio_tap}
use network_analyser_using_r.Ethernet.{parse_ethernet, beacon_type}

-- `BUFSIZ` of the C library, handed to the radiotap parser as the size of every packet.
abbrev pub bufsiz : ℕ
bufsiz = 8192

-- Both counters, after a packet that is kept.
abbrev pub count_packet : Server → Server
count_packet s = record s {
  cur_packet_count = s.cur_packet_count + 1;
  cap_info = record (s.cap_info) { packet_info_count = s.cap_info.packet_info_count + 1 };
}

module _ (p : Platform) (fuel : ℕ) where
  -- The radiotap header is read for a beacon only, by the type that the slot holds.
  unfoldable pub parse_header : Bytes → Server → Outcome Server
  parse_header packet s = do
    q ← current s
    if q.ethernet_type == beacon_type
        then (parse_radio_tap p packet fuel bufsiz s >>= λ (ret, s'). ok s')
        else ok s

  -- After `parse_ethernet`, by its result.
  unfoldable pub keep_packet : Bytes → ℕ → Server → Outcome Server
  keep_packet packet ethernet_type s =
      if ethernet_type == 0 then ok s else (parse_header packet s >>= λ s'. ok (count_packet s'))

  unfoldable pub packet_capture_callback : Bytes → Server → Outcome Server
  packet_capture_callback packet s =
      if ltb s.cur_packet_count max_packet_info_count
      then (parse_ethernet p packet s >>= λ (ethernet_type, s').
          keep_packet packet ethernet_type s')
      else ok s
