-- ===== src/Dedup.antt =====
-- `pkt_with_ssid_bssid_exists`: the linear search for a packet with a given SSID and BSSID.
pub mod Scan
pub mod Spec
pub mod Distinct
pub mod Tally
use network_analyser_using_r.Base.{
  ℕ, zero, suc, ◌+◌, Bool, true, false, not, ◌&&◌, Bytes, if◌then◌else◌,
}
use network_analyser_using_r.Outcome.{Outcome, ok, load, ◌>>=◌}
use network_analyser_using_r.CString.{same_string}
use network_analyser_using_r.State.{PacketInfo, Server}

-- The condition of both `if`s is computed from these two tests; the second is made only where
-- the first holds.
unfoldable pub compare_keys : PacketInfo → Bytes → Bytes → Outcome (Bool × Bool)
unfolding same_string
compare_keys q new_ssid new_bssid = do
  same_ssid ← same_string q.ssid new_ssid
  same_bssid ← (if same_ssid then same_string q.ethernet_bss_id new_bssid else ok false)
  ok (same_ssid, same_bssid)

abbrev pub count_diff : Bool → Server → Server
count_diff b s = record s {
  packets_same_ssid_diff_bssid =
      if b then s.packets_same_ssid_diff_bssid + 1 else s.packets_same_ssid_diff_bssid;
}

abbrev pub count_dup : Server → Server
count_dup s = record s { dup_packets_discarded = s.dup_packets_discarded + 1 }

-- The loop at index `count`, with `left` packets to look at. The result says whether one matches.
unfoldable pub scan : ℕ → ℕ → Server → Bytes → Bytes → Outcome (Bool × Server)
unfolding compare_keys
scan zero count s new_ssid new_bssid = ok (false, s)
scan (suc left) count s new_ssid new_bssid = do
  q ← load s.cap_info.packet_info_array count
  (same_ssid, same_bssid) ← compare_keys q new_ssid new_bssid
  let s' = count_diff (same_ssid && not same_bssid) s
  let rest = scan left (count + 1) s' new_ssid new_bssid
  if same_ssid && same_bssid then ok (true, count_dup s') else rest

unfoldable pub pkt_with_ssid_bssid_exists : Server → Bytes → Bytes → Outcome (Bool × Server)
unfolding scan
pkt_with_ssid_bssid_exists s = scan s.cur_packet_count 0 s
