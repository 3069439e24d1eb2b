-- ===== src/Callback/Step.antt =====
-- The contract of one call of the callback, as a relation between the globals before and after.
use network_analyser_using_r.Base.{
  ◌+◌, ◌≤◌, ◌<◌, ◌≡◌, arith, [], ◌∷◌, ◌++◌, true, false, length, take-suc-set,
}
use native.Mathlib.Numerals.{add-one}
use network_analyser_using_r.CString.Text.{c_string-until_nul}
use network_analyser_using_r.State.{PacketInfo, Server, max_packet_info_count}
use network_analyser_using_r.State.Slots.{IsServer, with_current}
use network_analyser_using_r.Dedup.Spec.{Key, has_key, diff_before, keys, key_of, captured}
use network_analyser_using_r.Dedup.Scan.{HasKey}
use network_analyser_using_r.Ethernet.{beacon_type}
use network_analyser_using_r.Callback.{count_packet}

-- What happens to a packet: 50 packets are held already; its key was captured before; it is
-- a frame of type 0; or it is kept, behind the others, a beacon only under a new key.
pub data Change (s s' : Server) : Type 0 where
  full : max_packet_info_count ≤ s.cur_packet_count → s' ≡ s → Change s s'
  duplicate :
      (k : Key)
      → has_key (keys s) k ≡ true
      → captured s' ≡ captured s
      → s'.cur_packet_count ≡ s.cur_packet_count
      → s'.dup_packets_discarded ≡ s.dup_packets_discarded + 1
      → s'.packets_same_ssid_diff_bssid ≡ s.packets_same_ssid_diff_bssid + diff_before (keys s) k
      → Change s s'
  ignored :
      captured s' ≡ captured s
      → s'.cur_packet_count ≡ s.cur_packet_count
      → s'.dup_packets_discarded ≡ s.dup_packets_discarded
      → s'.packets_same_ssid_diff_bssid ≡ s.packets_same_ssid_diff_bssid
      → Change s s'
  kept_beacon :
      (q : PacketInfo)
      → q.ethernet_type ≡ beacon_type
      → has_key (keys s) (key_of q) ≡ false
      → captured s' ≡ captured s ++ (q ∷ [])
      → s'.cur_packet_count ≡ s.cur_packet_count + 1
      → s'.dup_packets_discarded ≡ s.dup_packets_discarded
      → s'.packets_same_ssid_diff_bssid
        ≡ s.packets_same_ssid_diff_bssid + diff_before (keys s) (key_of q)
      → Change s s'
  kept_other :
      (q : PacketInfo)
      → ¬ (q.ethernet_type ≡ beacon_type)
      → captured s' ≡ captured s ++ (q ∷ [])
      → s'.cur_packet_count ≡ s.cur_packet_count + 1
      → s'.dup_packets_discarded ≡ s.dup_packets_discarded
      → s'.packets_same_ssid_diff_bssid ≡ s.packets_same_ssid_diff_bssid
      → Change s s'

-- One call: the invariant holds again, the output is as before, and one of these happened.
pub record Step (s s' : Server) : Type 0 where
  pub valid : IsServer s'
  pub output : s'.output_buff ≡ s.output_buff
  pub change : Change s s'

pub HasKey-key_of : (q : PacketInfo) (k : Key) → HasKey q k → key_of q ≡ k
unfolding key_of
HasKey-key_of q k h =
    ground (arith, c_string-until_nul q.ssid h.ssid, c_string-until_nul q.ethernet_bss_id h.bssid)

-- Counting the current slot appends it to the captured ones.
pub captured-count_packet :
    (s : Server) (q : PacketInfo)
    → s.cur_packet_count < length s.cap_info.packet_info_array
    → captured (count_packet (with_current s q)) ≡ captured s ++ (q ∷ [])
captured-count_packet s q h =
    rw add-one (take-suc-set s.cur_packet_count s.cap_info.packet_info_array q h)

pub count_packet-IsServer :
    (s : Server)
    → IsServer s
    → s.cur_packet_count < max_packet_info_count
    → IsServer (count_packet s)
count_packet-IsServer s v h = record {
  counted = omega (arith, v.counted);
  within = omega arith;
  size = v.size;
  slots = v.slots;
  buffer = v.buffer;
}
