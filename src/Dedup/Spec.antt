-- ===== src/Dedup/Spec.antt =====
-- What the search for duplicates promises, on the list of the keys captured so far.
use network_analyser_using_r.Base.{
  ℕ, ◌+◌, take, Bool, false, ◌&&◌, ◌||◌, List, [], ◌∷◌, Bytes, if◌then◌else◌,
}
use network_analyser_using_r.CString.{same_text, until_nul}
use network_analyser_using_r.State.{PacketInfo, Server}
use mathlib.Core.List.{map}

-- The SSID and the BSSID of a packet, as texts.
pub record Key : Type 0 where
  pub ssid : Bytes
  pub bssid : Bytes

unfoldable pub same_key : Key → Key → Bool
unfolding same_text
same_key a b = same_text a.ssid b.ssid && same_text a.bssid b.bssid

-- Some key of the list is `k`.
unfoldable pub has_key : List Key → Key → Bool
unfolding same_key
has_key [] k = false
has_key (a ∷ ks) k = same_key a k || has_key ks k

-- How many keys before the first `k` share its SSID only.
unfoldable pub diff_before : List Key → Key → ℕ
unfolding same_key same_text
diff_before [] k = 0
diff_before (a ∷ ks) k =
    if same_key a k then 0 else (if same_text a.ssid k.ssid then 1 else 0) + diff_before ks k

unfoldable pub key_of : PacketInfo → Key
unfolding until_nul
key_of q = record { ssid = until_nul q.ssid; bssid = until_nul q.ethernet_bss_id }

-- The slots in use, and their keys.
abbrev pub captured : Server → List PacketInfo
captured s = take s.cur_packet_count s.cap_info.packet_info_array

unfoldable pub keys : Server → List Key
unfolding key_of
keys s = map key_of (captured s)
