-- ===== src/Dedup/Scan.antt =====
-- The search refines its specification on the keys of the packets captured so far.
use network_analyser_using_r.Base.{
  ℕ, suc, ◌+◌, ◌<◌, not, ◌&&◌, ◌≡◌, refl, ap, arith, ◌∙◌, List, [], ◌∷◌, Bytes, if◌then◌else◌, some,
  All, length, get_elem?, length-take, All-take, get_elem?-lt, get_elem?-take, sym,
}
use network_analyser_using_r.Outcome.{ok}
use network_analyser_using_r.CString.{same_text, c_string}
use network_analyser_using_r.CString.Compare.{same_string_lem}
use network_analyser_using_r.State.{PacketInfo, Server}
use network_analyser_using_r.Dedup.{compare_keys, count_diff, scan, pkt_with_ssid_bssid_exists}
use network_analyser_using_r.Dedup.Spec.{
  Key, same_key, has_key, diff_before, keys, key_of, captured,
}
use network_analyser_using_r.CString.Text.{c_string-until_nul}
use network_analyser_using_r.State.Slots.{IsServer, IsSlot}
use mathlib.Core.List.{map}
use native.Mathlib.Nat.{zero-add}

-- The slot holds the two texts of the key.
pub record HasKey (q : PacketInfo) (k : Key) : Type 0 where
  pub ssid : c_string q.ssid ≡ some k.ssid
  pub bssid : c_string q.ethernet_bss_id ≡ some k.bssid

-- The slots hold the keys, one for one.
abbrev pub HaveKeys : List PacketInfo → List Key → Type 0
HaveKeys [] [] = Unit
HaveKeys (q ∷ qs) (k ∷ ks) = HasKey q k × HaveKeys qs ks
HaveKeys _ _ = ⊥

compare_keys_lem :
    (q : PacketInfo) (a k : Key) (new_ssid new_bssid : Bytes)
    → HasKey q a
    → c_string new_ssid ≡ some k.ssid
    → c_string new_bssid ≡ some k.bssid
    → compare_keys q new_ssid new_bssid
      ≡ ok (same_text a.ssid k.ssid, same_text a.ssid k.ssid && same_text a.bssid k.bssid)
unfolding compare_keys
compare_keys_lem q a k new_ssid new_bssid h p r = ground (
  arith,
  same_string_lem q.ssid new_ssid a.ssid k.ssid h.ssid p,
  same_string_lem q.ethernet_bss_id new_bssid a.bssid k.bssid h.bssid r,
)

-- The globals after a search among the keys `ks` for `k`.
abbrev pub searched : List Key → Key → Server → Server
searched ks k s = record s {
  dup_packets_discarded = s.dup_packets_discarded + (if has_key ks k then 1 else 0);
  packets_same_ssid_diff_bssid = s.packets_same_ssid_diff_bssid + diff_before ks k;
}

scan_lem :
    (ks : List Key) (qs : List PacketInfo) (count : ℕ) (s : Server) (k : Key)
    (new_ssid new_bssid : Bytes)
    → HaveKeys qs ks
    → ((i : ℕ) (q : PacketInfo)
        → get_elem? qs i ≡ some q
        → get_elem? s.cap_info.packet_info_array (count + i) ≡ some q)
    → c_string new_ssid ≡ some k.ssid
    → c_string new_bssid ≡ some k.bssid
    → scan (length qs) count s new_ssid new_bssid ≡ ok (has_key ks k, searched ks k s)
unfolding scan has_key diff_before same_key
scan_lem [] [] count s k new_ssid new_bssid h stored p r = ground arith
scan_lem [] (q ∷ qs) count s k new_ssid new_bssid h stored p r = absurd h
scan_lem (a ∷ ks) [] count s k new_ssid new_bssid h stored p r = absurd h
scan_lem (a ∷ ks) (q ∷ qs) count s k new_ssid new_bssid h stored p r = ground (
  arith,
  compare_keys_lem q a k new_ssid new_bssid h.0 p r,
  first,
  scan_lem ks qs (count + 1)
      (count_diff
        (same_text a.ssid k.ssid && not (same_text a.ssid k.ssid && same_text a.bssid k.bssid)) s)
      k new_ssid new_bssid h.1 later p r,
)
  where
    first : get_elem? s.cap_info.packet_info_array count ≡ some q
    first = let e : count ≡ count + 0 = omega arith in rw e (stored 0 q refl)

    later :
        (i : ℕ) (q' : PacketInfo)
        → get_elem? qs i ≡ some q'
        → get_elem? s.cap_info.packet_info_array (count + 1 + i) ≡ some q'
    later i q' found =
        let e : count + 1 + i ≡ count + suc i = omega arith in rw e (stored (suc i) q' found)

pub IsSlot-HasKey : (q : PacketInfo) → IsSlot q → HasKey q (key_of q)
unfolding key_of
IsSlot-HasKey q h = record {
  ssid = h.ssid.reads ∙ ap some (c_string-until_nul q.ssid h.ssid.reads);
  bssid = h.bssid.reads ∙ ap some (c_string-until_nul q.ethernet_bss_id h.bssid.reads);
}

HaveKeys-map : (qs : List PacketInfo) → All IsSlot qs → HaveKeys qs (map key_of qs)
HaveKeys-map [] h = tt
HaveKeys-map (q ∷ qs) h = (IsSlot-HasKey q h.0, HaveKeys-map qs h.1)

-- On globals that keep the invariant, with two arrays that hold the texts of a key, the search
-- returns. It says whether a captured packet has the key, counts a duplicate exactly then, counts
-- the packets before the first duplicate that share the SSID only, and changes nothing else.
pub pkt_with_ssid_bssid_exists_lem :
    (s : Server) (k : Key) (new_ssid new_bssid : Bytes)
    → IsServer s
    → c_string new_ssid ≡ some k.ssid
    → c_string new_bssid ≡ some k.bssid
    → pkt_with_ssid_bssid_exists s new_ssid new_bssid
      ≡ ok (has_key (keys s) k, searched (keys s) k s)
unfolding pkt_with_ssid_bssid_exists keys
pkt_with_ssid_bssid_exists_lem s k new_ssid new_bssid v p r =
    rw all at
      (scan_lem (map key_of (captured s)) (captured s) 0 s k new_ssid new_bssid held stored p r)
  where
    all : length (captured s) ≡ s.cur_packet_count
    all = length-take _ s.cap_info.packet_info_array (omega (arith, v.size, v.within))

    held : HaveKeys (captured s) (map key_of (captured s))
    held = HaveKeys-map (captured s) (All-take IsSlot s.cur_packet_count _ v.slots)

    stored :
        (i : ℕ) (q : PacketInfo)
        → get_elem? (captured s) i ≡ some q
        → get_elem? s.cap_info.packet_info_array (0 + i) ≡ some q
    stored i q e =
        let below : i < s.cur_packet_count = rw all at (get_elem?-lt (captured s) i e) in
        rw (zero-add i) (sym (get_elem?-take s.cur_packet_count _ i below) ∙ e)
