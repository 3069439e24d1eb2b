-- ===== src/Ethernet/Key.antt =====
-- `parse_key`: the SSID and the BSSID go to the current slot, and the search looks for them among
-- the slots below it.
use network_analyser_using_r.Base.{
  ℕ, ◌+◌, ◌≤◌, ◌<◌, ◌≡◌, ap, arith, Bytes, some, none, length, take, drop, get_elem?, take-set,
}
use network_analyser_using_r.Outcome.{ok, fault}
use network_analyser_using_r.CString.{until_nul}
use network_analyser_using_r.CString.Text.{c_string-append_nul}
use network_analyser_using_r.State.{
  Platform, IsPlatform, PacketInfo, Server, current, max_ssid_char_count, max_packet_info_count,
}
use network_analyser_using_r.State.Slots.{
  IsSlot, IsServer, with_current, with_ntoa, with_ntoa-IsServer, put_current_lem,
  with_current-IsServer,
}
use network_analyser_using_r.Dedup.{pkt_with_ssid_bssid_exists}
use network_analyser_using_r.Dedup.Spec.{Key, has_key, keys, key_of}
use network_analyser_using_r.Dedup.Scan.{searched, pkt_with_ssid_bssid_exists_lem}
use network_analyser_using_r.Ethernet.{parse_key, read_ssid, tag_length, ssid_start, bssid_offset}
use network_analyser_using_r.Ethernet.Ssid.{
  read_ssid_lem, read_ssid-fault, read_ssid_truncated, ssid_cells, ssid_cells-IsText,
}
use network_analyser_using_r.Ethernet.Address.{
  mac_at, address_cells, copy_address_lem, address_cells-text, address_cells-IsText,
}
use mathlib.Core.List.{map}

-- The packet has an SSID of `len` bytes that fits a slot, and holds all of it.
pub record HasShortSsid (packet : Bytes) (len : ℕ) : Type 0 where
  pub tagged : get_elem? packet tag_length ≡ some len
  pub short : len < max_ssid_char_count
  pub complete : ssid_start + len ≤ length packet

-- The key of such a packet: the SSID up to a NUL, and the text of the BSSID.
unfoldable pub packet_key : (Bytes → Bytes) → Bytes → ℕ → Key
packet_key address_text packet len = record {
  ssid = until_nul (take len (drop ssid_start packet));
  bssid = address_text (mac_at packet bssid_offset);
}

module _ (p : Platform) (packet : Bytes) (len : ℕ) (s : Server) (q : PacketInfo) where
  abbrev pub ntoa_bssid : Bytes
  ntoa_bssid = p.ether_ntoa (mac_at packet bssid_offset) s.ntoa_buffer

  -- The slot, and the globals, when the search starts.
  abbrev pub keyed_slot : PacketInfo
  keyed_slot = record q {
    ssid = ssid_cells len packet q.ssid;
    ethernet_bss_id = address_cells ntoa_bssid q.ethernet_bss_id;
  }

  abbrev pub keyed_server : Server
  keyed_server = with_current (with_ntoa s ntoa_bssid) keyed_slot

pub keys-with_current :
    (s : Server) (b : Bytes) (q : PacketInfo) → keys (with_current (with_ntoa s b) q) ≡ keys s
unfolding keys
keys-with_current s b q =
    ap (map key_of)
      (take-set s.cur_packet_count s.cap_info.packet_info_array s.cur_packet_count q (omega arith))

module _ (p : Platform) (documented : IsPlatform p) (packet : Bytes) (len : ℕ)
    (h : HasShortSsid packet len) (s : Server) (v : IsServer s)
    (room : s.cur_packet_count < max_packet_info_count) (q : PacketInfo) (found : current s ≡ ok q)
    (w : IsSlot q) where
  pub keyed_slot-IsSlot : IsSlot (keyed_slot p packet len s q)
  keyed_slot-IsSlot = record {
    ssid = ssid_cells-IsText packet q.ssid len h.short h.complete w.ssid.size;
    src = w.src;
    dst = w.dst;
    bssid =
        address_cells-IsText p documented packet s.ntoa_buffer q.ethernet_bss_id bssid_offset
          (omega (arith, h.complete)) w.bssid.size;
  }

  pub keyed_server-IsServer : IsServer (keyed_server p packet len s q)
  keyed_server-IsServer = with_current-IsServer _ _ (with_ntoa-IsServer s _ v) keyed_slot-IsSlot

  searched_lem :
      pkt_with_ssid_bssid_exists
        (keyed_server p packet len s q)
        (ssid_cells len packet p.ssid_stack)
        (keyed_slot p packet len s q).ethernet_bss_id
      ≡ ok (
        has_key (keys s) (packet_key documented.address_text packet len),
        searched
            (keys s)
            (packet_key documented.address_text packet len)
            (keyed_server p packet len s q),
      )
  searched_lem =
      rw (keys-with_current s (ntoa_bssid p packet len s q) (keyed_slot p packet len s q)) at (
        pkt_with_ssid_bssid_exists_lem (keyed_server p packet len s q)
          (packet_key documented.address_text packet len) (ssid_cells len packet p.ssid_stack)
          ((keyed_slot p packet len s q).ethernet_bss_id) keyed_server-IsServer
          (unfold packet_key in
            c_string-append_nul (take len (drop ssid_start packet)) (drop (len + 1) p.ssid_stack))
          (unfold packet_key in
            address_cells-text p documented packet s.ntoa_buffer q.ethernet_bss_id bssid_offset
              (omega (arith, h.complete)) w.bssid.size))

  pub parse_key_lem :
      parse_key p packet s
      ≡ ok (
        has_key (keys s) (packet_key documented.address_text packet len),
        searched
            (keys s)
            (packet_key documented.address_text packet len)
            (keyed_server p packet len s q),
      )
  unfolding parse_key
  parse_key_lem =
      rw
        (
          found,
          read_ssid_lem packet p.ssid_stack q.ssid len h.tagged h.short h.complete
              documented.ssid_stack_length w.ssid.size,
          copy_address_lem p documented packet s.ntoa_buffer q.ethernet_bss_id bssid_offset
              (omega (arith, h.complete)) w.bssid.size,
          put_current_lem (with_ntoa s (ntoa_bssid p packet len s q)) (keyed_slot p packet len s q)
              (omega (arith, v.size)),
        )
        searched_lem

-- A packet whose SSID has 15 bytes or more: the globals do not matter.
pub parse_key-fault :
    (p : Platform) (packet : Bytes) (len : ℕ) (s : Server) (q : PacketInfo)
    → IsPlatform p
    → current s ≡ ok q
    → get_elem? packet tag_length ≡ some len
    → max_ssid_char_count ≤ len
    → parse_key p packet s ≡ fault
unfolding parse_key
parse_key-fault p packet len s q documented found tagged long =
    rw (
      found,
      read_ssid-fault packet p.ssid_stack q.ssid len tagged long documented.ssid_stack_length,
    )

-- A packet that ends inside its SSID, or before the length of it.
pub parse_key_truncated :
    (p : Platform) (packet : Bytes) (len : ℕ) (s : Server) (q : PacketInfo)
    → current s ≡ ok q
    → get_elem? packet tag_length ≡ some len
    → length packet < ssid_start + len
    → parse_key p packet s ≡ fault
unfolding parse_key
parse_key_truncated p packet len s q found tagged truncated =
    rw (found, read_ssid_truncated packet p.ssid_stack q.ssid len tagged truncated)

pub parse_key_untagged :
    (p : Platform) (packet : Bytes) (s : Server) (q : PacketInfo)
    → current s ≡ ok q
    → get_elem? packet tag_length ≡ none
    → parse_key p packet s ≡ fault
unfolding parse_key read_ssid
parse_key_untagged p packet s q found untagged = rw (found, untagged)
