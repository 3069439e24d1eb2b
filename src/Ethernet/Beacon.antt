-- ===== src/Ethernet/Beacon.antt =====
-- `parse_ethernet` on each kind of frame.
use network_analyser_using_r.Base.{
  ℕ, ◌+◌, ◌*◌, ◌≤◌, ◌<◌, ◌≡◌, ◌≢◌, ◌∙◌, arith, Bytes, List, some, length, get_elem?, ==_iff, ne→==,
  length-set,
}
use network_analyser_using_r.Outcome.{ok, fault}
use network_analyser_using_r.State.{
  Platform, IsPlatform, PacketInfo, Server, current, max_packet_info_count,
}
use network_analyser_using_r.State.Slots.{
  IsSlot, IsServer, with_current, with_ntoa, put_current_lem, with_current-IsServer,
  current-with_current,
}
use network_analyser_using_r.Dedup.Spec.{Key, has_key, keys}
use network_analyser_using_r.Dedup.Scan.{searched}
use network_analyser_using_r.Ethernet.{
  parse_ethernet, parse_frame, parse_key, parse_addresses, frame_type, beacon_frame, beacon_type,
  ssid_start, ether_dhost, ether_shost,
}
use network_analyser_using_r.Ethernet.Address.{
  mac_at, address_cells, copy_address_lem, address_cells-IsText,
}
use network_analyser_using_r.Ethernet.Key.{
  HasShortSsid, packet_key, keyed_slot, keyed_server, parse_key_lem, keyed_server-IsServer,
  keyed_slot-IsSlot, keys-with_current,
}

-- The two bytes of the frame control field.
pub record HasType (packet : Bytes) (b0 b1 : ℕ) : Type 0 where
  pub first : get_elem? packet beacon_frame ≡ some b0
  pub second : get_elem? packet (beacon_frame + 1) ≡ some b1
  pub first_byte : b0 < 256
  pub second_byte : b1 < 256

frame_type_lem :
    (p : Platform) (packet : Bytes) (b0 b1 : ℕ)
    → IsPlatform p
    → HasType packet b0 b1
    → frame_type p packet ≡ ok (b0 * 256 + b1)
unfolding frame_type
frame_type_lem p packet b0 b1 documented h =
    rw (h.first, h.second, documented.ntohs-load_u16 b0 b1 h.first_byte h.second_byte)

module _ (p : Platform) (documented : IsPlatform p) (packet : Bytes)
    (complete : ssid_start ≤ length packet) (s : Server) (v : IsServer s)
    (room : s.cur_packet_count < max_packet_info_count) (q : PacketInfo) (found : current s ≡ ok q)
    (w : IsSlot q) where
  abbrev ntoa_dst : Bytes
  ntoa_dst = p.ether_ntoa (mac_at packet ether_dhost) s.ntoa_buffer

  abbrev ntoa_src : Bytes
  ntoa_src = p.ether_ntoa (mac_at packet ether_shost) ntoa_dst

  -- The slot, and the globals, with both addresses.
  abbrev pub addressed_slot : PacketInfo
  addressed_slot = record q {
    ethernet_dst_addr = address_cells ntoa_dst q.ethernet_dst_addr;
    ethernet_src_addr = address_cells ntoa_src q.ethernet_src_addr;
  }

  abbrev pub addressed_server : Server
  addressed_server = with_current (with_ntoa s ntoa_src) addressed_slot

  pub parse_addresses_lem : parse_addresses p packet s ≡ ok addressed_server
  unfolding parse_addresses
  parse_addresses_lem =
      rw
        (
          found,
          copy_address_lem p documented packet s.ntoa_buffer q.ethernet_dst_addr ether_dhost
              (omega (arith, complete)) w.dst.size,
          copy_address_lem p documented packet ntoa_dst q.ethernet_src_addr ether_shost
              (omega (arith, complete)) w.src.size,
        )
        (put_current_lem (with_ntoa s ntoa_src) addressed_slot (omega (arith, v.size)))

  pub addressed_slot-IsSlot : IsSlot addressed_slot
  addressed_slot-IsSlot = record {
    ssid = w.ssid;
    bssid = w.bssid;
    dst =
        address_cells-IsText p documented packet s.ntoa_buffer q.ethernet_dst_addr ether_dhost
          (omega (arith, complete)) w.dst.size;
    src =
        address_cells-IsText p documented packet ntoa_dst q.ethernet_src_addr ether_shost
          (omega (arith, complete)) w.src.size;
  }

searched-IsServer : (ks : List Key) (k : Key) (s : Server) → IsServer s → IsServer (searched ks k s)
searched-IsServer ks k s v = record {
  counted = v.counted;
  within = v.within;
  size = v.size;
  slots = v.slots;
  buffer = v.buffer;
}

module _ (p : Platform) (documented : IsPlatform p) (packet : Bytes) (b0 b1 : ℕ)
    (ty : HasType packet b0 b1) (s : Server) (v : IsServer s)
    (room : s.cur_packet_count < max_packet_info_count) (q : PacketInfo) (found : current s ≡ ok q)
    (w : IsSlot q) where
  abbrev pub typed_slot : PacketInfo
  typed_slot = record q { ethernet_type = b0 * 256 + b1 }

  abbrev pub typed_server : Server
  typed_server = with_current s typed_slot

  pub typed_slot-IsSlot : IsSlot typed_slot
  typed_slot-IsSlot = record { ssid = w.ssid; src = w.src; dst = w.dst; bssid = w.bssid }

  pub typed_server-IsServer : IsServer typed_server
  typed_server-IsServer = with_current-IsServer s typed_slot v typed_slot-IsSlot

  pub parse_ethernet_frame :
      parse_ethernet p packet s ≡ parse_frame p packet (b0 * 256 + b1) typed_server
  unfolding parse_ethernet
  parse_ethernet_frame = rw (
    frame_type_lem p packet b0 b1 documented ty,
    found,
    put_current_lem s typed_slot (omega (arith, v.size)),
  )

  -- A frame of another type than a beacon is only given its type.
  pub parse_ethernet_other :
      b0 * 256 + b1 ≢ beacon_type → parse_ethernet p packet s ≡ ok (b0 * 256 + b1, typed_server)
  parse_ethernet_other other = parse_ethernet_frame ∙ unfold parse_frame in rw (ne→== _ _ other)

  pub typed_server-found : current typed_server ≡ ok typed_slot
  typed_server-found = current-with_current s typed_slot (omega (arith, v.size))

  -- A beacon whose key cannot be read.
  pub parse_ethernet_unkeyed :
      b0 * 256 + b1 ≡ beacon_type
      → parse_key p packet typed_server ≡ fault
      → parse_ethernet p packet s ≡ fault
  parse_ethernet_unkeyed beacon faults =
      parse_ethernet_frame ∙ unfold parse_frame in rw ((==_iff _ _).1 beacon, faults)

  module _ (len : ℕ) (beacon : b0 * 256 + b1 ≡ beacon_type) (h : HasShortSsid packet len) where
    abbrev pub beacon_key : Key
    beacon_key = packet_key documented.address_text packet len

    -- The globals after the search.
    abbrev pub searched_server : Server
    searched_server =
        searched (keys s) beacon_key (keyed_server p packet len typed_server typed_slot)

    pub keyed_lem :
        parse_key p packet typed_server ≡ ok (has_key (keys s) beacon_key, searched_server)
    keyed_lem = rw (keys-with_current s s.ntoa_buffer typed_slot) at (
        parse_key_lem p documented packet len h typed_server typed_server-IsServer room typed_slot
          typed_server-found typed_slot-IsSlot)

    -- The slot and the globals before the addresses are read.
    abbrev pub searched_slot : PacketInfo
    searched_slot = keyed_slot p packet len typed_server typed_slot

    pub searched_slot-IsSlot : IsSlot searched_slot
    searched_slot-IsSlot =
        keyed_slot-IsSlot p documented packet len h typed_server typed_server-IsServer room
          typed_slot typed_server-found typed_slot-IsSlot

    pub searched_server-IsServer : IsServer searched_server
    searched_server-IsServer = searched-IsServer (keys s) beacon_key _ (
        keyed_server-IsServer p documented packet len h typed_server typed_server-IsServer room
          typed_slot typed_server-found typed_slot-IsSlot)

    pub current-searched_server : current searched_server ≡ ok searched_slot
    unfolding current
    current-searched_server = current-with_current typed_server searched_slot (
        omega
          (arith, v.size, length-set s.cap_info.packet_info_array s.cur_packet_count typed_slot))
