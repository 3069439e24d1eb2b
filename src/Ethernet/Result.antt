-- ===== src/Ethernet/Result.antt =====
-- What `parse_ethernet` promises on a beacon whose SSID fits.
use network_analyser_using_r.Base.{
  ℕ, ◌+◌, ◌≤◌, ◌<◌, ◌≡◌, refl, ap, ◌∙◌, arith, Bytes, some, true, false, length, take, drop,
  take-set, sym, ◌≢◌, get_elem?, get_elem?-set_ne, if◌then◌else◌,
}
use network_analyser_using_r.Outcome.{ok}
use network_analyser_using_r.CString.{c_string}
use network_analyser_using_r.CString.Text.{c_string-append_nul}
use network_analyser_using_r.State.{
  Platform, IsPlatform, PacketInfo, Server, current, max_packet_info_count,
}
use network_analyser_using_r.State.Slots.{
  IsSlot, IsServer, current_lem, with_current-IsServer, with_ntoa-IsServer, current-with_current,
}
use network_analyser_using_r.Dedup.Spec.{Key, has_key, diff_before, keys, captured}
use network_analyser_using_r.Dedup.Scan.{HasKey}
use network_analyser_using_r.Radiotap.Fields.{SameRadio}
use network_analyser_using_r.Ethernet.{
  parse_ethernet, parse_frame, finish_beacon, beacon_type, ssid_start, ether_dhost, ether_shost,
  bssid_offset,
}
use network_analyser_using_r.Ethernet.Address.{mac_at, address_cells-text}
use network_analyser_using_r.Ethernet.Key.{HasShortSsid, packet_key}
use network_analyser_using_r.Ethernet.Beacon.{
  HasType, parse_ethernet_frame, keyed_lem, searched_server, searched_slot, searched_slot-IsSlot,
  searched_server-IsServer, current-searched_server, addressed_server, addressed_slot,
  addressed_slot-IsSlot, parse_addresses_lem,
}

-- A beacon, with an SSID of `len` bytes that fits.
pub record IsShortBeacon (packet : Bytes) (len : ℕ) : Type 0 where
  pub frame : HasType packet 0x80 0
  pub ssid : HasShortSsid packet len

-- The globals after a search for `k`: the slots below the current one and the counts of packets
-- are as before, and the two statistics follow the search. No other slot than the current one
-- changes, and that one keeps its radio measurements.
pub record IsSearched (k : Key) (s s' : Server) : Type 0 where
  pub valid : IsServer s'
  pub count : s'.cur_packet_count ≡ s.cur_packet_count
  pub below : captured s' ≡ captured s
  pub dups :
      s'.dup_packets_discarded ≡ s.dup_packets_discarded + (if has_key (keys s) k then 1 else 0)
  pub diffs :
      s'.packets_same_ssid_diff_bssid ≡ s.packets_same_ssid_diff_bssid + diff_before (keys s) k
  pub output : s'.output_buff ≡ s.output_buff
  pub others :
      (i : ℕ)
      → i ≢ s.cur_packet_count
      → get_elem? s'.cap_info.packet_info_array i ≡ get_elem? s.cap_info.packet_info_array i
  pub radio : (q q' : PacketInfo) × (current s ≡ ok q) × (current s' ≡ ok q') × SameRadio q q'

-- The slot of a beacon: its type and texts from the packet, and the radio measurements of `q`.
pub record IsBeaconSlot (address_text : Bytes → Bytes) (packet : Bytes) (k : Key)
    (q q' : PacketInfo) : Type 0 where
  pub type : q'.ethernet_type ≡ beacon_type
  pub key : HasKey q' k
  pub src : c_string q'.ethernet_src_addr ≡ some (address_text (mac_at packet ether_shost))
  pub dst : c_string q'.ethernet_dst_addr ≡ some (address_text (mac_at packet ether_dhost))
  pub rate : q'.data_rate_kbps ≡ q.data_rate_kbps
  pub antenna : q'.antenna ≡ q.antenna
  pub channel : q'.channel ≡ q.channel
  pub power : q'.signal_pwr_dbm_at_antenna ≡ q.signal_pwr_dbm_at_antenna

abbrev pub ReturnsDuplicate : Platform → Bytes → Key → Server → Type 0
ReturnsDuplicate p packet k s =
    (s' : Server) × (parse_ethernet p packet s ≡ ok (0, s')) × IsSearched k s s'

abbrev pub ReturnsBeacon : Platform → (Bytes → Bytes) → Bytes → Key → Server → Type 0
ReturnsBeacon p address_text packet k s =
    (s' : Server) × (q q' : PacketInfo) × (parse_ethernet p packet s ≡ ok (beacon_type, s'))
    × IsSearched k s s'
    × (current s ≡ ok q)
    × (current s' ≡ ok q')
    × IsBeaconSlot address_text packet k q q'

other_way : {i j : ℕ} → i ≢ j → j ≢ i
other_way ne e = ne (sym e)

module _ (p : Platform) (documented : IsPlatform p) (packet : Bytes) (len : ℕ)
    (b : IsShortBeacon packet len) (s : Server) (v : IsServer s)
    (room : s.cur_packet_count < max_packet_info_count) where
  abbrev k : Key
  k = packet_key documented.address_text packet len

  module _ (q : PacketInfo) (found : current s ≡ ok q) (w : IsSlot q) where
    abbrev s1 : Server
    s1 = searched_server p documented packet 0x80 0 b.frame s v room q found w len refl b.ssid

    s1-IsSearched : IsSearched k s s1
    s1-IsSearched = record {
      valid =
          searched_server-IsServer p documented packet 0x80 0 b.frame s v room q found w len refl
            b.ssid;
      count = refl;
      below =
          take-set s.cur_packet_count _ s.cur_packet_count _ (omega arith)
          ∙ take-set s.cur_packet_count _ s.cur_packet_count _ (omega arith);
      dups = refl;
      diffs = refl;
      output = refl;
      others = λ i ne.
          get_elem?-set_ne _ s.cur_packet_count i _ (other_way ne)
          ∙ get_elem?-set_ne _ s.cur_packet_count i _ (other_way ne);
      radio = (
        q,
        searched_slot p documented packet 0x80 0 b.frame s v room q found w len refl b.ssid,
        found,
        current-searched_server p documented packet 0x80 0 b.frame s v room q found w len refl
            b.ssid,
        record { rate = refl; antenna = refl; channel = refl; power = refl },
      );
    }

    ends : parse_ethernet p packet s ≡ finish_beacon p packet beacon_type (has_key (keys s) k) s1
    unfolding parse_frame
    ends =
        parse_ethernet_frame p documented packet 0x80 0 b.frame s v room q found w
        ∙ rw (keyed_lem p documented packet 0x80 0 b.frame s v room q found w len refl b.ssid) refl

    duplicate : has_key (keys s) k ≡ true → ReturnsDuplicate p packet k s
    duplicate dup = (s1, ends ∙ unfold finish_beacon in rw dup, s1-IsSearched)

    abbrev q1 : PacketInfo
    q1 = searched_slot p documented packet 0x80 0 b.frame s v room q found w len refl b.ssid

    q1-found : current s1 ≡ ok q1
    q1-found =
        current-searched_server p documented packet 0x80 0 b.frame s v room q found w len refl
          b.ssid

    q1-IsSlot : IsSlot q1
    q1-IsSlot =
        searched_slot-IsSlot p documented packet 0x80 0 b.frame s v room q found w len refl b.ssid

    complete : ssid_start ≤ length packet
    complete = omega (arith, b.ssid.complete)

    abbrev s2 : Server
    s2 =
        addressed_server p documented packet complete s1 s1-IsSearched.valid room q1 q1-found
          q1-IsSlot

    abbrev q2 : PacketInfo
    q2 =
        addressed_slot p documented packet complete s1 s1-IsSearched.valid room q1 q1-found
          q1-IsSlot

    q2-found : current s2 ≡ ok q2
    unfolding current
    q2-found = current-with_current s1 q2 (omega (arith, s1-IsSearched.valid.size))

    s2-IsSearched : IsSearched k s s2
    s2-IsSearched = record {
      valid = with_current-IsServer _ q2 (with_ntoa-IsServer s1 _ s1-IsSearched.valid) (
          addressed_slot-IsSlot p documented packet complete s1 s1-IsSearched.valid room q1 q1-found
            q1-IsSlot);
      count = refl;
      below =
          take-set s.cur_packet_count _ s.cur_packet_count q2 (omega arith) ∙ s1-IsSearched.below;
      dups = refl;
      diffs = refl;
      output = refl;
      others = λ i ne.
          get_elem?-set_ne _ s.cur_packet_count i q2 (other_way ne) ∙ s1-IsSearched.others i ne;
      radio = (
        q,
        q2,
        found,
        q2-found,
        record { rate = refl; antenna = refl; channel = refl; power = refl },
      );
    }

    q2-IsBeaconSlot : IsBeaconSlot documented.address_text packet k q q2
    q2-IsBeaconSlot = record {
      type = refl;
      key = record {
        ssid =
            unfold packet_key in
            c_string-append_nul (take len (drop ssid_start packet)) (drop (len + 1) q.ssid);
        bssid =
            unfold packet_key in
            address_cells-text p documented packet s.ntoa_buffer q.ethernet_bss_id bssid_offset
              (omega (arith, complete)) w.bssid.size;
      };
      src =
          address_cells-text p documented packet _ q.ethernet_src_addr ether_shost
            (omega (arith, complete)) w.src.size;
      dst =
          address_cells-text p documented packet _ q.ethernet_dst_addr ether_dhost
            (omega (arith, complete)) w.dst.size;
      rate = refl;
      antenna = refl;
      channel = refl;
      power = refl;
    }

    finished : finish_beacon p packet beacon_type false s1 ≡ ok (beacon_type, s2)
    unfolding finish_beacon
    finished = rw (
        parse_addresses_lem p documented packet complete s1 s1-IsSearched.valid room q1 q1-found
          q1-IsSlot)

    kept : has_key (keys s) k ≡ false → ReturnsBeacon p documented.address_text packet k s
    kept new = (
      s2,
      q,
      q2,
      ends ∙ ap (λ dup. finish_beacon p packet beacon_type dup s1) new ∙ finished,
      s2-IsSearched,
      found,
      q2-found,
      q2-IsBeaconSlot,
    )

  -- With a machine as documented, globals that keep the invariant and fewer than 50 packets held,
  -- a beacon whose SSID has less than 15 bytes and whose key was captured before returns 0. One
  -- duplicate is counted, the packets before it with its SSID only are added to their statistic,
  -- and the invariant, the captured packets and the output stay.
  pub parse_ethernet_duplicate : has_key (keys s) k ≡ true → ReturnsDuplicate p packet k s
  parse_ethernet_duplicate dup = let (q, found, w) = current_lem s v room in duplicate q found w dup

  -- With a machine as documented, globals that keep the invariant and fewer than 50 packets held,
  -- a beacon whose SSID has less than 15 bytes and whose key is new returns its type. The current
  -- slot then holds the type, the key and the texts of both addresses, and the radio measurements
  -- that it held before; the invariant, the slots below and the output stay, and the count of
  -- packets with the same SSID and another BSSID grows by those captured.
  pub parse_ethernet_new :
      has_key (keys s) k ≡ false → ReturnsBeacon p documented.address_text packet k s
  parse_ethernet_new new = let (q, found, w) = current_lem s v room in kept q found w new
