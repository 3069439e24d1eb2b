-- ===== src/Callback/Shown.antt =====
-- The members that the server prints for a beacon, from the packet alone.
use network_analyser_using_r.Base.{
  ℕ, ◌*◌, ◌≤◌, ◌<◌, ◌≡◌, refl, ap, ◌∙◌, sym, arith, true, ℤ, pos, Bytes, List, [], ◌∷◌, ◌++◌,
  Option, length, ltb, if◌then◌else◌, lt→ltb, le→ltb, length-map,
}
use network_analyser_using_r.State.{Platform, PacketInfo, Server, max_packet_info_count}
use network_analyser_using_r.State.Slots.{IsServer}
use network_analyser_using_r.Decimal.{show_int}
use network_analyser_using_r.Dedup.Spec.{Key, has_key, key_of, captured, keys}
use network_analyser_using_r.Dedup.Tally.{length-keys}
use network_analyser_using_r.Radiotap.{
  ieee80211_radiotap_rate, ieee80211_radiotap_channel, ieee80211_radiotap_dbm_antsignal,
  ieee80211_radiotap_antenna,
}
use network_analyser_using_r.Radiotap.Loop.{Field}
use network_analyser_using_r.Radiotap.Fields.{last_value, arg_byte}
use network_analyser_using_r.Radiotap.Header.{init_iterator}
use network_analyser_using_r.Radiotap.Walk.{
  walk, walk-Yields, Yields-unique, has_field, has_measurements, has_measurements_inv,
  last_value-has_field,
}
use network_analyser_using_r.Ethernet.{ether_shost, ether_dhost}
use network_analyser_using_r.Ethernet.Address.{mac_at}
use network_analyser_using_r.Json.{Members, char_value}
use network_analyser_using_r.Json.Text.{members_of}
use network_analyser_using_r.Callback.{bufsiz}
use network_analyser_using_r.Callback.Source.{IsFrom, IsKept-IsFrom}
use network_analyser_using_r.Callback.Beacon.{BeaconChange, no_room, seen, unseen}
use network_analyser_using_r.Callback.Tally.{IsReadableBeacon, beacon_key}
use mathlib.Core.List.{map, map-append}

module _ (p : Platform) (fuel : ℕ) where
  -- The fields of the radiotap header of a packet.
  abbrev pub fields_of : Bytes → List Field
  fields_of packet = walk p packet fuel (init_iterator p packet bufsiz)

  -- The header has all four measurements.
  abbrev pub IsMeasuredPacket : Bytes → Type 0
  IsMeasuredPacket packet = has_measurements (fields_of packet) ≡ true

  -- What is shown for a beacon: each measurement from its last field, and the texts.
  unfoldable pub packet_members : (Bytes → Bytes) → Bytes → Members
  packet_members address_text packet =
      let fs = fields_of packet in
      record {
        datarate =
            show_int
              (pos (last_value ieee80211_radiotap_rate (λ a. arg_byte packet a 0 * 500) fs 0));
        antenna =
            show_int (pos (last_value ieee80211_radiotap_antenna (λ a. arg_byte packet a 0) fs 0));
        channel = show_int (
            pos (
              last_value ieee80211_radiotap_channel
                (λ a. p.load_u16 (arg_byte packet a 0) (arg_byte packet a 1)) fs 0));
        power = show_int (
            char_value p.char_is_signed
              (last_value ieee80211_radiotap_dbm_antsignal (λ a. arg_byte packet a 0) fs 0));
        ssid = (beacon_key address_text packet).ssid;
        src = address_text (mac_at packet ether_shost);
        dst = address_text (mac_at packet ether_dhost);
        bssid = (beacon_key address_text packet).bssid;
      }

-- The SSID and the BSSID of members.
abbrev pub members_key : Members → Key
members_key m = record { ssid = m.ssid; bssid = m.bssid }

module _ (p : Platform) (fuel : ℕ) (address_text : Bytes → Bytes) where
  -- A packet is shown where there is room, and its key is not yet shown.
  unfoldable pub show_packet : List Members → Bytes → List Members
  show_packet ms packet =
      if ltb (length ms) max_packet_info_count
      then (if has_key (map members_key ms) (beacon_key address_text packet)
          then ms
          else ms ++ (packet_members p fuel address_text packet ∷ []))
      else ms

  unfoldable pub show_packets : List Members → List Bytes → List Members
  show_packets ms [] = ms
  show_packets ms (packet ∷ packets) = show_packets (show_packet ms packet) packets

  IsFrom-members :
      (packet : Bytes) (old q : PacketInfo)
      → IsReadableBeacon p fuel packet
      → IsMeasuredPacket p fuel packet
      → IsFrom p address_text packet old q
      → members_of p q ≡ packet_members p fuel address_text packet
  unfolding members_of packet_members key_of
  IsFrom-members packet old q b m f =
      let w = f.header in
      let same : w.fields ≡ fields_of p fuel packet =
        Yields-unique p packet w.fields b.header.fields (init_iterator p packet bufsiz) w.yields
          b.header.yields
        ∙ sym (
            walk-Yields p packet b.header.fields fuel (init_iterator p packet bufsiz)
              b.header.yields b.header.enough) in
      let (rated, antenna, powered, channel) = has_measurements_inv (fields_of p fuel packet) m in
      let only =
        λ (i : ℤ) (read : Option ℕ → ℕ) (old : ℕ)
            (h : has_field i (fields_of p fuel packet) ≡ true).
          ap (λ gs. last_value i read gs old) same
          ∙ last_value-has_field i read (fields_of p fuel packet) old 0 h in
      let e1 = w.measured.rate ∙ only _ _ _ rated in
      let e2 = w.measured.antenna ∙ only _ _ _ antenna in
      let e3 = w.measured.power ∙ only _ _ _ powered in
      let e4 = w.measured.channel ∙ only _ _ _ channel in
      λ i. record {
        datarate = show_int (pos (e1 i));
        antenna = show_int (pos (e2 i));
        channel = show_int (pos (e4 i));
        power = show_int (char_value p.char_is_signed (e3 i));
        ssid = (f.key i).ssid;
        src = f.src i;
        dst = f.dst i;
        bssid = (f.key i).bssid;
      }

  members_keys : (qs : List PacketInfo) → map members_key (map (members_of p) qs) ≡ map key_of qs
  unfolding members_of key_of
  members_keys [] = refl
  members_keys (q ∷ qs) = ap (λ ks. key_of q ∷ ks) (members_keys qs)

  -- The members that the server would print.
  abbrev pub shown_members : Server → List Members
  shown_members s = map (members_of p) (captured s)

  shown_members-has_key :
      (s : Server) (k : Key) → has_key (map members_key (shown_members s)) k ≡ has_key (keys s) k
  unfolding keys
  shown_members-has_key s k = ap (λ ks. has_key ks k) (members_keys (captured s))

  length-shown_members : (s : Server) → IsServer s → length (shown_members s) ≡ s.cur_packet_count
  unfolding keys
  length-shown_members s v = omega (
    arith,
    length-keys s v,
    length-map (captured s) key_of,
    length-map (captured s) (members_of p),
  )

  pub BeaconChange-show_packet :
      (packet : Bytes) (s s' : Server)
      → IsReadableBeacon p fuel packet
      → IsMeasuredPacket p fuel packet
      → IsServer s
      → BeaconChange p packet
          (beacon_key address_text packet)
          (address_text (mac_at packet ether_shost))
          (address_text (mac_at packet ether_dhost))
          s
          s'
      → shown_members s' ≡ show_packet (shown_members s) packet
  unfolding show_packet
  BeaconChange-show_packet packet s s' b m v (no_room full e) =
      let beyond : max_packet_info_count ≤ length (shown_members s) =
        omega (arith, length-shown_members s v, full) in
      ap shown_members e ∙ rw (le→ltb _ _ beyond) refl
  BeaconChange-show_packet packet s s' b m v (seen room dup d) =
      let below : length (shown_members s) < max_packet_info_count =
        omega (arith, length-shown_members s v, room) in
      rw (lt→ltb _ _ below, shown_members-has_key s (beacon_key address_text packet), dup)
        (ap (map (members_of p)) d.below)
  BeaconChange-show_packet packet s s' b m v (unseen room new kept) =
      let below : length (shown_members s) < max_packet_info_count =
        omega (arith, length-shown_members s v, room) in
      rw (lt→ltb _ _ below, shown_members-has_key s (beacon_key address_text packet), new)
        (ap (map (members_of p)) kept.appended
          ∙ map-append (members_of p) (captured s) (kept.q ∷ [])
          ∙ ap (λ x. shown_members s ++ (x ∷ []))
              (IsFrom-members packet kept.old kept.q b m
                (IsKept-IsFrom p fuel address_text packet s s' b kept)))
