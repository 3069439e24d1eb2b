-- ===== src/Ethernet/Ranges.antt =====
-- `parse_ethernet` keeps the radio measurements in range, whatever the packet.
use network_analyser_using_r.Base.{
  ℕ, zero, suc, ◌+◌, ◌≡◌, refl, ap, ◌∙◌, sym, Bool, true, false, Bytes, ◌==◌, ◌&&◌, not,
  if◌then◌else◌, Bool-cases, inl, inr,
}
use network_analyser_using_r.Outcome.{ok, bind_inv, ok-injective, load}
use network_analyser_using_r.State.{Platform, Server, current, put_current}
use network_analyser_using_r.State.Ranges.{IsRanged, current-HasRanges, put_current-IsRanged}
use network_analyser_using_r.Dedup.{
  compare_keys, scan, count_diff, count_dup, pkt_with_ssid_bssid_exists,
}
use network_analyser_using_r.Ethernet.{
  read_ssid, copy_address, parse_key, parse_addresses, frame_type, finish_beacon, parse_frame,
  parse_ethernet, beacon_type, bssid_offset, ether_dhost, ether_shost,
}

-- The search changes statistics only.
scan-same :
    (left count : ℕ) (s : Server) (new_ssid new_bssid : Bytes) (r : Bool × Server)
    → scan left count s new_ssid new_bssid ≡ ok r
    → r.1.cap_info ≡ s.cap_info
unfolding scan
scan-same zero count s new_ssid new_bssid r h =
    ap (λ (x : Bool × Server). x.1.cap_info) (sym (ok-injective h))
scan-same (suc left) count s new_ssid new_bssid r h =
    let (q, found, h1) = bind_inv (load s.cap_info.packet_info_array count) _ h in
    let (b, compared, h2) = bind_inv (compare_keys q new_ssid new_bssid) _ h1 in
    ended (count_diff (b.0 && not b.1) s) refl (scan-same left (count + 1)) (b.0 && b.1) h2
  where
    ended :
        (s' : Server)
        → s'.cap_info ≡ s.cap_info
        → ((s : Server) (new_ssid new_bssid : Bytes) (r : Bool × Server)
            → scan left (count + 1) s new_ssid new_bssid ≡ ok r
            → r.1.cap_info ≡ s.cap_info)
        → (dup : Bool)
        → (if dup then ok (true, count_dup s') else scan left (count + 1) s' new_ssid new_bssid)
          ≡ ok r
        → r.1.cap_info ≡ s.cap_info
    ended s' same ih true e = ap (λ (x : Bool × Server). x.1.cap_info) (sym (ok-injective e)) ∙ same
    ended s' same ih false e = ih s' new_ssid new_bssid r e ∙ same

module _ (p : Platform) (packet : Bytes) where
  parse_key-IsRanged :
      (s : Server) (r : Bool × Server) → IsRanged s → parse_key p packet s ≡ ok r → IsRanged r.1
  unfolding parse_key pkt_with_ssid_bssid_exists
  parse_key-IsRanged s r v h =
      let (q, found, h1) = bind_inv (current s) _ h in
      let (ssids, read, h2) = bind_inv (read_ssid packet p.ssid_stack q.ssid) _ h1 in
      let (addr, copied, h3) =
        bind_inv (copy_address p packet bssid_offset s.ntoa_buffer q.ethernet_bss_id) _ h2 in
      let (s', put, h4) =
        bind_inv
          (put_current (record s { ntoa_buffer = addr.0 })
            (record q { ssid = ssids.1; ethernet_bss_id = addr.1 }))
          _ h3 in
      let w = current-HasRanges s q v found in
      let v' =
        put_current-IsRanged (record s { ntoa_buffer = addr.0 }) s' _ v
          (record { rate = w.rate; antenna = w.antenna; channel = w.channel; power = w.power })
          put in
      rw (scan-same s'.cur_packet_count 0 s' ssids.0 addr.1 r h4) v'

  parse_addresses-IsRanged :
      (s s' : Server) → IsRanged s → parse_addresses p packet s ≡ ok s' → IsRanged s'
  unfolding parse_addresses
  parse_addresses-IsRanged s s' v h =
      let (q, found, h1) = bind_inv (current s) _ h in
      let (dst, copied, h2) =
        bind_inv (copy_address p packet ether_dhost s.ntoa_buffer q.ethernet_dst_addr) _ h1 in
      let (src, copied', h3) =
        bind_inv (copy_address p packet ether_shost dst.0 q.ethernet_src_addr) _ h2 in
      let w = current-HasRanges s q v found in
      put_current-IsRanged (record s { ntoa_buffer = src.0 }) s' _ v
        (record { rate = w.rate; antenna = w.antenna; channel = w.channel; power = w.power }) h3

  finish_beacon-IsRanged :
      (t : ℕ) (b : Bool) (s : Server) (r : ℕ × Server)
      → IsRanged s
      → finish_beacon p packet t b s ≡ ok r
      → IsRanged r.1
  unfolding finish_beacon
  finish_beacon-IsRanged t true s r v h = rw (← ok-injective h) v
  finish_beacon-IsRanged t false s r v h =
      let (s', e, h1) = bind_inv (parse_addresses p packet s) _ h in
      rw (← ok-injective h1) (parse_addresses-IsRanged s s' v e)

  parse_frame-IsRanged :
      (t : ℕ) (s : Server) (r : ℕ × Server)
      → IsRanged s
      → parse_frame p packet t s ≡ ok r
      → IsRanged r.1
  unfolding parse_frame
  parse_frame-IsRanged t s r v h = elim (Bool-cases (t == beacon_type)) [
    | inl beacon ↦
        let (k, e, h1) = bind_inv (parse_key p packet s) _ (rw beacon at h) in
        finish_beacon-IsRanged t k.0 k.1 r (parse_key-IsRanged s k v e) h1
    | inr other ↦ rw (← ok-injective (rw other at h)) v
  ]

  pub parse_ethernet-IsRanged :
      (s : Server) (r : ℕ × Server) → IsRanged s → parse_ethernet p packet s ≡ ok r → IsRanged r.1
  unfolding parse_ethernet
  parse_ethernet-IsRanged s r v h =
      let (t, typed, h1) = bind_inv (frame_type p packet) _ h in
      let (q, found, h2) = bind_inv (current s) _ h1 in
      let (s', put, h3) = bind_inv (put_current s (record q { ethernet_type = t })) _ h2 in
      let w = current-HasRanges s q v found in
      parse_frame-IsRanged t s' r
        (put_current-IsRanged s s' _ v
          (record { rate = w.rate; antenna = w.antenna; channel = w.channel; power = w.power }) put)
        h3
