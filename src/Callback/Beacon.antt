-- ===== src/Callback/Beacon.antt =====
-- The callback on a beacon with a short SSID, by cases.
use network_analyser_using_r.Base.{
  ℕ, ◌≤◌, ◌<◌, ◌≡◌, refl, ◌∙◌, sym, arith, Bytes, true, false, ltb, ltb→lt, Bool-cases, inl, inr,
}
use network_analyser_using_r.Outcome.{ok, ok-injective}
use network_analyser_using_r.State.{Platform, IsPlatform, Server, max_packet_info_count}
use network_analyser_using_r.State.Slots.{IsServer}
use network_analyser_using_r.Dedup.Spec.{Key, has_key, keys}
use network_analyser_using_r.Ethernet.{ether_shost, ether_dhost}
use network_analyser_using_r.Ethernet.Address.{mac_at}
use network_analyser_using_r.Ethernet.Key.{packet_key}
use network_analyser_using_r.Ethernet.Result.{
  IsShortBeacon, IsSearched, ReturnsDuplicate, parse_ethernet_duplicate, parse_ethernet_new,
}
use network_analyser_using_r.Callback.{packet_capture_callback}
use network_analyser_using_r.Callback.Branches.{entered, not_kept, IsKept, beacon-IsKept}

-- All slots are in use, the key was captured before, or the beacon is kept.
pub data BeaconChange (p : Platform) (packet : Bytes) (k : Key) (src dst : Bytes) (s s' : Server)
    : Type 0 where
  no_room :
      max_packet_info_count ≤ s.cur_packet_count → s' ≡ s → BeaconChange p packet k src dst s s'
  seen :
      s.cur_packet_count < max_packet_info_count
      → has_key (keys s) k ≡ true
      → IsSearched k s s'
      → BeaconChange p packet k src dst s s'
  unseen :
      s.cur_packet_count < max_packet_info_count
      → has_key (keys s) k ≡ false
      → IsKept p packet k src dst s s'
      → BeaconChange p packet k src dst s s'

module _ (p : Platform) (fuel : ℕ) (packet : Bytes) (s s' : Server) (documented : IsPlatform p)
    (len : ℕ) (b : IsShortBeacon packet len) (v : IsServer s)
    (h : packet_capture_callback p fuel packet s ≡ ok s') where
  abbrev k : Key
  k = packet_key documented.address_text packet len

  duplicate-IsSearched :
      s.cur_packet_count < max_packet_info_count → ReturnsDuplicate p packet k s → IsSearched k s s'
  duplicate-IsSearched room (s1, parsed, d) =
      let e : s1 ≡ s' = ok-injective (
        sym (
          entered p fuel packet s s v room 0 s1 parsed
          ∙ not_kept p fuel packet s s v room 0 s1 refl)
        ∙ h) in
      rw e at d

  stays : ltb s.cur_packet_count max_packet_info_count ≡ false → s' ≡ s
  unfolding packet_capture_callback
  stays full = ok-injective (sym h ∙ rw full refl)

  pub packet_capture_callback-BeaconChange :
      BeaconChange p packet k
        (documented.address_text (mac_at packet ether_shost))
        (documented.address_text (mac_at packet ether_dhost))
        s
        s'
  packet_capture_callback-BeaconChange =
      elim (Bool-cases (ltb s.cur_packet_count max_packet_info_count)) [
        | inr full ↦ no_room (ground arith) (stays full)
        | inl fits ↦
            let room = ltb→lt _ _ fits in
            elim (Bool-cases (has_key (keys s) k)) [
              | inl dup ↦ seen room dup (
                  duplicate-IsSearched room
                    (parse_ethernet_duplicate p documented packet len b s v room dup))
              | inr new ↦ unseen room new (
                  beacon-IsKept p fuel packet s s' v room documented.address_text k new
                    (parse_ethernet_new p documented packet len b s v room new) h)
            ]
      ]
