-- ===== src/Callback/Packet.antt =====
-- What the callback does, by what the packet holds.
use network_analyser_using_r.Base.{
  ℕ, ◌+◌, ◌*◌, ◌≤◌, ◌<◌, ◌≡◌, ◌≢◌, refl, ◌∙◌, sym, arith, Bytes, [], ◌∷◌, ◌++◌, false, ltb, ltb→lt,
  ◌==◌, Bool-cases, inl, inr, take-set,
}
use network_analyser_using_r.Outcome.{ok, ok-injective}
use network_analyser_using_r.State.{
  Platform, IsPlatform, PacketInfo, Server, current, max_packet_info_count,
}
use network_analyser_using_r.State.Slots.{IsServer, current_lem, with_current}
use network_analyser_using_r.Dedup.Spec.{captured}
use network_analyser_using_r.Ethernet.{ether_shost, ether_dhost, beacon_type}
use network_analyser_using_r.Ethernet.Address.{mac_at}
use network_analyser_using_r.Ethernet.Key.{packet_key}
use network_analyser_using_r.Ethernet.Beacon.{
  HasType, parse_ethernet_other, typed_server, typed_server-found,
}
use network_analyser_using_r.Ethernet.Result.{IsShortBeacon}
use network_analyser_using_r.Ethernet.Total.{IsPacket}
use network_analyser_using_r.Callback.{packet_capture_callback, count_packet}
use network_analyser_using_r.Callback.Step.{captured-count_packet}
use network_analyser_using_r.Callback.Branches.{entered, not_kept, kept_plain}
use network_analyser_using_r.Callback.Beacon.{BeaconChange, packet_capture_callback-BeaconChange}
use network_analyser_using_r.Callback.Returns.{
  IsReadable, other_type, short_beacon, packet_capture_callback-returns,
}

-- A frame of type `t`, not a beacon: all slots are in use, its type is 0, or it is appended. The
-- current slot gets the type in both of the last cases, and nothing else of the globals changes.
pub data OtherChange (t : ℕ) (s s' : Server) : Type 0 where
  no_room : max_packet_info_count ≤ s.cur_packet_count → s' ≡ s → OtherChange t s s'
  ignored :
      s.cur_packet_count < max_packet_info_count
      → t ≡ 0
      → (q : PacketInfo) → current s ≡ ok q
      → s' ≡ with_current s (record q { ethernet_type = t })
      → captured s' ≡ captured s
      → OtherChange t s s'
  appended :
      s.cur_packet_count < max_packet_info_count
      → t ≢ 0
      → (q : PacketInfo) → current s ≡ ok q
      → s' ≡ count_packet (with_current s (record q { ethernet_type = t }))
      → captured s' ≡ captured s ++ (record q { ethernet_type = t } ∷ [])
      → OtherChange t s s'

-- What a packet does to the globals: a beacon by its key, another frame by its type.
pub data PacketChange (p : Platform) (address_text : Bytes → Bytes) (packet : Bytes) (s s' : Server)
    : Type 0 where
  of_beacon :
      (len : ℕ)
      → IsShortBeacon packet len
      → BeaconChange p packet
          (packet_key address_text packet len)
          (address_text (mac_at packet ether_shost))
          (address_text (mac_at packet ether_dhost))
          s
          s'
      → PacketChange p address_text packet s s'
  of_other :
      (b0 b1 : ℕ)
      → HasType packet b0 b1
      → b0 * 256 + b1 ≢ beacon_type
      → OtherChange (b0 * 256 + b1) s s'
      → PacketChange p address_text packet s s'

module _ (p : Platform) (fuel : ℕ) (packet : Bytes) (s s' : Server) (documented : IsPlatform p)
    (v : IsServer s) (h : packet_capture_callback p fuel packet s ≡ ok s') where
  stays : ltb s.cur_packet_count max_packet_info_count ≡ false → s' ≡ s
  unfolding packet_capture_callback
  stays full = ok-injective (sym h ∙ rw full refl)

  module _ (b0 b1 : ℕ) (ty : HasType packet b0 b1) (differs : b0 * 256 + b1 ≢ beacon_type) where
    roomy-OtherChange :
        s.cur_packet_count < max_packet_info_count → OtherChange (b0 * 256 + b1) s s'
    roomy-OtherChange room =
        let (q, found, w) = current_lem s v room in
        let t = b0 * 256 + b1 in
        let s1 = typed_server p documented packet b0 b1 ty s v room q found w in
        let q1 = record q { ethernet_type = t } in
        let parsed = parse_ethernet_other p documented packet b0 b1 ty s v room q found w differs in
        let e = sym (entered p fuel packet s s' v room t s1 parsed) ∙ h in
        elim (Bool-cases (t == 0)) [
          | inl zero_type ↦
              let same : s1 ≡ s' =
                ok-injective (sym (not_kept p fuel packet s s' v room t s1 zero_type) ∙ e) in
              ignored room (ground arith) q found (sym same)
                (rw (← same) (take-set s.cur_packet_count _ s.cur_packet_count q1 (omega arith)))
          | inr nonzero ↦
              let counted : count_packet s1 ≡ s' = ok-injective (
                sym (
                  kept_plain p fuel packet s s' v room t s1 q1 nonzero
                    (typed_server-found p documented packet b0 b1 ty s v room q found w) differs)
                ∙ e) in
              appended room (ground arith) q found (sym counted)
                (rw (← counted) (captured-count_packet s q1 (omega (arith, v.size))))
        ]

    packet_capture_callback-OtherChange : OtherChange (b0 * 256 + b1) s s'
    packet_capture_callback-OtherChange =
        elim (Bool-cases (ltb s.cur_packet_count max_packet_info_count)) [
          | inl room ↦ roomy-OtherChange (ltb→lt _ _ room)
          | inr full ↦ no_room (ground arith) (stays full)
        ]

  readable-PacketChange :
      IsReadable p fuel packet → PacketChange p documented.address_text packet s s'
  readable-PacketChange (other_type b0 b1 ty differs) =
      of_other b0 b1 ty differs (packet_capture_callback-OtherChange b0 b1 ty differs)
  readable-PacketChange (short_beacon len b header) =
      of_beacon len b (packet_capture_callback-BeaconChange p fuel packet s s' documented len b v h)

-- On a packet of bytes that is readable within the fuel, with a machine as documented and globals
-- that keep the invariant, the callback returns, keeps the invariant, and does what the packet
-- says. With 50 packets held, it changes nothing. A beacon with a key captured before is counted
-- as a duplicate, and the captured packets stay. A beacon with a new key is appended, with its
-- key, its type, the texts of its addresses, and the measurements of its radiotap header, or
-- those of the current slot before where that has no field; the duplicates stay. For both, the
-- statistic of other BSSIDs grows by the packets with its SSID and another BSSID, before the
-- first with its key. A frame of another type writes its type into the current slot; it is
-- appended where the type is not 0, and nothing else changes.
pub packet_capture_callback-PacketChange :
    (p : Platform) (fuel : ℕ) (packet : Bytes) (s : Server)
    → (documented : IsPlatform p) → IsPacket packet
    → IsReadable p fuel packet
    → IsServer s
    → (s' : Server) × (packet_capture_callback p fuel packet s ≡ ok s')
      × IsServer s'
      × PacketChange p documented.address_text packet s s'
packet_capture_callback-PacketChange p fuel packet s documented bytes r v =
    let (s', e, step) = packet_capture_callback-returns p fuel packet s documented bytes r v in
    (s', e, step.valid, readable-PacketChange p fuel packet s s' documented v e r)
