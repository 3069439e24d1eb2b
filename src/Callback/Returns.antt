-- ===== src/Callback/Returns.antt =====
-- Packets on which the callback returns, whatever the globals hold.
use network_analyser_using_r.Base.{
  ℕ, ◌+◌, ◌*◌, ◌<◌, ◌≡◌, ◌≢◌, refl, ap, ◌∙◌, arith, Bytes, List, [], ◌∷◌, some, Bool, true, false,
  length, All, get_elem?-some, pos, equal_int, if◌then◌else◌, ◌==◌, ltb, ltb→lt, Bool-cases, inl,
  inr,
}
use network_analyser_using_r.Outcome.{Outcome, ok, ◌>>=◌}
use network_analyser_using_r.State.{Platform, IsPlatform, PacketInfo, Server, max_packet_info_count}
use network_analyser_using_r.State.Slots.{IsServer, current_lem, with_current}
use network_analyser_using_r.Dedup.Spec.{Key, has_key, keys}
use network_analyser_using_r.Ethernet.{beacon_type}
use network_analyser_using_r.Ethernet.Key.{packet_key}
use network_analyser_using_r.Ethernet.Beacon.{
  HasType, parse_ethernet_other, typed_server, typed_server-found,
}
use network_analyser_using_r.Ethernet.Result.{
  IsShortBeacon, ReturnsBeacon, parse_ethernet_duplicate, parse_ethernet_new,
}
use network_analyser_using_r.Ethernet.Total.{IsPacket}
use network_analyser_using_r.Callback.{packet_capture_callback, count_packet, bufsiz}
use network_analyser_using_r.Callback.Step.{Step}
use network_analyser_using_r.Callback.Branches.{entered, not_kept, headed, kept_plain}
use network_analyser_using_r.Callback.Correct.{packet_capture_callback-Step}
use network_analyser_using_r.Radiotap.{
  minus_one, store_field, ieee80211_radiotap_rate, ieee80211_radiotap_antenna,
  ieee80211_radiotap_dbm_antsignal, ieee80211_radiotap_channel,
}
use network_analyser_using_r.Radiotap.Loop.{Field, Yields, store_fields}
use network_analyser_using_r.Radiotap.Header.{init_result, init_iterator, parse_radio_tap_ends}

-- The argument of the field is two bytes of the packet.
abbrev pub IsInside : Bytes → Field → Type 0
IsInside packet f = (a : ℕ) × (f.1 ≡ some a) × (a + 1 < length packet)

-- The library accepts the radiotap header, and its fields end within the fuel.
pub record IsHeader (p : Platform) (fuel : ℕ) (packet : Bytes) : Type 0 where
  pub fields : List Field
  pub started : equal_int (init_result p packet bufsiz) minus_one ≡ false
  pub yields : Yields p packet (init_iterator p packet bufsiz) fields
  pub inside : All (IsInside packet) fields
  pub enough : length fields < fuel

-- A frame of another type than a beacon, or a beacon with a short SSID and such a header.
pub data IsReadable (p : Platform) (fuel : ℕ) (packet : Bytes) : Type 0 where
  other_type :
      (b0 b1 : ℕ) → HasType packet b0 b1 → b0 * 256 + b1 ≢ beacon_type → IsReadable p fuel packet
  short_beacon :
      (len : ℕ) → IsShortBeacon packet len → IsHeader p fuel packet → IsReadable p fuel packet

if-ok {ℓ} :
    {A : Type ℓ} (b : Bool) {m k : Outcome A}
    → (a : A) × (m ≡ ok a)
    → (a : A) × (k ≡ ok a)
    → (a : A) × ((if b then m else k) ≡ ok a)
if-ok true h g = h
if-ok false h g = g

store_field-ok :
    (p : Platform) (packet : Bytes) (f : Field) (q : PacketInfo)
    → IsInside packet f
    → (q' : PacketInfo) × (store_field p packet f.0 f.1 q ≡ ok q')
unfolding store_field
store_field-ok p packet (i, a) q (o, e, lt) =
    let (b, eb) = get_elem?-some packet (o + 0) (omega arith) in
    let (c, ec) = get_elem?-some packet (o + 1) lt in
    rw (e, eb, ec)
      (if-ok (equal_int i ieee80211_radiotap_rate) (record q { data_rate_kbps = b * 500 }, refl)
        (if-ok (equal_int i ieee80211_radiotap_antenna) (record q { antenna = b }, refl)
          (if-ok (equal_int i ieee80211_radiotap_dbm_antsignal)
            (record q { signal_pwr_dbm_at_antenna = b }, refl)
            (if-ok (equal_int i ieee80211_radiotap_channel)
              (record q { channel = p.load_u16 b c }, refl) (q, refl)))))

store_fields-ok :
    (p : Platform) (packet : Bytes) (fs : List Field) (q : PacketInfo)
    → All (IsInside packet) fs
    → (q' : PacketInfo) × (store_fields p packet fs q ≡ ok q')
unfolding store_fields
store_fields-ok p packet [] q h = (q, refl)
store_fields-ok p packet (f ∷ fs) q h =
    let (q1, e1) = store_field-ok p packet f q h.0 in
    let (q2, e2) = store_fields-ok p packet fs q1 h.1 in (q2, rw e1 e2)

module _ (p : Platform) (fuel : ℕ) (packet : Bytes) (s : Server) (v : IsServer s)
    (room : s.cur_packet_count < max_packet_info_count) where
  beacon-returns :
      (address_text : Bytes → Bytes) (k : Key)
      → ReturnsBeacon p address_text packet k s
      → IsHeader p fuel packet
      → (s' : Server) × (packet_capture_callback p fuel packet s ≡ ok s')
  beacon-returns address_text k (s1, q, q1, parsed, d, found, found1, b) h =
      let inside : s1.cur_packet_count < length s1.cap_info.packet_info_array =
        omega (arith, d.count, d.valid.size) in
      let (q2, stored) = store_fields-ok p packet h.fields q1 h.inside in
      (
        _,
        entered p fuel packet s s v room beacon_type s1 parsed
            ∙ headed p fuel packet s s v room s1 q1 found1 b.type
            ∙ ap (λ m. m >>= λ r. ok (count_packet r.1))
                (parse_radio_tap_ends p packet h.fields fuel bufsiz s1 q1 h.started h.yields
                    h.enough found1 inside
                  ∙ ap (λ m. m >>= λ q'. ok (pos 0, with_current s1 q')) stored),
      )

  short-returns :
      (len : ℕ)
      → IsPlatform p
      → IsShortBeacon packet len
      → IsHeader p fuel packet
      → (s' : Server) × (packet_capture_callback p fuel packet s ≡ ok s')
  short-returns len documented b h =
      let k = packet_key documented.address_text packet len in
      elim (Bool-cases (has_key (keys s) k)) [
        | inl dup ↦
            let (s1, parsed, d) = parse_ethernet_duplicate p documented packet len b s v room dup in
            (
              s1,
              entered p fuel packet s s v room 0 s1 parsed
                  ∙ not_kept p fuel packet s s v room 0 s1 refl,
            )
        | inr new ↦
            beacon-returns documented.address_text k
              (parse_ethernet_new p documented packet len b s v room new) h
      ]

  other-returns :
      (b0 b1 : ℕ)
      → IsPlatform p
      → HasType packet b0 b1
      → b0 * 256 + b1 ≢ beacon_type
      → (s' : Server) × (packet_capture_callback p fuel packet s ≡ ok s')
  other-returns b0 b1 documented ty differs =
      let (q, found, w) = current_lem s v room in
      let t = b0 * 256 + b1 in
      let s1 = typed_server p documented packet b0 b1 ty s v room q found w in
      let parsed = parse_ethernet_other p documented packet b0 b1 ty s v room q found w differs in
      let found1 = typed_server-found p documented packet b0 b1 ty s v room q found w in
      elim (Bool-cases (t == 0)) [
        | inl zero_type ↦ (
          s1,
          entered p fuel packet s s v room t s1 parsed
              ∙ not_kept p fuel packet s s v room t s1 zero_type,
        )
        | inr nonzero ↦ (
          count_packet s1,
          entered p fuel packet s s v room t s1 parsed
              ∙ kept_plain p fuel packet s s v room t s1 _ nonzero found1 differs,
        )
      ]

readable-returns :
    (p : Platform) (fuel : ℕ) (packet : Bytes) (s : Server)
    → IsPlatform p
    → IsReadable p fuel packet
    → IsServer s
    → (s' : Server) × (packet_capture_callback p fuel packet s ≡ ok s')
readable-returns p fuel packet s documented r v =
    elim (Bool-cases (ltb s.cur_packet_count max_packet_info_count)) [
      | inl room ↦ roomy (ltb→lt _ _ room) r
      | inr no_room ↦ (s, unfold packet_capture_callback in rw no_room)
    ]
  where
    roomy :
        s.cur_packet_count < max_packet_info_count
        → IsReadable p fuel packet
        → (s' : Server) × (packet_capture_callback p fuel packet s ≡ ok s')
    roomy room (other_type b0 b1 ty differs) =
        other-returns p fuel packet s v room b0 b1 documented ty differs
    roomy room (short_beacon len b h) = short-returns p fuel packet s v room len documented b h

-- On such a packet the callback returns, with a step of the contract.
pub packet_capture_callback-returns :
    (p : Platform) (fuel : ℕ) (packet : Bytes) (s : Server)
    → IsPlatform p
    → IsPacket packet
    → IsReadable p fuel packet
    → IsServer s
    → (s' : Server) × (packet_capture_callback p fuel packet s ≡ ok s') × Step s s'
packet_capture_callback-returns p fuel packet s documented bytes r v =
    let (s', e) = readable-returns p fuel packet s documented r v in
    (s', e, packet_capture_callback-Step p fuel packet s s' documented bytes v e)
