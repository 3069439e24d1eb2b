-- ===== src/Ethernet/Total.antt =====
-- `parse_ethernet` on every packet: where it returns, and where it reads or writes out of bounds.
use network_analyser_using_r.Base.{
  ℕ, ◌+◌, ◌*◌, ◌≤◌, ◌<◌, ◌≡◌, ◌≢◌, refl, arith, Bytes, some, none, length, get_elem?, ◌⊎◌, inl, inr,
  All, All-get_elem?, get_elem?-none_le, get_elem?-none, Option-cases, Bool-cases, ◌==◌, ltb,
}
use network_analyser_using_r.Outcome.{fault}
use network_analyser_using_r.State.{
  Platform, IsPlatform, Server, max_ssid_char_count, max_packet_info_count,
}
use network_analyser_using_r.State.Slots.{IsServer, current_lem}
use network_analyser_using_r.Ethernet.{
  parse_ethernet, frame_type, beacon_frame, beacon_type, tag_length, ssid_start,
}
use network_analyser_using_r.Ethernet.Key.{parse_key-fault, parse_key_truncated, parse_key_untagged}
use network_analyser_using_r.Ethernet.Beacon.{HasType, parse_ethernet_unkeyed, typed_server-found}
use network_analyser_using_r.Ethernet.Result.{IsShortBeacon}

-- The packet is a list of bytes.
abbrev pub IsPacket : Bytes → Type 0
IsPacket packet = All (λ b. b < 256) packet

-- The packets that `parse_ethernet` can handle.
pub data IsParsable (packet : Bytes) : Type 0 where
  other : (b0 b1 : ℕ) → HasType packet b0 b1 → b0 * 256 + b1 ≢ beacon_type → IsParsable packet
  short : (len : ℕ) → IsShortBeacon packet len → IsParsable packet

-- The others: too short for a frame control field, or beacons that are too short for an SSID tag,
-- or that have an SSID of 15 bytes or more, or one that they do not hold whole.
pub data Unreadable (packet : Bytes) : Type 0 where
  no_type : length packet ≤ beacon_frame + 1 → Unreadable packet
  no_tag : HasType packet 0x80 0 → length packet ≤ tag_length → Unreadable packet
  long :
      (len : ℕ)
      → HasType packet 0x80 0
      → get_elem? packet tag_length ≡ some len
      → max_ssid_char_count ≤ len
      → Unreadable packet
  truncated :
      (len : ℕ)
      → HasType packet 0x80 0
      → get_elem? packet tag_length ≡ some len
      → length packet < ssid_start + len
      → Unreadable packet

-- The function is the decision.
beacon-cases : (packet : Bytes) → HasType packet 0x80 0 → (IsParsable packet) ⊎ (Unreadable packet)
beacon-cases packet h = tagged (Option-cases (get_elem? packet tag_length))
  where
    tagged :
        (get_elem? packet tag_length ≡ none)
          ⊎ ((len : ℕ) × (get_elem? packet tag_length ≡ some len))
        → (IsParsable packet) ⊎ (Unreadable packet)
    tagged (inl outside) = inr (no_tag h (get_elem?-none_le packet tag_length outside))
    tagged (inr (len, found)) = elim (Bool-cases (ltb len max_ssid_char_count)) [
      | inl fits ↦ elim (Bool-cases (ltb (length packet) (ssid_start + len))) [
        | inl cut ↦ inr (truncated len h found (ground arith))
        | inr whole ↦ inl (
            short len (record {
              frame = h;
              ssid = record { tagged = found; short = ground arith; complete = ground arith };
            }))
      ]
      | inr big ↦ inr (long len h found (ground arith))
    ]

typed-cases :
    (packet : Bytes) (b0 b1 : ℕ) → HasType packet b0 b1 → (IsParsable packet) ⊎ (Unreadable packet)
typed-cases packet b0 b1 h = elim (Bool-cases (b0 * 256 + b1 == beacon_type)) [
  | inl beacon ↦
      let e0 : b0 ≡ 0x80 = ground (arith, h.first_byte, h.second_byte) in
      let e1 : b1 ≡ 0 = ground (arith, h.first_byte, h.second_byte) in
      beacon-cases packet (rw (← e0, ← e1) h)
  | inr differs ↦ inl (other b0 b1 h (ground arith))
]

-- Every packet is of the one kind or the other.
pub frame-cases : (packet : Bytes) → IsPacket packet → (IsParsable packet) ⊎ (Unreadable packet)
frame-cases packet bytes =
    typed (Option-cases (get_elem? packet beacon_frame))
      (Option-cases (get_elem? packet (beacon_frame + 1)))
  where
    typed :
        (get_elem? packet beacon_frame ≡ none)
          ⊎ ((b : ℕ) × (get_elem? packet beacon_frame ≡ some b))
        → (get_elem? packet (beacon_frame + 1) ≡ none)
          ⊎ ((b : ℕ) × (get_elem? packet (beacon_frame + 1) ≡ some b))
        → (IsParsable packet) ⊎ (Unreadable packet)
    typed (inl n0) _ = inr (no_type (omega (arith, get_elem?-none_le packet beacon_frame n0)))
    typed (inr _) (inl n1) = inr (no_type (get_elem?-none_le packet (beacon_frame + 1) n1))
    typed (inr (b0, e0)) (inr (b1, e1)) = typed-cases packet b0 b1 (record {
      first = e0;
      second = e1;
      first_byte = All-get_elem? (λ b. b < 256) packet beacon_frame bytes e0;
      second_byte = All-get_elem? (λ b. b < 256) packet (beacon_frame + 1) bytes e1;
    })

frame_type-fault :
    (p : Platform) (packet : Bytes) → length packet ≤ beacon_frame + 1 → frame_type p packet ≡ fault
unfolding frame_type
frame_type-fault p packet h = elim (Option-cases (get_elem? packet beacon_frame)) [
  | inl outside ↦ rw outside
  | inr (b, found) ↦ rw (found, get_elem?-none packet (beacon_frame + 1) h)
]

-- With a machine as documented, globals that keep the invariant and fewer than 50 packets held,
-- parse_ethernet reads or writes out of bounds on a packet without a frame control field, and on
-- a beacon that ends before the length of its SSID, that says its SSID has 15 bytes or more, or
-- that ends before the end of its SSID.
pub parse_ethernet-fault :
    (p : Platform) (packet : Bytes) (s : Server)
    → IsPlatform p
    → Unreadable packet
    → IsServer s
    → s.cur_packet_count < max_packet_info_count
    → parse_ethernet p packet s ≡ fault
parse_ethernet-fault p packet s documented (no_type h) v room =
    unfold parse_ethernet in rw (frame_type-fault p packet h)
parse_ethernet-fault p packet s documented (no_tag ty h) v room =
    let (q, found, w) = current_lem s v room in
    parse_ethernet_unkeyed p documented packet 0x80 0 ty s v room q found w refl (
      parse_key_untagged p packet _ _
        (typed_server-found p documented packet 0x80 0 ty s v room q found w)
        (get_elem?-none packet tag_length h))
parse_ethernet-fault p packet s documented (long len ty tagged big) v room =
    let (q, found, w) = current_lem s v room in
    parse_ethernet_unkeyed p documented packet 0x80 0 ty s v room q found w refl (
      parse_key-fault p packet len _ _ documented
        (typed_server-found p documented packet 0x80 0 ty s v room q found w) tagged big)
parse_ethernet-fault p packet s documented (truncated len ty tagged cut) v room =
    let (q, found, w) = current_lem s v room in
    parse_ethernet_unkeyed p documented packet 0x80 0 ty s v room q found w refl (
      parse_key_truncated p packet len _ _
        (typed_server-found p documented packet 0x80 0 ty s v room q found w) tagged cut)
