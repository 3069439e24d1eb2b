-- ===== src/Json/Bounds.antt =====
-- How long the document can get, against the size of `output_buff`.
use network_analyser_using_r.Base.{
  ℕ, ◌+◌, ◌-◌, ◌*◌, ◌<◌, ◌≤◌, ◌≡◌, ap, arith, Bytes, List, [], ◌∷◌, ◌++◌, codes, length, take, some,
  All, All-take, length-append, length-take, Bool, true, false, pos,
}
use network_analyser_using_r.Outcome.{ok, fault}
use network_analyser_using_r.CString.{c_string, until_nul}
use network_analyser_using_r.CString.Text.{c_string-until_nul, length-c_string}
use network_analyser_using_r.State.{
  PacketInfo, Server, Platform, max_output_buffer_size, max_packet_info_count,
}
use network_analyser_using_r.State.Ranges.{HasRanges}
use network_analyser_using_r.State.Slots.{IsText, IsSlot, IsServer}
use network_analyser_using_r.Decimal.{show_int}
use network_analyser_using_r.Decimal.Laws.{
  length-decimal_le, length-decimal_gt, length-show_int_pos,
}
use network_analyser_using_r.Json.{char_value, Members, packet_text, generate_json}
use network_analyser_using_r.Json.Sprintf.{written}
use network_analyser_using_r.Json.Text.{members_of, packets_text, document, document_of}
use network_analyser_using_r.Json.Document.{generate_json-document, generate_json-overflow}
use mathlib.Core.List.{map}

-- The format of `writePacket` has 102 characters of its own.
length-packet_text :
    (m : Members)
    → length (packet_text m)
      ≡ 102
        + length m.datarate
        + length m.antenna
        + length m.channel
        + length m.power
        + length m.ssid
        + length m.src
        + length m.dst
        + length m.bssid
unfolding packet_text
length-packet_text m = simp length-append (omega arith)

-- A packet with a common data rate and channel, and addresses with two digits for each byte.
pub record IsFull (q : PacketInfo) : Type 0 where
  pub rate : 1000 ≤ q.data_rate_kbps
  pub channel : 1000 ≤ q.channel
  pub src : length (until_nul q.ethernet_src_addr) ≡ 17
  pub dst : length (until_nul q.ethernet_dst_addr) ≡ 17
  pub bssid : length (until_nul q.ethernet_bss_id) ≡ 17

-- The text of an array is shorter than the array.
length-text : (n : ℕ) (a : Bytes) → IsText n a → length (until_nul a) < n
length-text n a w =
    omega (arith, w.size, length-c_string a w.reads, ap length (c_string-until_nul a w.reads))

length-power : (signed : Bool) (b : ℕ) → b ≤ 255 → length (show_int (char_value signed b)) ≤ 4
unfolding show_int char_value
length-power true b h = ground (arith, length-decimal_le 2 b, length-decimal_le 2 (255 - b + 1))
length-power false b h = omega (arith, length-decimal_le 2 b (omega arith))

module _ (p : Platform) where
  length-packet_le :
      (q : PacketInfo) → IsSlot q → HasRanges q → length (packet_text (members_of p q)) ≤ 185
  unfolding members_of show_int
  length-packet_le q w r = rw length-packet_text (
      omega (
        arith,
        length-decimal_le 5 q.data_rate_kbps (omega (arith, r.rate)),
        length-decimal_le 2 q.antenna (omega (arith, r.antenna)),
        length-decimal_le 4 q.channel (omega (arith, r.channel)),
        length-power p.char_is_signed q.signal_pwr_dbm_at_antenna r.power,
        length-text _ _ w.ssid,
        length-text _ _ w.src,
        length-text _ _ w.dst,
        length-text _ _ w.bssid,
      ))

  length-packets_le :
      (qs : List PacketInfo)
      → All IsSlot qs
      → All HasRanges qs
      → length (packets_text (map (members_of p) qs)) ≤ 186 * length qs
  unfolding packets_text
  length-packets_le [] w r = omega arith
  length-packets_le (q ∷ []) w r = omega (arith, length-packet_le q w.0 r.0)
  length-packets_le (q ∷ s ∷ qs) (w, ws) (r, rs) = omega (
    arith,
    length-packet_le q w r,
    length-packets_le (s ∷ qs) ws rs,
    length-append (packet_text (members_of p q))
        (codes "," ++ packets_text (map (members_of p) (s ∷ qs))),
  )

  length-document_of :
      (s : Server)
      → length (document_of p s)
        ≡ 14
          + length (
              packets_text (
                map
                  (members_of p)
                  (take s.cap_info.packet_info_count s.cap_info.packet_info_array)))
  unfolding document_of document
  length-document_of s = simp length-append (omega arith)

  pub length-document_of_le :
      (s : Server)
      → IsServer s
      → All HasRanges s.cap_info.packet_info_array
      → s.cap_info.packet_info_count ≤ 43
      → length (document_of p s) < max_output_buffer_size
  length-document_of_le s v r le = omega (
    arith,
    length-document_of s,
    length-packets_le _
        (All-take IsSlot s.cap_info.packet_info_count s.cap_info.packet_info_array v.slots)
        (All-take HasRanges s.cap_info.packet_info_count s.cap_info.packet_info_array r),
    length-take s.cap_info.packet_info_count s.cap_info.packet_info_array (omega (arith, v.size)),
  )

  -- Where the globals keep the invariant, the radio measurements of all slots are in the range of
  -- their radiotap fields and at most 43 packets are counted, generateJson returns with the
  -- document for them as the string in output_buff.
  pub generate_json-few :
      (s : Server)
      → IsServer s
      → All HasRanges s.cap_info.packet_info_array
      → s.cap_info.packet_info_count ≤ 43
      → (rest : Bytes) × (generate_json p s ≡ ok (written s (document_of p s) (0 ∷ rest)))
        × (c_string (document_of p s ++ (0 ∷ rest)) ≡ some (document_of p s))
  generate_json-few s v r le =
      let (rest, e, c, _) = generate_json-document p s v (length-document_of_le s v r le) in
      (rest, e, c)

  length-packet_gt : (q : PacketInfo) → IsFull q → 163 ≤ length (packet_text (members_of p q))
  unfolding members_of show_int
  length-packet_gt q f = rw length-packet_text (
      omega (
        arith,
        length-decimal_gt 3 q.data_rate_kbps (omega (arith, f.rate)),
        length-show_int_pos (pos q.antenna),
        length-decimal_gt 3 q.channel (omega (arith, f.channel)),
        length-show_int_pos (char_value p.char_is_signed q.signal_pwr_dbm_at_antenna),
        f.src,
        f.dst,
        f.bssid,
      ))

  length-packets_gt :
      (qs : List PacketInfo)
      → All IsFull qs
      → 164 * length qs ≤ length (packets_text (map (members_of p) qs)) + 1
  unfolding packets_text
  length-packets_gt [] f = omega arith
  length-packets_gt (q ∷ []) f = omega (arith, length-packet_gt q f.0)
  length-packets_gt (q ∷ s ∷ qs) (f, fs) = omega (
    arith,
    length-packet_gt q f,
    length-packets_gt (s ∷ qs) fs,
    length-append (packet_text (members_of p q))
        (codes "," ++ packets_text (map (members_of p) (s ∷ qs))),
  )

  pub length-document_of_gt :
      (s : Server)
      → IsServer s
      → s.cap_info.packet_info_count ≡ max_packet_info_count
      → All IsFull s.cap_info.packet_info_array
      → max_output_buffer_size ≤ length (document_of p s)
  length-document_of_gt s v n f = omega (
    arith,
    length-document_of s,
    length-packets_gt _
        (All-take IsFull s.cap_info.packet_info_count s.cap_info.packet_info_array f),
    length-take s.cap_info.packet_info_count s.cap_info.packet_info_array (omega (arith, v.size)),
  )

  -- Where the globals keep the invariant, all 50 slots are counted, and every slot has a data
  -- rate of 1000 kbps or more, a channel of 1000 MHz or more and three addresses of 17
  -- characters, generateJson writes behind the end of output_buff.
  pub generate_json-many :
      (s : Server)
      → IsServer s
      → s.cap_info.packet_info_count ≡ max_packet_info_count
      → All IsFull s.cap_info.packet_info_array
      → generate_json p s ≡ fault
  generate_json-many s v n f = generate_json-overflow p s v (length-document_of_gt s v n f)
