-- ===== src/Json/Text.antt =====
-- The document that the server sends: the text for the packets, and that it holds no NUL.
use network_analyser_using_r.Base.{
  ◌≡◌, refl, sym, arith, Bytes, pos, List, [], ◌∷◌, ◌++◌, codes, take,
}
use network_analyser_using_r.Outcome.{ok}
use network_analyser_using_r.CString.{until_nul}
use network_analyser_using_r.CString.Text.{c_string-until_nul}
use network_analyser_using_r.State.{PacketInfo, Server, Platform}
use network_analyser_using_r.State.Slots.{IsSlot}
use network_analyser_using_r.Decimal.{show_int}
use network_analyser_using_r.Decimal.Laws.{until_nul-show_int}
use network_analyser_using_r.Json.{char_value, Members, packet_text, members}
use mathlib.Core.List.{map}

-- The objects of the packets, with commas between them.
unfoldable pub packets_text : List Members → Bytes
packets_text [] = []
packets_text (m ∷ []) = packet_text m
packets_text (m ∷ n ∷ ms) = packet_text m ++ (codes "," ++ packets_text (n ∷ ms))

unfoldable pub document : List Members → Bytes
document ms = codes "{\"packets\":[" ++ (packets_text ms ++ codes "]}")

module _ (p : Platform) where
  -- The members of a packet: numbers in decimal, and arrays up to their NUL.
  unfoldable pub members_of : PacketInfo → Members
  members_of q = record {
    datarate = show_int (pos q.data_rate_kbps);
    antenna = show_int (pos q.antenna);
    channel = show_int (pos q.channel);
    power = show_int (char_value p.char_is_signed q.signal_pwr_dbm_at_antenna);
    ssid = until_nul q.ssid;
    src = until_nul q.ethernet_src_addr;
    dst = until_nul q.ethernet_dst_addr;
    bssid = until_nul q.ethernet_bss_id;
  }

  pub members_lem : (q : PacketInfo) → IsSlot q → members p q ≡ ok (members_of q)
  unfolding members members_of
  members_lem q w =
      rw
        (
          w.ssid.reads,
          w.src.reads,
          w.dst.reads,
          w.bssid.reads,
          sym (c_string-until_nul q.ssid w.ssid.reads),
          sym (c_string-until_nul q.ethernet_src_addr w.src.reads),
          sym (c_string-until_nul q.ethernet_dst_addr w.dst.reads),
          sym (c_string-until_nul q.ethernet_bss_id w.bssid.reads),
        )
        refl

  -- The document for the packets that are counted.
  unfoldable pub document_of : Server → Bytes
  document_of s =
      document (map members_of (take s.cap_info.packet_info_count s.cap_info.packet_info_array))

-- A text without a NUL.
abbrev pub HasNoNul : Bytes → Type 0
HasNoNul t = until_nul t ≡ t

pub append-HasNoNul : (x y : Bytes) → HasNoNul x → HasNoNul y → HasNoNul (x ++ y)
unfolding until_nul
append-HasNoNul [] y hx hy = hy
append-HasNoNul (c ∷ x) y hx hy = ground (arith, append-HasNoNul x y)

until_nul-HasNoNul : (a : Bytes) → HasNoNul (until_nul a)
unfolding until_nul
until_nul-HasNoNul [] = refl
until_nul-HasNoNul (c ∷ a) = ground (arith, until_nul-HasNoNul a)

-- The literals and the members of the text hold no NUL.
packet_text-HasNoNul :
    (m : Members)
    → HasNoNul m.datarate
    → HasNoNul m.antenna
    → HasNoNul m.channel
    → HasNoNul m.power
    → HasNoNul m.ssid
    → HasNoNul m.src
    → HasNoNul m.dst
    → HasNoNul m.bssid
    → HasNoNul (packet_text m)
unfolding packet_text until_nul
packet_text-HasNoNul m a b c d e f g h =
    append-HasNoNul (codes "{\"packet\":{\"datarate\":\"") _ refl (
      append-HasNoNul m.datarate _ a (
        append-HasNoNul (codes "\",\"antenna\":\"") _ refl (
          append-HasNoNul m.antenna _ b (
            append-HasNoNul (codes "\",\"channel\":\"") _ refl (
              append-HasNoNul m.channel _ c (
                append-HasNoNul (codes "\",\"power\":\"") _ refl (
                  append-HasNoNul m.power _ d (
                    append-HasNoNul (codes "\",\"ssid\":\"") _ refl (
                      append-HasNoNul m.ssid _ e (
                        append-HasNoNul (codes "\",\"src\":\"") _ refl (
                          append-HasNoNul m.src _ f (
                            append-HasNoNul (codes "\",\"dst\":\"") _ refl (
                              append-HasNoNul m.dst _ g (
                                append-HasNoNul (codes "\",\"bssid\":\"") _ refl
                                  (append-HasNoNul m.bssid _ h refl)))))))))))))))

module _ (p : Platform) where
  packet-HasNoNul : (q : PacketInfo) → HasNoNul (packet_text (members_of p q))
  unfolding members_of
  packet-HasNoNul q =
      packet_text-HasNoNul (members_of p q) (until_nul-show_int _) (until_nul-show_int _)
        (until_nul-show_int _) (until_nul-show_int _) (until_nul-HasNoNul q.ssid)
        (until_nul-HasNoNul q.ethernet_src_addr) (until_nul-HasNoNul q.ethernet_dst_addr)
        (until_nul-HasNoNul q.ethernet_bss_id)

  packets_text-HasNoNul : (qs : List PacketInfo) → HasNoNul (packets_text (map (members_of p) qs))
  unfolding packets_text until_nul
  packets_text-HasNoNul [] = refl
  packets_text-HasNoNul (q ∷ []) = packet-HasNoNul q
  packets_text-HasNoNul (q ∷ r ∷ qs) =
      append-HasNoNul _ _ (packet-HasNoNul q)
        (append-HasNoNul (codes ",") _ refl (packets_text-HasNoNul (r ∷ qs)))

  pub document-HasNoNul : (qs : List PacketInfo) → HasNoNul (document (map (members_of p) qs))
  unfolding document until_nul
  document-HasNoNul qs =
      append-HasNoNul (codes "{\"packets\":[") _ refl
        (append-HasNoNul _ _ (packets_text-HasNoNul qs) refl)
