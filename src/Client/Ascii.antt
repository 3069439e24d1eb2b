-- ===== src/Client/Ascii.antt =====
-- Documents of the server in ASCII.
use network_analyser_using_r.Base.{
  ℕ, zero, suc, ◌+◌, ◌≡◌, refl, ◌∙◌, arith, true, ◌&&◌, Bytes, List, [], ◌∷◌, ◌++◌, ℤ, pos, negsuc,
  take, All, ◌/◌, ◌%◌,
}
use network_analyser_using_r.CString.{until_nul}
use network_analyser_using_r.State.{PacketInfo, Server, Platform}
use network_analyser_using_r.Decimal.{show_int, decimal, digits_onto}
use network_analyser_using_r.Json.{packet_text, char_value}
use network_analyser_using_r.Json.Text.{members_of, packets_text, document, document_of}
use network_analyser_using_r.Client.Service.{is_ascii}
use mathlib.Core.List.{map}

pub is_ascii-append : (a b : Bytes) → is_ascii (a ++ b) ≡ (is_ascii a && is_ascii b)
is_ascii-append [] b = refl
is_ascii-append (c ∷ a) b = ground (arith, is_ascii-append a b)

digits_onto-ascii :
    (fuel n : ℕ) (acc : Bytes) → is_ascii acc ≡ true → is_ascii (digits_onto fuel n acc) ≡ true
unfolding digits_onto
digits_onto-ascii zero n acc h = h
digits_onto-ascii (suc fuel) n acc h =
    ground (arith, digits_onto-ascii fuel (n / 10) ((48 + n % 10) ∷ acc))

show_int-ascii : (i : ℤ) → is_ascii (show_int i) ≡ true
unfolding show_int decimal
show_int-ascii (pos n) = digits_onto-ascii (n + 1) n [] refl
show_int-ascii (negsuc n) = digits_onto-ascii (n + 1 + 1) (n + 1) [] refl

-- The texts of a slot are ASCII.
pub record AreAsciiTexts (q : PacketInfo) : Type 0 where
  pub ssid : is_ascii (until_nul q.ssid) ≡ true
  pub src : is_ascii (until_nul q.ethernet_src_addr) ≡ true
  pub dst : is_ascii (until_nul q.ethernet_dst_addr) ≡ true
  pub bssid : is_ascii (until_nul q.ethernet_bss_id) ≡ true

module _ (p : Platform) where
  packet_text-ascii :
      (q : PacketInfo) → AreAsciiTexts q → is_ascii (packet_text (members_of p q)) ≡ true
  unfolding packet_text members_of
  packet_text-ascii q h =
      simp
        (
          is_ascii-append,
          show_int-ascii (pos q.data_rate_kbps),
          show_int-ascii (pos q.antenna),
          show_int-ascii (pos q.channel),
          show_int-ascii (char_value p.char_is_signed q.signal_pwr_dbm_at_antenna),
          h.ssid,
          h.src,
          h.dst,
          h.bssid,
        )
        refl

  packets_text-ascii :
      (qs : List PacketInfo)
      → All AreAsciiTexts qs
      → is_ascii (packets_text (map (members_of p) qs)) ≡ true
  unfolding packets_text
  packets_text-ascii [] h = refl
  packets_text-ascii (q ∷ []) h = packet_text-ascii q h.0
  packets_text-ascii (q ∷ r ∷ qs) h =
      is_ascii-append (packet_text (members_of p q)) _
      ∙ rw (packet_text-ascii q h.0) (packets_text-ascii (r ∷ qs) h.1)

  pub document_of-ascii :
      (s : Server)
      → All AreAsciiTexts (take s.cap_info.packet_info_count s.cap_info.packet_info_array)
      → is_ascii (document_of p s) ≡ true
  unfolding document_of document
  document_of-ascii s h =
      is_ascii-append
        (packets_text
          (map (members_of p) (take s.cap_info.packet_info_count s.cap_info.packet_info_array)))
        _
      ∙ rw (packets_text-ascii _ h) refl
