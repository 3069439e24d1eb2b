-- ===== src/Client/Injection.antt =====
-- SSIDs with quotes, which writePacket of client_main.c does not escape.
use network_analyser_using_r.Base.{
  ◌≡◌, ◌≤◌, refl, ap, ◌∙◌, sym, subst, true, Bytes, List, [], ◌∷◌, ◌++◌, some, codes, length, take,
  All,
}
use network_analyser_using_r.CString.{until_nul, same_text}
use network_analyser_using_r.State.{PacketInfo, Server, Platform}
use network_analyser_using_r.Json.{Members, packet_text}
use network_analyser_using_r.Json.Value.{Json, string, object, end_fields, field, render}
use network_analyser_using_r.Json.RoundTrip.{IsPlain, IsPlainJson}
use network_analyser_using_r.Json.Text.{members_of, document_of}
use network_analyser_using_r.Json.Shape.{ArePlainTexts, show_int-IsPlain}
use network_analyser_using_r.Client.Binding.{bind_packet}
use network_analyser_using_r.Client.Service.{
  ObjectMapper, IsObjectMapper, Remote, is_ascii, rpi_id, max_network_input_buffer_size,
  capture_and_send_network_data,
}
use network_analyser_using_r.Client.Seen.{
  IsRead, packet_of, IsSeenAs, AreSeenAs, capture_and_send_network_data-document,
}
use network_analyser_using_r.Client.Posts.{members_of-AreSeenAs}
use mathlib.Core.List.{map, map-append, append_assoc}

-- An SSID that closes its string and goes on with a member `power`.
abbrev pub with_power : Bytes → Bytes → Bytes
with_power name power = name ++ (codes "\",\"power\":\"" ++ power)

-- The value that the text of such a packet is.
abbrev injected_value : Members → Bytes → Bytes → Json
injected_value m name power = object (
    field (codes "packet")
      (object (
        field (codes "datarate") (string m.datarate) (
          field (codes "antenna") (string m.antenna) (
            field (codes "channel") (string m.channel) (
              field (codes "power") (string m.power) (
                field (codes "ssid") (string name) (
                  field (codes "power") (string power) (
                    field (codes "src") (string m.src) (
                      field (codes "dst") (string m.dst)
                        (field (codes "bssid") (string m.bssid) end_fields))))))))))
      end_fields)

injected-render :
    (m : Members) (name power : Bytes)
    → packet_text (record m { ssid = with_power name power }) ≡ render (injected_value m name power)
unfolding packet_text render
injected-render m name power = simp append_assoc refl

-- The texts of the addresses need no escapes.
pub record ArePlainAddresses (q : PacketInfo) : Type 0 where
  pub src : IsPlain (until_nul q.ethernet_src_addr)
  pub dst : IsPlain (until_nul q.ethernet_dst_addr)
  pub bssid : IsPlain (until_nul q.ethernet_bss_id)

module _ (p : Platform) (q : PacketInfo) (name power : Bytes) where
  abbrev pub seen_members : Members
  seen_members = record (members_of p q) { ssid = name; power = power }

  injected-IsSeenAs :
      until_nul q.ssid ≡ with_power name power
      → IsPlain name
      → IsPlain power
      → ArePlainAddresses q
      → IsSeenAs (members_of p q) seen_members
  unfolding members_of IsPlainJson bind_packet same_text
  injected-IsSeenAs e plain_name plain_power a = record {
    value = injected_value (members_of p q) name power;
    text =
        ap (λ t. packet_text (record (members_of p q) { ssid = t })) e
        ∙ injected-render (members_of p q) name power;
    plain = (
      refl,
      (
        refl,
        show_int-IsPlain _,
        (
          refl,
          show_int-IsPlain _,
          (
            refl,
            show_int-IsPlain _,
            (
              refl,
              show_int-IsPlain _,
              (
                refl,
                plain_name,
                (refl, plain_power, (refl, a.src, (refl, a.dst, (refl, a.bssid, tt)))),
              ),
            ),
          ),
        ),
      ),
      tt,
    );
    bound = refl;
  }

AreSeenAs-append :
    (ms ms' ns ns' : List Members)
    → AreSeenAs ms ms'
    → AreSeenAs ns ns'
    → AreSeenAs (ms ++ ns) (ms' ++ ns')
AreSeenAs-append [] [] ns ns' h g = g
AreSeenAs-append (m ∷ ms) (m' ∷ ms') ns ns' h g = (h.0, AreSeenAs-append ms ms' ns ns' h.1 g)
AreSeenAs-append [] (m' ∷ ms') ns ns' h g = elim h [ ]
AreSeenAs-append (m ∷ ms) [] ns ns' h g = elim h [ ]

-- Where a captured slot has an SSID that closes its quotes and goes on with a member power, the
-- rest of the texts need no escapes, the document is ASCII and has at most 8192 characters, the
-- calls for a capture succeed, one read gives the whole document, and the mapper binds JSON
-- values as documented, the client posts for this slot the SSID up to the quote, and as power the
-- text in the SSID in place of the measured one. The other packets are posted as captured.
pub capture_and_send_network_data_injected :
    (p : Platform) (mapper : ObjectMapper) (r : Remote) (s : Server)
    (before after : List PacketInfo) (q : PacketInfo) (name power : Bytes)
    → IsObjectMapper mapper
    → IsRead r (document_of p s)
    → take s.cap_info.packet_info_count s.cap_info.packet_info_array ≡ before ++ (q ∷ after)
    → All ArePlainTexts before
    → All ArePlainTexts after
    → until_nul q.ssid ≡ with_power name power
    → IsPlain name
    → IsPlain power
    → ArePlainAddresses q
    → is_ascii (document_of p s) ≡ true
    → length (document_of p s) ≤ max_network_input_buffer_size
    → capture_and_send_network_data mapper r
      ≡ record {
        dev_id = some rpi_id;
        packets =
            map packet_of (
              map (members_of p) before
              ++ (seen_members p q name power ∷ map (members_of p) after));
      }
        ∷ []
unfolding document_of
capture_and_send_network_data_injected p mapper r s before after q name power documented h slots pb
      pa e pn pp a ascii fits =
    let ms = map (members_of p) (take s.cap_info.packet_info_count s.cap_info.packet_info_array) in
    let seen =
      map (members_of p) before ++ (seen_members p q name power ∷ map (members_of p) after) in
    let split : map (members_of p) before ++ map (members_of p) (q ∷ after) ≡ ms =
      sym (ap (map (members_of p)) slots ∙ map-append (members_of p) before (q ∷ after)) in
    capture_and_send_network_data-document mapper documented r ms seen h
      (subst (λ l. AreSeenAs l seen) split
        (AreSeenAs-append (map (members_of p) before) (map (members_of p) before)
          (map (members_of p) (q ∷ after)) (seen_members p q name power ∷ map (members_of p) after)
          (members_of-AreSeenAs p before pb)
          (injected-IsSeenAs p q name power e pn pp a, members_of-AreSeenAs p after pa)))
      ascii fits
