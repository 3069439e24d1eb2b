-- ===== src/Client/Posts.antt =====
-- The answer of the server in the hands of PacketCaptureTimerTask.java.
use network_analyser_using_r.Base.{
  ◌≡◌, ◌≤◌, refl, ap, ◌∙◌, sym, subst, arith, true, Bytes, List, [], ◌∷◌, Option, none, some,
  length, take, All,
}
use network_analyser_using_r.CString.{same_text}
use network_analyser_using_r.State.{PacketInfo, Server, Platform}
use network_analyser_using_r.Dedup.Spec.{Key, key_of, keys, captured}
use network_analyser_using_r.Json.Text.{members_of, document_of}
use network_analyser_using_r.Json.Shape.{
  packet_text-render, packet_value-IsPlain, ArePlainTexts, packet_value,
}
use network_analyser_using_r.Main.Course.{Lists}
use network_analyser_using_r.Client.Seen.{
  IsRead, packet_of, IsSeenAs, AreSeenAs, capture_and_send_network_data-document,
}
use network_analyser_using_r.Client.Binding.{NetworkCaptureData, Packet, bind_packet}
use network_analyser_using_r.Client.Service.{
  ObjectMapper, IsObjectMapper, Remote, is_ascii, rpi_id, max_network_input_buffer_size,
  capture_and_send_network_data,
}
use mathlib.Core.List.{map}

packet_value-IsSeenAs :
    (p : Platform) (q : PacketInfo) → ArePlainTexts q → IsSeenAs (members_of p q) (members_of p q)
unfolding bind_packet same_text
packet_value-IsSeenAs p q h = record {
  value = packet_value (members_of p q);
  text = packet_text-render (members_of p q);
  plain = packet_value-IsPlain p q h;
  bound = refl;
}

pub members_of-AreSeenAs :
    (p : Platform) (qs : List PacketInfo)
    → All ArePlainTexts qs
    → AreSeenAs (map (members_of p) qs) (map (members_of p) qs)
members_of-AreSeenAs p [] h = tt
members_of-AreSeenAs p (q ∷ qs) h = (packet_value-IsSeenAs p q h.0, members_of-AreSeenAs p qs h.1)

-- The SSID and the BSSID of a posted packet.
abbrev pub posted_key : Packet → Option (Option Bytes × Option Bytes)
posted_key q = elim q.packet [ none ↦ none | some m ↦ some (m.ssid, m.bssid) ]

abbrev pub some_key : Key → Option (Option Bytes × Option Bytes)
some_key k = some (some (k.ssid), some (k.bssid))

module _ (p : Platform) (mapper : ObjectMapper) (documented : IsObjectMapper mapper) where
  pub capture_and_send_network_data-document_of :
      (r : Remote) (s : Server)
      → IsRead r (document_of p s)
      → All ArePlainTexts (take s.cap_info.packet_info_count s.cap_info.packet_info_array)
      → is_ascii (document_of p s) ≡ true
      → length (document_of p s) ≤ max_network_input_buffer_size
      → capture_and_send_network_data mapper r
        ≡ record {
          dev_id = some rpi_id;
          packets =
              map packet_of (
                map
                  (members_of p)
                  (take s.cap_info.packet_info_count s.cap_info.packet_info_array));
        }
          ∷ []
  unfolding document_of
  capture_and_send_network_data-document_of r s h plain ascii fits =
      capture_and_send_network_data-document mapper documented r _ _ h
        (members_of-AreSeenAs p _ plain) ascii fits

  posted_keys :
      (qs : List PacketInfo)
      → map posted_key (map packet_of (map (members_of p) qs)) ≡ map some_key (map key_of qs)
  unfolding members_of key_of
  posted_keys [] = refl
  posted_keys (q ∷ qs) = ap (λ ks. some_key (key_of q) ∷ ks) (posted_keys qs)

  -- Where a text is the document of globals with these keys, the texts of the captured packets
  -- have no quote, backslash or control character, the text is ASCII and has at most 8192
  -- characters, the calls for a capture succeed, one read gives the whole text, and the mapper
  -- binds JSON values as documented, the task of the Java client posts one data object. It has
  -- the id of the Raspberry Pi, and its packets are those captured, with these keys, in order.
  pub capture_and_send_network_data-Lists :
      (r : Remote) (text : Bytes) (ks : List Key) (l : Lists p ks text)
      → IsRead r text
      → All ArePlainTexts (captured l.s)
      → is_ascii text ≡ true
      → length text ≤ max_network_input_buffer_size
      → (d : NetworkCaptureData) × (capture_and_send_network_data mapper r ≡ d ∷ [])
        × (d.dev_id ≡ some rpi_id)
        × (d.packets ≡ map packet_of (map (members_of p) (captured l.s)))
        × (map posted_key d.packets ≡ map some_key ks)
  unfolding keys
  capture_and_send_network_data-Lists r text ks l h plain ascii fits =
      let s = l.s in
      let shown = ap (λ n. take n s.cap_info.packet_info_array) l.valid.counted in
      let posted =
        capture_and_send_network_data-document_of r s (subst (IsRead r) l.same h)
          (subst (All ArePlainTexts) (sym shown) plain) (ap is_ascii (sym l.same) ∙ ascii)
          (omega (arith, ap length l.same, fits)) in
      (
        _,
        posted,
        refl,
        ap (λ qs. map packet_of (map (members_of p) qs)) shown,
        posted_keys _ ∙ ap (λ qs. map some_key (map key_of qs)) shown ∙ ap (map some_key) l.kept,
      )
