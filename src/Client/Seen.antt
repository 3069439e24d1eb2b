-- ===== src/Client/Seen.antt =====
-- The members that the Java client reads from a document.
use network_analyser_using_r.Base.{
  ℕ, zero, suc, ◌-◌, ◌≡◌, ◌≤◌, refl, ap, ◌∙◌, arith, true, Bytes, List, [], ◌∷◌, ◌++◌, none, some,
  length, take_le, replicate, ltb, lt→ltb, codes,
}
use network_analyser_using_r.CString.{same_text}
use network_analyser_using_r.Json.{Members, packet_text}
use network_analyser_using_r.Json.Value.{
  Json, Items, array, object, end_items, item, end_fields, field, render,
}
use network_analyser_using_r.Json.RoundTrip.{
  IsPlainJson, ArePlainItems, read_json, read_json-render,
}
use network_analyser_using_r.Json.Text.{document}
use network_analyser_using_r.Json.Shape.{AreRendered, document-AreRendered}
use network_analyser_using_r.Client.Binding.{
  NetworkCaptureData, Packet, bind_packet, bind_packets, bind_data,
}
use network_analyser_using_r.Client.Service.{
  ObjectMapper, IsObjectMapper, Remote, is_ascii, rpi_id, client_capture_command,
  max_network_input_buffer_size, capture_data_bytes, capture_and_send_network_data,
}
use mathlib.Core.List.{map}

-- The data object for the members that the server prints.
abbrev pub packet_of : Members → Packet
packet_of m = record {
  packet = some (record {
    datarate = some (m.datarate);
    antenna = some (m.antenna);
    channel = some (m.channel);
    power = some (m.power);
    ssid = some (m.ssid);
    src = some (m.src);
    dst = some (m.dst);
    bssid = some (m.bssid);
  });
}

-- The text of `m` is a JSON value from which the client takes the members `m'`.
pub record IsSeenAs (m m' : Members) : Type 0 where
  pub value : Json
  pub text : packet_text m ≡ render value
  pub plain : IsPlainJson value
  pub bound : bind_packet value ≡ some (packet_of m')

abbrev pub AreSeenAs : List Members → List Members → Type 0
AreSeenAs [] [] = Unit
AreSeenAs (m ∷ ms) (m' ∷ ms') = IsSeenAs m m' × AreSeenAs ms ms'
AreSeenAs _ _ = ⊥

-- The values of a document.
pub record IsItems (ms ms' : List Members) : Type 0 where
  pub items : Items
  pub texts : AreRendered ms items
  pub plain : ArePlainItems items
  pub bound : bind_packets items ≡ some (map packet_of ms')

AreSeenAs-IsItems : (ms ms' : List Members) → AreSeenAs ms ms' → IsItems ms ms'
unfolding bind_packets IsPlainJson
AreSeenAs-IsItems [] [] h = record { items = end_items; texts = tt; plain = tt; bound = refl }
AreSeenAs-IsItems (m ∷ ms) (m' ∷ ms') h =
    let rest = AreSeenAs-IsItems ms ms' h.1 in
    record {
      items = item (h.0.value) rest.items;
      texts = (h.0.text, rest.texts);
      plain = (h.0.plain, rest.plain);
      bound = rw (h.0.bound, rest.bound) refl;
    }
AreSeenAs-IsItems [] (m' ∷ ms') h = elim h [ ]
AreSeenAs-IsItems (m ∷ ms) [] h = elim h [ ]

is_ascii-zeros : (a : Bytes) (n : ℕ) → is_ascii a ≡ true → is_ascii (a ++ replicate n 0) ≡ true
is_ascii-zeros [] zero h = refl
is_ascii-zeros [] (suc n) h = is_ascii-zeros [] n refl
is_ascii-zeros (c ∷ a) n h = ground (arith, is_ascii-zeros a n)

-- The calls for a capture succeed, and one `read` gives the text.
pub record IsRead (r : Remote) (text : Bytes) : Type 0 where
  pub host : r.host ≡ true
  pub connects : r.connects client_capture_command ≡ true
  pub read : r.read ≡ some text

-- A document is not empty.
document-nonempty : (ms : List Members) → ltb 0 (length (document ms)) ≡ true
unfolding document
document-nonempty ms = lt→ltb _ _ (omega arith)

module _ (mapper : ObjectMapper) (documented : IsObjectMapper mapper) where
  -- The mapper on the array, with the NULs behind the document.
  mapper-document :
      (ms ms' : List Members)
      → AreSeenAs ms ms'
      → is_ascii (document ms) ≡ true
      → length (document ms) ≤ max_network_input_buffer_size
      → mapper (capture_data_bytes (document ms))
        ≡ some (record { dev_id = none; packets = map packet_of ms' })
  unfolding capture_data_bytes IsPlainJson bind_data same_text
  mapper-document ms ms' seen ascii fits =
      let n = max_network_input_buffer_size - length (document ms) in
      let i = AreSeenAs-IsItems ms ms' seen in
      let value = object (field (codes "packets") (array i.items) end_fields) in
      rw (take_le max_network_input_buffer_size (document ms) fits) (
        documented.reads (document ms ++ replicate n 0) (replicate n 0) value
          (is_ascii-zeros (document ms) n ascii)
          (ap (λ t. read_json (t ++ replicate n 0)) (document-AreRendered ms i.items i.texts)
            ∙ read_json-render value (replicate n 0) (refl, i.plain, tt))
        ∙ rw i.bound refl)

  capture_and_send_network_data-ok :
      (r : Remote) (text : Bytes) (d : NetworkCaptureData)
      → IsRead r text
      → ltb 0 (length text) ≡ true
      → mapper (capture_data_bytes text) ≡ some d
      → capture_and_send_network_data mapper r ≡ record d { dev_id = some rpi_id } ∷ []
  unfolding capture_and_send_network_data
  capture_and_send_network_data-ok r text d h filled mapped =
      let host = h.host in let connects = h.connects in let read = h.read in ground arith

  pub capture_and_send_network_data-document :
      (r : Remote) (ms ms' : List Members)
      → IsRead r (document ms)
      → AreSeenAs ms ms'
      → is_ascii (document ms) ≡ true
      → length (document ms) ≤ max_network_input_buffer_size
      → capture_and_send_network_data mapper r
        ≡ record { dev_id = some rpi_id; packets = map packet_of ms' } ∷ []
  capture_and_send_network_data-document r ms ms' h seen ascii fits =
      capture_and_send_network_data-ok r (document ms) _ h (document-nonempty ms)
        (mapper-document ms ms' seen ascii fits)
