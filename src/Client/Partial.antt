-- ===== src/Client/Partial.antt =====
-- Answers of which one read of the Java client gets only the first part.
use network_analyser_using_r.Base.{
  ◌-◌, ◌≤◌, ◌≡◌, refl, ap, ◌∙◌, sym, Bool, true, false, Bytes, [], ◌∷◌, ◌++◌, Option, none, some,
  if◌then◌else◌, length, replicate, take, take_le, All,
}
use network_analyser_using_r.State.{Server, Platform}
use network_analyser_using_r.Json.Text.{members_of, document_of}
use network_analyser_using_r.Json.Value.{Json}
use network_analyser_using_r.Json.RoundTrip.{read_json}
use network_analyser_using_r.Json.Cut.{read_json-cut}
use network_analyser_using_r.Json.Shape.{
  ArePlainTexts, document_value, document-render, document_value-IsPlain, read_json-document_of,
}
use network_analyser_using_r.Client.Service.{max_network_input_buffer_size, capture_data_bytes}
use mathlib.Core.List.{map, append-nil}

abbrev pub is_empty : Bytes → Bool
is_empty [] = true
is_empty (c ∷ cs) = false

-- Where the texts of the counted packets need no escapes and the client's one read gives a first
-- part of the document, of at most 8192 bytes, the array that the client hands to its mapper
-- begins with a JSON value of strings, arrays and objects only where no byte of the document is
-- missing. Then a reader for these values finds the document, with the members of the counted
-- packets, and behind it the NULs of the array.
pub capture_data_bytes_part :
    (p : Platform) (s : Server) (part missing : Bytes)
    → All ArePlainTexts (take s.cap_info.packet_info_count s.cap_info.packet_info_array)
    → document_of p s ≡ part ++ missing
    → length part ≤ max_network_input_buffer_size
    → read_json (capture_data_bytes part) ≡ (
        if is_empty missing
        then some (
          document_value
              (map (members_of p) (take s.cap_info.packet_info_count s.cap_info.packet_info_array)),
          replicate (max_network_input_buffer_size - length part) 0,
        )
        else none)
unfolding capture_data_bytes document_of
capture_data_bytes_part p s part [] plain same fits =
    rw (take_le max_network_input_buffer_size part fits) (
      ap (λ t. read_json (t ++ replicate (max_network_input_buffer_size - length part) 0))
        (sym (append-nil part) ∙ sym same)
      ∙ read_json-document_of p s (replicate (max_network_input_buffer_size - length part) 0) plain)
capture_data_bytes_part p s part (c ∷ missing) plain same fits =
    let n = max_network_input_buffer_size - length part in
    let ms = map (members_of p) (take s.cap_info.packet_info_count s.cap_info.packet_info_array) in
    rw (take_le max_network_input_buffer_size part fits) (
      refused (read_json (part ++ replicate n 0)) λ u rest h.
        read_json-cut (document_value ms) u part (c ∷ missing) rest n
          (document_value-IsPlain p s plain) (sym (document-render ms) ∙ same) h)
  where
    refused :
        (o : Option (Json × Bytes))
        → ((u : Json) (rest : Bytes) → o ≡ some (u, rest) → c ∷ missing ≡ [])
        → o ≡ none
    refused none h = refl
    refused (some (u, rest)) h = absurd (nonempty (h u rest refl))
      where
        nonempty : c ∷ missing ≡ [] → ⊥
        nonempty e = cc
