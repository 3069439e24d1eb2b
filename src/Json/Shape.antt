-- ===== src/Json/Shape.antt =====
-- The document as a JSON value, and what a reader gets from it.
use network_analyser_using_r.Base.{
  ℕ, zero, suc, ◌+◌, ◌<◌, ◌≡◌, refl, ap, ◌∙◌, sym, arith, true, Bytes, List, [], ◌∷◌, ◌++◌, some,
  length, codes, All, take, ◌/◌, ◌%◌, ℤ, pos, negsuc,
}
use network_analyser_using_r.CString.{c_string, until_nul}
use network_analyser_using_r.State.{PacketInfo, Server, Platform, max_output_buffer_size}
use network_analyser_using_r.State.Slots.{IsServer}
use network_analyser_using_r.Outcome.{ok}
use network_analyser_using_r.Decimal.{show_int, digits_onto}
use network_analyser_using_r.Json.Sprintf.{written}
use network_analyser_using_r.Json.Document.{generate_json-document}
use network_analyser_using_r.Json.{generate_json, Members, packet_text}
use network_analyser_using_r.Json.Text.{members_of, packets_text, document, document_of}
use network_analyser_using_r.Json.Value.{
  Json, Items, string, array, object, end_items, item, end_fields, field, render, render_items,
}
use network_analyser_using_r.Json.RoundTrip.{
  IsPlain, IsPlainJson, ArePlainItems, read_json, read_json-render,
}
use mathlib.Core.List.{map, append-nil, append_assoc}

abbrev pub packet_value : Members → Json
packet_value m = object (
    field (codes "packet")
      (object (
        field (codes "datarate") (string m.datarate) (
          field (codes "antenna") (string m.antenna) (
            field (codes "channel") (string m.channel) (
              field (codes "power") (string m.power) (
                field (codes "ssid") (string m.ssid) (
                  field (codes "src") (string m.src) (
                    field (codes "dst") (string m.dst)
                      (field (codes "bssid") (string m.bssid) end_fields)))))))))
      end_fields)

abbrev pub items_of : List Members → Items
items_of [] = end_items
items_of (m ∷ ms) = item (packet_value m) (items_of ms)

abbrev pub document_value : List Members → Json
document_value ms = object (field (codes "packets") (array (items_of ms)) end_fields)

pub packet_text-render : (m : Members) → packet_text m ≡ render (packet_value m)
unfolding packet_text render
packet_text-render m = simp append_assoc refl

-- The texts of the packets are those of the values, one for one.
abbrev pub AreRendered : List Members → Items → Type 0
AreRendered [] end_items = Unit
AreRendered (m ∷ ms) (item v vs) = (packet_text m ≡ render v) × AreRendered ms vs
AreRendered _ _ = ⊥

packets_text-render :
    (ms : List Members) (vs : Items)
    → AreRendered ms vs
    → packets_text ms ++ (b']' ∷ []) ≡ render_items true vs
unfolding packets_text render
packets_text-render [] end_items h = refl
packets_text-render (m ∷ []) (item v end_items) h = ap (λ t. t ++ (b']' ∷ [])) h.0
packets_text-render (m ∷ n ∷ ms) (item v (item w vs)) h =
    append_assoc (packet_text m) (b',' ∷ packets_text (n ∷ ms)) (b']' ∷ [])
    ∙ ap (λ t. t ++ (b',' ∷ (packets_text (n ∷ ms) ++ (b']' ∷ [])))) h.0
    ∙ ap (λ t. render v ++ (b',' ∷ t)) (packets_text-render (n ∷ ms) (item w vs) h.1)
packets_text-render [] (item v vs) h = elim h [ ]
packets_text-render (m ∷ ms) end_items h = elim h [ ]
packets_text-render (m ∷ []) (item v (item w vs)) h = elim h.1 [ ]
packets_text-render (m ∷ n ∷ ms) (item v end_items) h = elim h.1 [ ]

pub document-AreRendered :
    (ms : List Members) (vs : Items)
    → AreRendered ms vs
    → document ms ≡ render (object (field (codes "packets") (array vs) end_fields))
unfolding document
document-AreRendered ms vs h =
    ap (λ t. codes "{\"packets\":[" ++ t)
      (sym (append_assoc (packets_text ms) (b']' ∷ []) (b'}' ∷ []))
        ∙ ap (λ t. t ++ (b'}' ∷ [])) (packets_text-render ms vs h))
    ∙ (unfold render in refl)

items_of-AreRendered : (ms : List Members) → AreRendered ms (items_of ms)
items_of-AreRendered [] = tt
items_of-AreRendered (m ∷ ms) = (packet_text-render m, items_of-AreRendered ms)

pub document-render : (ms : List Members) → document ms ≡ render (document_value ms)
document-render ms = document-AreRendered ms (items_of ms) (items_of-AreRendered ms)

-- The texts of a member need no escapes.
pub record ArePlainTexts (q : PacketInfo) : Type 0 where
  pub ssid : IsPlain (until_nul q.ssid)
  pub src : IsPlain (until_nul q.ethernet_src_addr)
  pub dst : IsPlain (until_nul q.ethernet_dst_addr)
  pub bssid : IsPlain (until_nul q.ethernet_bss_id)

digits_onto-IsPlain : (fuel n : ℕ) (acc : Bytes) → IsPlain acc → IsPlain (digits_onto fuel n acc)
unfolding digits_onto
digits_onto-IsPlain zero n acc h = h
digits_onto-IsPlain (suc fuel) n acc h =
    ground (arith, digits_onto-IsPlain fuel (n / 10) ((48 + n % 10) ∷ acc))

pub show_int-IsPlain : (i : ℤ) → IsPlain (show_int i)
unfolding show_int
show_int-IsPlain (pos n) = digits_onto-IsPlain (n + 1) n [] refl
show_int-IsPlain (negsuc n) = digits_onto-IsPlain (n + 1 + 1) (n + 1) [] refl

module _ (p : Platform) where
  pub packet_value-IsPlain :
      (q : PacketInfo) → ArePlainTexts q → IsPlainJson (packet_value (members_of p q))
  unfolding members_of IsPlainJson
  packet_value-IsPlain q h = (
    refl,
    (
      refl,
      show_int-IsPlain _,
      (
        refl,
        show_int-IsPlain _,
        (
          refl,
          show_int-IsPlain _,
          (
            refl,
            show_int-IsPlain _,
            (refl, h.ssid, (refl, h.src, (refl, h.dst, (refl, h.bssid, tt)))),
          ),
        ),
      ),
    ),
    tt,
  )

  items_of-ArePlain :
      (qs : List PacketInfo)
      → All ArePlainTexts qs
      → ArePlainItems (items_of (map (members_of p) qs))
  unfolding IsPlainJson
  items_of-ArePlain [] h = tt
  items_of-ArePlain (q ∷ qs) h = (packet_value-IsPlain q h.0, items_of-ArePlain qs h.1)

  pub document_value-IsPlain :
      (s : Server)
      → All ArePlainTexts (take s.cap_info.packet_info_count s.cap_info.packet_info_array)
      → IsPlainJson (
          document_value
            (map (members_of p) (take s.cap_info.packet_info_count s.cap_info.packet_info_array)))
  unfolding IsPlainJson
  document_value-IsPlain s plain = (refl, items_of-ArePlain _ plain, tt)

  -- Reading the document gives its packets back.
  pub read_json-document_of :
      (s : Server) (rest : Bytes)
      → All ArePlainTexts (take s.cap_info.packet_info_count s.cap_info.packet_info_array)
      → read_json (document_of p s ++ rest)
        ≡ some (
          document_value
              (map (members_of p) (take s.cap_info.packet_info_count s.cap_info.packet_info_array)),
          rest,
        )
  unfolding document_of
  read_json-document_of s rest h =
      let ms =
        map (members_of p) (take s.cap_info.packet_info_count s.cap_info.packet_info_array) in
      ap (λ t. read_json (t ++ rest)) (document-render ms)
      ∙ read_json-render (document_value ms) rest (document_value-IsPlain s h)

  -- Where the globals keep the invariant, the document has less than 8192 characters, and the
  -- texts of the counted packets have no quote, backslash or control character, generateJson
  -- returns and leaves a string in output_buff that a JSON reader reads to its end, as the value
  -- with the members of the counted packets.
  pub generate_json-read_json :
      (s : Server)
      → IsServer s
      → length (document_of p s) < max_output_buffer_size
      → All ArePlainTexts (take s.cap_info.packet_info_count s.cap_info.packet_info_array)
      → (s' : Server) × (t : Bytes) × (generate_json p s ≡ ok s')
        × (c_string s'.output_buff ≡ some t)
        × (read_json t
            ≡ some (
              document_value (
                  map
                    (members_of p)
                    (take s.cap_info.packet_info_count s.cap_info.packet_info_array)),
              [],
            ))
  generate_json-read_json s v fits plain =
      let (rest, made, holds, size) = generate_json-document p s v fits in
      (
        written s (document_of p s) (0 ∷ rest),
        document_of p s,
        made,
        holds,
        ap read_json (sym (append-nil (document_of p s))) ∙ read_json-document_of s [] plain,
      )
