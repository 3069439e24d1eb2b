-- ===== src/Json/Injective.antt =====
-- What the document tells of the captured packets.
use network_analyser_using_r.Base.{
  ℕ, ◌≡◌, ◌≤◌, ◌↔◌, refl, ap, ◌∙◌, sym, arith, Bool, true, false, ltb, pos, Bytes, List, [], ◌∷◌,
  ◌++◌, some, All, All-take, take, length, ltb→lt, Bool-cases, inl, inr,
}
use network_analyser_using_r.Outcome.{ok, fault, ok-injective}
use network_analyser_using_r.CString.{until_nul, c_string}
use network_analyser_using_r.State.{PacketInfo, Server, Platform, max_output_buffer_size}
use network_analyser_using_r.State.Slots.{IsServer}
use network_analyser_using_r.State.Ranges.{HasRanges, IsRanged}
use network_analyser_using_r.Decimal.{show_int}
use network_analyser_using_r.Decimal.Laws.{show_int-injective}
use network_analyser_using_r.Json.{Members, char_value, generate_json}
use network_analyser_using_r.Json.Document.{generate_json-document, generate_json-overflow}
use network_analyser_using_r.Json.Value.{Json}
use network_analyser_using_r.Json.Text.{members_of, document, document_of}
use network_analyser_using_r.Json.Shape.{
  ArePlainTexts, packet_value, items_of, document_value, read_json-document_of,
}
use network_analyser_using_r.Json.RoundTrip.{read_json}
use mathlib.Core.Option.{some-injective}
use mathlib.Core.List.{map}

-- The part of a slot that is printed, with the power as its byte.
pub record Printed : Type 0 where
  pub rate : ℕ
  pub antenna : ℕ
  pub channel : ℕ
  pub power : ℕ
  pub ssid : Bytes
  pub src : Bytes
  pub dst : Bytes
  pub bssid : Bytes

unfoldable pub printed : PacketInfo → Printed
printed q = record {
  rate = q.data_rate_kbps;
  antenna = q.antenna;
  channel = q.channel;
  power = q.signal_pwr_dbm_at_antenna;
  ssid = until_nul q.ssid;
  src = until_nul q.ethernet_src_addr;
  dst = until_nul q.ethernet_dst_addr;
  bssid = until_nul q.ethernet_bss_id;
}

-- The packets that a document lists.
abbrev pub counted : Server → List PacketInfo
counted s = take s.cap_info.packet_info_count s.cap_info.packet_info_array

packet_value-injective : (m m' : Members) → packet_value m ≡ packet_value m' → m ≡ m'
packet_value-injective m m' e =
    let a : m.datarate ≡ m'.datarate = cc in
    let b : m.antenna ≡ m'.antenna = cc in
    let c : m.channel ≡ m'.channel = cc in
    let d : m.power ≡ m'.power = cc in
    let f : m.ssid ≡ m'.ssid = cc in
    let g : m.src ≡ m'.src = cc in
    let h : m.dst ≡ m'.dst = cc in
    let k : m.bssid ≡ m'.bssid = cc in
    λ i. record {
      datarate = a i;
      antenna = b i;
      channel = c i;
      power = d i;
      ssid = f i;
      src = g i;
      dst = h i;
      bssid = k i;
    }

items_of-injective : (ms ms' : List Members) → items_of ms ≡ items_of ms' → ms ≡ ms'
items_of-injective [] [] e = refl
items_of-injective [] (m ∷ ms') e = cc
items_of-injective (m ∷ ms) [] e = cc
items_of-injective (m ∷ ms) (m' ∷ ms') e =
    let rest : items_of ms ≡ items_of ms' = cc in
    let first : packet_value m ≡ packet_value m' = cc in
    λ i. packet_value-injective m m' first i ∷ items_of-injective ms ms' rest i

char_value-injective :
    (b : Bool) (m n : ℕ) → m ≤ 255 → n ≤ 255 → char_value b m ≡ char_value b n → m ≡ n
unfolding char_value
char_value-injective true m n h k e = ground arith
char_value-injective false m n h k e = ground arith

pos-injective : {m n : ℕ} → pos m ≡ pos n → m ≡ n
pos-injective e = cc

module _ (p : Platform) where
  members_of-printed :
      (q r : PacketInfo)
      → HasRanges q
      → HasRanges r
      → members_of p q ≡ members_of p r
      → printed q ≡ printed r
  unfolding members_of printed
  members_of-printed q r h k e =
      let rate = pos-injective (show_int-injective _ _ (ap (λ (x : Members). x.datarate) e)) in
      let antenna = pos-injective (show_int-injective _ _ (ap (λ (x : Members). x.antenna) e)) in
      let channel = pos-injective (show_int-injective _ _ (ap (λ (x : Members). x.channel) e)) in
      let power =
        char_value-injective p.char_is_signed _ _ h.power k.power
          (show_int-injective _ _ (ap (λ (x : Members). x.power) e)) in
      λ i. record {
        rate = rate i;
        antenna = antenna i;
        channel = channel i;
        power = power i;
        ssid = (e i).ssid;
        src = (e i).src;
        dst = (e i).dst;
        bssid = (e i).bssid;
      }

  printed-members_of : (q r : PacketInfo) → printed q ≡ printed r → members_of p q ≡ members_of p r
  unfolding members_of printed
  printed-members_of q r e = λ i. record {
    datarate = show_int (pos (e i).rate);
    antenna = show_int (pos (e i).antenna);
    channel = show_int (pos (e i).channel);
    power = show_int (char_value p.char_is_signed (e i).power);
    ssid = (e i).ssid;
    src = (e i).src;
    dst = (e i).dst;
    bssid = (e i).bssid;
  }

  map-members_of-printed :
      (qs rs : List PacketInfo)
      → All HasRanges qs
      → All HasRanges rs
      → map (members_of p) qs ≡ map (members_of p) rs
      → map printed qs ≡ map printed rs
  map-members_of-printed [] [] h k e = refl
  map-members_of-printed [] (r ∷ rs) h k e = cc
  map-members_of-printed (q ∷ qs) [] h k e = cc
  map-members_of-printed (q ∷ qs) (r ∷ rs) h k e =
      let first : members_of p q ≡ members_of p r = cc in
      let rest : map (members_of p) qs ≡ map (members_of p) rs = cc in
      λ i. members_of-printed q r h.0 k.0 first i ∷ map-members_of-printed qs rs h.1 k.1 rest i

  printed-map-members_of :
      (qs rs : List PacketInfo)
      → map printed qs ≡ map printed rs
      → map (members_of p) qs ≡ map (members_of p) rs
  printed-map-members_of [] [] e = refl
  printed-map-members_of [] (r ∷ rs) e = cc
  printed-map-members_of (q ∷ qs) [] e = cc
  printed-map-members_of (q ∷ qs) (r ∷ rs) e =
      let first : printed q ≡ printed r = cc in
      let rest : map printed qs ≡ map printed rs = cc in
      λ i. printed-members_of q r first i ∷ printed-map-members_of qs rs rest i

  document_value-injective :
      (ms ms' : List Members) → document_value ms ≡ document_value ms' → ms ≡ ms'
  document_value-injective ms ms' e =
      let same : items_of ms ≡ items_of ms' = cc in items_of-injective ms ms' same

  pub document_of-eq_iff :
      (s t : Server)
      → All ArePlainTexts (counted s)
      → All ArePlainTexts (counted t)
      → All HasRanges (counted s)
      → All HasRanges (counted t)
      → (document_of p s ≡ document_of p t) ↔ (map printed (counted s) ≡ map printed (counted t))
  unfolding document_of
  document_of-eq_iff s t plain plain' r r' = (
    λ e. map-members_of-printed (counted s) (counted t) r r' (
        document_value-injective _ _ (
          ap (λ (x : Json × Bytes). x.0)
            (some-injective _ _ (
              sym (read_json-document_of p s [] plain)
              ∙ ap (λ x. read_json (x ++ [])) e
              ∙ read_json-document_of p t [] plain')))),
    λ e. ap document (printed-map-members_of (counted s) (counted t) e),
  )

  generate_json-text :
      (s s' : Server)
      → IsServer s
      → generate_json p s ≡ ok s'
      → c_string s'.output_buff ≡ some (document_of p s)
  generate_json-text s s' v h =
      elim (Bool-cases (ltb (length (document_of p s)) max_output_buffer_size)) [
        | inl fits ↦
            let (rest, made, holds, size) = generate_json-document p s v (ltb→lt _ _ fits) in
            rw (← ok-injective (sym made ∙ h)) holds
        | inr over ↦ absurd (fails (generate_json-overflow p s v (ground arith)))
      ]
    where
      fails : generate_json p s ≡ fault → ⊥
      fails e = cc

  -- Where two calls of generateJson return from globals that keep the invariant, with radio
  -- measurements in the range of their fields, and the texts of the counted packets have no
  -- quote, backslash or control character, they leave the same string in output_buff exactly
  -- where the counted packets have the same rates, antennas, channels, powers and texts, one for
  -- one.
  pub generate_json-printed_iff :
      (s s' t t' : Server)
      → IsServer s
      → IsServer t
      → IsRanged s
      → IsRanged t
      → All ArePlainTexts (counted s)
      → All ArePlainTexts (counted t)
      → generate_json p s ≡ ok s'
      → generate_json p t ≡ ok t'
      → (c_string s'.output_buff ≡ c_string t'.output_buff)
        ↔ (map printed (counted s) ≡ map printed (counted t))
  generate_json-printed_iff s s' t t' v w r q plain plain' h k =
      let (to, from) =
        document_of-eq_iff s t plain plain' (All-take HasRanges _ _ r) (All-take HasRanges _ _ q) in
      let a = generate_json-text s s' v h in
      let b = generate_json-text t t' w k in
      (λ e. to (some-injective _ _ (sym a ∙ e ∙ b)), λ e. a ∙ ap some (from e) ∙ sym b)
