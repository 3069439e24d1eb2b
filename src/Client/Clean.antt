-- ===== src/Client/Clean.antt =====
-- Slots whose texts need no escape in JSON, from the packets that they come from.
use network_analyser_using_r.Base.{
  ℕ, ◌≤◌, ◌≡◌, refl, ap, ◌∙◌, sym, subst, arith, Bool, true, ◌&&◌, ◌||◌, Bytes, List, [], ◌∷◌, All,
  ltb, length,
}
use network_analyser_using_r.CString.{until_nul}
use network_analyser_using_r.State.{Platform, IsPlatform, PacketInfo}
use network_analyser_using_r.Dedup.Spec.{Key, key_of}
use network_analyser_using_r.Ethernet.{ether_shost, ether_dhost, bssid_offset}
use network_analyser_using_r.Ethernet.Address.{mac_at, length-mac_at}
use network_analyser_using_r.Ethernet.Key.{packet_key}
use network_analyser_using_r.Callback.Tally.{IsReadableBeacon, beacon_key, beacon_key_lem}
use network_analyser_using_r.Callback.Source.{IsFrom, IsFromSome}
use network_analyser_using_r.Json.RoundTrip.{IsPlain}
use network_analyser_using_r.Json.Shape.{ArePlainTexts}
use network_analyser_using_r.Client.Service.{is_ascii}
use network_analyser_using_r.Client.Ascii.{AreAsciiTexts}
use mathlib.Core.List.{Memᴰ}

-- A hexadecimal digit or a colon, as `ether_ntoa` writes.
abbrev pub is_mac_char : ℕ → Bool
is_mac_char c = (ltb 47 c && ltb c 59) || ((ltb 64 c && ltb c 71) || (ltb 96 c && ltb c 103))

abbrev pub is_mac_text : Bytes → Bool
is_mac_text [] = true
is_mac_text (c ∷ cs) = is_mac_char c && is_mac_text cs

is_mac_text-IsPlain : (t : Bytes) → is_mac_text t ≡ true → IsPlain t
is_mac_text-IsPlain [] h = refl
is_mac_text-IsPlain (c ∷ cs) h = ground (arith, is_mac_text-IsPlain cs)

is_mac_text-ascii : (t : Bytes) → is_mac_text t ≡ true → is_ascii t ≡ true
is_mac_text-ascii [] h = refl
is_mac_text-ascii (c ∷ cs) h = ground (arith, is_mac_text-ascii cs)

pub All-Memᴰ {ℓ κ} :
    {A : Type ℓ} (P : A → Type κ) {x : A} {xs : List A} → Memᴰ x xs → All P xs → P x
All-Memᴰ P (Memᴰ.head e) h = subst P (sym e) h.0
All-Memᴰ P (Memᴰ.tail m) h = All-Memᴰ P m h.1

pub All-map {ℓ κ} :
    {A : Type ℓ} {P Q : A → Type κ} → ((x : A) → P x → Q x) → (xs : List A) → All P xs → All Q xs
All-map f [] h = tt
All-map f (x ∷ xs) h = (f x h.0, All-map f xs h.1)

-- `ether_ntoa` writes hexadecimal digits and colons.
abbrev pub WritesMacTexts : (Bytes → Bytes) → Type 0
WritesMacTexts address_text = (mac : Bytes) → length mac ≡ 6 → is_mac_text (address_text mac) ≡ true

-- The SSID of the beacon is ASCII and needs no escape in JSON.
pub record HasPlainSsid (address_text : Bytes → Bytes) (packet : Bytes) : Type 0 where
  pub plain : IsPlain ((beacon_key address_text packet).ssid)
  pub ascii : is_ascii ((beacon_key address_text packet).ssid) ≡ true

module _ (p : Platform) (fuel : ℕ) (documented : IsPlatform p)
    (mac_texts : WritesMacTexts documented.address_text) where
  mac_at-text :
      (packet : Bytes) (offset : ℕ)
      → offset ≤ 34
      → IsReadableBeacon p fuel packet
      → IsPlain (documented.address_text (mac_at packet offset))
        × (is_ascii (documented.address_text (mac_at packet offset)) ≡ true)
  mac_at-text packet offset h b =
      let text = documented.address_text (mac_at packet offset) in
      let written =
        mac_texts (mac_at packet offset)
          (length-mac_at packet offset (omega (arith, b.short.ssid.complete))) in
      (is_mac_text-IsPlain text written, is_mac_text-ascii text written)

  IsFrom-texts :
      (packet : Bytes) (old q : PacketInfo)
      → IsReadableBeacon p fuel packet
      → HasPlainSsid documented.address_text packet
      → IsFrom p documented.address_text packet old q
      → ArePlainTexts q × AreAsciiTexts q
  unfolding key_of packet_key
  IsFrom-texts packet old q b h f =
      let ssid : until_nul q.ssid ≡ (beacon_key documented.address_text packet).ssid =
        ap (λ (k : Key). k.ssid) f.key in
      let bssid : until_nul q.ethernet_bss_id
          ≡ documented.address_text (mac_at packet bssid_offset) =
        ap (λ (k : Key). k.bssid)
          (f.key ∙ beacon_key_lem documented.address_text packet b.len b.short) in
      let src_text = mac_at-text packet ether_shost (omega arith) b in
      let dst_text = mac_at-text packet ether_dhost (omega arith) b in
      let bssid_text = mac_at-text packet bssid_offset (omega arith) b in
      (
        record {
          ssid = subst IsPlain (sym ssid) h.plain;
          src = subst IsPlain (sym f.src) src_text.0;
          dst = subst IsPlain (sym f.dst) dst_text.0;
          bssid = subst IsPlain (sym bssid) bssid_text.0;
        },
        record {
          ssid = ap is_ascii ssid ∙ h.ascii;
          src = ap is_ascii f.src ∙ src_text.1;
          dst = ap is_ascii f.dst ∙ dst_text.1;
          bssid = ap is_ascii bssid ∙ bssid_text.1;
        },
      )

  pub IsFromSome-texts :
      (packets : List Bytes)
      → All (IsReadableBeacon p fuel) packets
      → All (HasPlainSsid documented.address_text) packets
      → (qs : List PacketInfo) → All (IsFromSome p documented.address_text packets) qs
      → All ArePlainTexts qs × All AreAsciiTexts qs
  IsFromSome-texts packets b h qs known =
      let both = λ (q : PacketInfo) (f : IsFromSome p documented.address_text packets q).
        IsFrom-texts f.packet f.old q (All-Memᴰ (IsReadableBeacon p fuel) f.among b)
          (All-Memᴰ (HasPlainSsid documented.address_text) f.among h) f.texts in
      (All-map (λ q f. (both q f).0) qs known, All-map (λ q f. (both q f).1) qs known)
