-- ===== src/Radiotap/Fields.antt =====
-- What the fields of a radiotap header do to the current slot.
use network_analyser_using_r.Base.{
  ℕ, ◌+◌, ◌*◌, ◌≡◌, refl, ◌∙◌, arith, Bytes, List, [], ◌∷◌, Option, some, none, ℤ, equal_int,
  if◌then◌else◌, get_elem?,
}
use network_analyser_using_r.Outcome.{ok, bind_inv}
use network_analyser_using_r.State.{Platform, PacketInfo}
use network_analyser_using_r.Radiotap.{
  store_field, ieee80211_radiotap_rate, ieee80211_radiotap_channel,
  ieee80211_radiotap_dbm_antsignal, ieee80211_radiotap_antenna,
}
use network_analyser_using_r.Radiotap.Loop.{Field, store_fields}
use mathlib.Core.Option

-- The byte `k` behind an argument, where there is one.
unfoldable pub arg_byte : Bytes → Option ℕ → ℕ → ℕ
arg_byte packet none k = 0
arg_byte packet (some a) k = Option.get_or (get_elem? packet (a + k)) 0

-- What the last field with index `i` says, by `read`; `old` where there is none.
unfoldable pub last_value : ℤ → (Option ℕ → ℕ) → List Field → ℕ → ℕ
last_value i read [] old = old
last_value i read ((j, arg) ∷ fs) old =
    last_value i read fs (if equal_int j i then read arg else old)

-- The slot's part that is not a radio measurement.
pub record SameFrame (q q' : PacketInfo) : Type 0 where
  pub type : q'.ethernet_type ≡ q.ethernet_type
  pub ssid : q'.ssid ≡ q.ssid
  pub src : q'.ethernet_src_addr ≡ q.ethernet_src_addr
  pub dst : q'.ethernet_dst_addr ≡ q.ethernet_dst_addr
  pub bssid : q'.ethernet_bss_id ≡ q.ethernet_bss_id

-- The radio measurements of two slots agree.
pub record SameRadio (q q' : PacketInfo) : Type 0 where
  pub rate : q'.data_rate_kbps ≡ q.data_rate_kbps
  pub antenna : q'.antenna ≡ q.antenna
  pub channel : q'.channel ≡ q.channel
  pub power : q'.signal_pwr_dbm_at_antenna ≡ q.signal_pwr_dbm_at_antenna

pub SameFrame-refl : (q : PacketInfo) → SameFrame q q
SameFrame-refl q = record { type = refl; ssid = refl; src = refl; dst = refl; bssid = refl }

pub SameFrame-trans : {q r t : PacketInfo} → SameFrame q r → SameFrame r t → SameFrame q t
SameFrame-trans a b = record {
  type = b.type ∙ a.type;
  ssid = b.ssid ∙ a.ssid;
  src = b.src ∙ a.src;
  dst = b.dst ∙ a.dst;
  bssid = b.bssid ∙ a.bssid;
}

module _ (p : Platform) (packet : Bytes) where
  -- The four measurements after some fields, each from its own last field.
  pub record IsMeasured (fs : List Field) (q q' : PacketInfo) : Type 0 where
    pub rate :
        q'.data_rate_kbps
        ≡ last_value ieee80211_radiotap_rate (λ a. arg_byte packet a 0 * 500) fs q.data_rate_kbps
    pub antenna :
        q'.antenna ≡ last_value ieee80211_radiotap_antenna (λ a. arg_byte packet a 0) fs q.antenna
    pub power :
        q'.signal_pwr_dbm_at_antenna
        ≡ last_value ieee80211_radiotap_dbm_antsignal
            (λ a. arg_byte packet a 0)
            fs
            q.signal_pwr_dbm_at_antenna
    pub channel :
        q'.channel
        ≡ last_value ieee80211_radiotap_channel
            (λ a. p.load_u16 (arg_byte packet a 0) (arg_byte packet a 1))
            fs
            q.channel

  store_field-SameFrame :
      (i : ℤ) (a : Option ℕ) (q q' : PacketInfo)
      → store_field p packet i a q ≡ ok q'
      → SameFrame q q'
  unfolding store_field
  store_field-SameFrame i a q q' h = ground arith

  store_field-IsMeasured :
      (i : ℤ) (a : Option ℕ) (q q' : PacketInfo)
      → store_field p packet i a q ≡ ok q'
      → IsMeasured ((i, a) ∷ []) q q'
  unfolding store_field last_value arg_byte
  store_field-IsMeasured i a q q' h = ground arith

  pub store_fields-SameFrame :
      (fs : List Field) (q q' : PacketInfo) → store_fields p packet fs q ≡ ok q' → SameFrame q q'
  unfolding store_fields
  store_fields-SameFrame [] q q' h = ground arith
  store_fields-SameFrame ((i, a) ∷ fs) q q' h =
      let (r, e, rest) = bind_inv (store_field p packet i a q) (store_fields p packet fs) h in
      SameFrame-trans (store_field-SameFrame i a q r e) (store_fields-SameFrame fs r q' rest)

  IsMeasured-cons :
      (i : ℤ) (a : Option ℕ) (fs : List Field) (q r q' : PacketInfo)
      → IsMeasured ((i, a) ∷ []) q r
      → IsMeasured fs r q'
      → IsMeasured ((i, a) ∷ fs) q q'
  unfolding last_value
  IsMeasured-cons i a fs q r q' h k = record {
    rate = rw (← h.rate) k.rate;
    antenna = rw (← h.antenna) k.antenna;
    power = rw (← h.power) k.power;
    channel = rw (← h.channel) k.channel;
  }

  pub store_fields-IsMeasured :
      (fs : List Field) (q q' : PacketInfo)
      → store_fields p packet fs q ≡ ok q'
      → IsMeasured fs q q'
  unfolding store_fields last_value
  store_fields-IsMeasured [] q q' h = ground arith
  store_fields-IsMeasured ((i, a) ∷ fs) q q' h =
      let (r, e, rest) = bind_inv (store_field p packet i a q) (store_fields p packet fs) h in
      IsMeasured-cons i a fs q r q' (store_field-IsMeasured i a q r e)
        (store_fields-IsMeasured fs r q' rest)
