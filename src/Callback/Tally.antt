-- ===== src/Callback/Tally.antt =====
-- The callback on beacons, by their keys alone.
use network_analyser_using_r.Base.{
  ℕ, ◌≡◌, ap, ◌∙◌, sym, arith, Bytes, [], ◌∷◌, ◌++◌, Option, none, some, true, false, get_elem?,
}
use network_analyser_using_r.Outcome.{ok}
use network_analyser_using_r.State.{Platform, IsPlatform, Server}
use network_analyser_using_r.State.Slots.{IsServer}
use network_analyser_using_r.Dedup.Spec.{Key, has_key, key_of, captured, keys}
use network_analyser_using_r.Dedup.Tally.{
  Tally, tally, compared, note_key, note_key-compared, note_key-full, length-keys,
}
use network_analyser_using_r.Ethernet.{tag_length}
use network_analyser_using_r.Ethernet.Key.{packet_key}
use network_analyser_using_r.Ethernet.Total.{IsPacket}
use network_analyser_using_r.Ethernet.Result.{IsShortBeacon, IsSearched}
use network_analyser_using_r.Callback.{packet_capture_callback}
use network_analyser_using_r.Callback.Branches.{IsKept}
use network_analyser_using_r.Callback.Beacon.{
  BeaconChange, no_room, seen, unseen, packet_capture_callback-BeaconChange,
}
use network_analyser_using_r.Callback.Returns.{
  IsHeader, short_beacon, packet_capture_callback-returns,
}
use mathlib.Core.List.{map, map-append}

-- A beacon that the server can take in: a short SSID, and a radiotap header that ends in the fuel.
pub record IsReadableBeacon (p : Platform) (fuel : ℕ) (packet : Bytes) : Type 0 where
  pub len : ℕ
  pub short : IsShortBeacon packet len
  pub header : IsHeader p fuel packet

-- The length of the SSID, or 0 where the packet ends before.
abbrev pub or_zero : Option ℕ → ℕ
or_zero none = 0
or_zero (some len) = len

unfoldable pub ssid_length : Bytes → ℕ
ssid_length packet = or_zero (get_elem? packet tag_length)

-- The SSID and the BSSID of a beacon.
unfoldable pub beacon_key : (Bytes → Bytes) → Bytes → Key
beacon_key address_text packet = packet_key address_text packet (ssid_length packet)

pub beacon_key_lem :
    (address_text : Bytes → Bytes) (packet : Bytes) (len : ℕ)
    → IsShortBeacon packet len
    → beacon_key address_text packet ≡ packet_key address_text packet len
unfolding beacon_key ssid_length
beacon_key_lem address_text packet len b =
    ap (packet_key address_text packet) (ap or_zero b.ssid.tagged)

pub Tally-ext : (t u : Tally) → t.kept ≡ u.kept → t.dups ≡ u.dups → t.diffs ≡ u.diffs → t ≡ u
Tally-ext t u a b c = λ i. record { kept = a i; dups = b i; diffs = c i }

module _ (k : Key) (s s' : Server) where
  searched-tally : has_key (keys s) k ≡ true → IsSearched k s s' → tally s' ≡ compared (tally s) k
  unfolding keys
  searched-tally dup d =
      Tally-ext (tally s') (compared (tally s) k) (rw dup (ap (map key_of) d.below)) d.dups d.diffs

  IsKept-tally :
      (p : Platform) (packet src dst : Bytes)
      → has_key (keys s) k ≡ false
      → IsKept p packet k src dst s s'
      → tally s' ≡ compared (tally s) k
  unfolding keys
  IsKept-tally p packet src dst new b =
      Tally-ext (tally s') (compared (tally s) k)
        (rw new (
          ap (map key_of) b.appended
          ∙ map-append key_of (captured s) (b.q ∷ [])
          ∙ ap (λ l. map key_of (captured s) ++ (l ∷ [])) b.named))
        (rw new (b.dups ∙ omega arith)) b.diffs

module _ (p : Platform) (fuel : ℕ) (packet : Bytes) (s : Server) (documented : IsPlatform p) where
  -- A callback on a beacon that returns notes the key.
  tally-note_key :
      (s' : Server) (b : IsReadableBeacon p fuel packet)
      → IsServer s
      → packet_capture_callback p fuel packet s ≡ ok s'
      → tally s' ≡ note_key (tally s) (beacon_key documented.address_text packet)
  tally-note_key s' b v h =
      rw (beacon_key_lem documented.address_text packet b.len b.short) (
        noted
          (packet_capture_callback-BeaconChange p fuel packet s s' documented b.len b.short v h))
    where
      noted :
          {k : Key} {src dst : Bytes}
          → BeaconChange p packet k src dst s s'
          → tally s' ≡ note_key (tally s) k
      noted {k} (no_room full e) =
          ap tally e ∙ sym (note_key-full (tally s) k (omega (arith, length-keys s v, full)))
      noted {k} (seen room dup d) =
          searched-tally k s s' dup d
          ∙ sym (note_key-compared (tally s) k (omega (arith, length-keys s v, room)))
      noted {k} {src} {dst} (unseen room new kept) =
          IsKept-tally k s s' p packet src dst new kept
          ∙ sym (note_key-compared (tally s) k (omega (arith, length-keys s v, room)))

  pub packet_capture_callback-note_key :
      IsPacket packet
      → IsReadableBeacon p fuel packet
      → IsServer s
      → (s' : Server) × (packet_capture_callback p fuel packet s ≡ ok s')
        × IsServer s'
        × (tally s' ≡ note_key (tally s) (beacon_key documented.address_text packet))
  packet_capture_callback-note_key bytes b v =
      let (s', e, step) =
        packet_capture_callback-returns p fuel packet s documented bytes
          (short_beacon b.len b.short b.header) v in
      (s', e, step.valid, tally-note_key s' b v e)
