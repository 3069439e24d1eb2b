-- ===== src/Callback/Older.antt =====
-- Where the slots of the array come from, the measurements that a packet leaves out included.
use network_analyser_using_r.Base.{
  ℕ, ◌≤◌, ◌<◌, ◌≡◌, ◌≢◌, ◌⊎◌, ap, ◌∙◌, sym, arith, Bytes, List, Option, some, get_elem?, Bool-cases,
  inl, inr, ◌==◌, ==_iff,
}
use network_analyser_using_r.Outcome.{ok}
use network_analyser_using_r.State.{Platform, IsPlatform, PacketInfo, Server, current}
use network_analyser_using_r.State.Slots.{IsServer}
use network_analyser_using_r.Dedup.Spec.{Key}
use network_analyser_using_r.Radiotap.Fields.{SameRadio}
use network_analyser_using_r.Ethernet.{ether_shost, ether_dhost}
use network_analyser_using_r.Ethernet.Address.{mac_at}
use network_analyser_using_r.Ethernet.Result.{IsSearched}
use network_analyser_using_r.Callback.{packet_capture_callback}
use network_analyser_using_r.Callback.Branches.{IsWalked, IsKept}
use network_analyser_using_r.Callback.Beacon.{
  BeaconChange, no_room, seen, unseen, packet_capture_callback-BeaconChange,
}
use network_analyser_using_r.Callback.Source.{IsFrom, IsKept-IsFrom}
use network_analyser_using_r.Callback.Tally.{IsReadableBeacon, beacon_key, beacon_key_lem}
use mathlib.Core.List.{Memᴰ}

abbrev pub slot_at : Server → ℕ → Option PacketInfo
slot_at s i = get_elem? s.cap_info.packet_info_array i

-- The slot `i` holds `q`, which has the texts and the measurements of one of the packets. A
-- measurement without a field is the one that the slot `i` of `s0` had.
pub record HasSource (p : Platform) (address_text : Bytes → Bytes) (packets : List Bytes)
    (s0 : Server) (i : ℕ) (q : PacketInfo) : Type 0 where
  pub packet : Bytes
  pub among : Memᴰ packet packets
  pub old : PacketInfo
  pub held : slot_at s0 i ≡ some old
  pub texts : IsFrom p address_text packet old q

-- The slot `i` has the measurements that it had in `s0`.
abbrev pub IsUntouched : Server → ℕ → PacketInfo → Type 0
IsUntouched s0 i q = (old : PacketInfo) × (slot_at s0 i ≡ some old) × SameRadio old q

-- The slots in use come from the packets, and the others have the measurements of `s0`.
pub record HasSources (p : Platform) (address_text : Bytes → Bytes) (packets : List Bytes)
    (s0 s : Server) : Type 0 where
  pub used :
      (i : ℕ) (q : PacketInfo)
      → i < s.cur_packet_count
      → slot_at s i ≡ some q
      → HasSource p address_text packets s0 i q
  pub free :
      (i : ℕ) (q : PacketInfo) → s.cur_packet_count ≤ i → slot_at s i ≡ some q → IsUntouched s0 i q

current-slot_at :
    (s : Server) (q : PacketInfo) → current s ≡ ok q → slot_at s s.cur_packet_count ≡ some q
unfolding current
current-slot_at s q h = ground arith

same_slot :
    (s : Server) (i : ℕ) (q r : PacketInfo) → slot_at s i ≡ some q → slot_at s i ≡ some r → q ≡ r
same_slot s i q r e f = cc

SameRadio-trans : {q r t : PacketInfo} → SameRadio q r → SameRadio r t → SameRadio q t
SameRadio-trans a b = record {
  rate = b.rate ∙ a.rate;
  antenna = b.antenna ∙ a.antenna;
  channel = b.channel ∙ a.channel;
  power = b.power ∙ a.power;
}

IsWalked-SameRadio :
    {p : Platform} {packet : Bytes} {old r q : PacketInfo}
    → SameRadio old r
    → IsWalked p packet r q
    → IsWalked p packet old q
IsWalked-SameRadio e w = record {
  fields = w.fields;
  yields = w.yields;
  measured = record {
    rate = rw e.rate at w.measured.rate;
    antenna = rw e.antenna at w.measured.antenna;
    power = rw e.power at w.measured.power;
    channel = rw e.channel at w.measured.channel;
  };
}

IsFrom-SameRadio :
    {p : Platform} {address_text : Bytes → Bytes} {packet : Bytes} {old r q : PacketInfo}
    → SameRadio old r
    → IsFrom p address_text packet r q
    → IsFrom p address_text packet old q
IsFrom-SameRadio e f = record {
  type = f.type;
  key = f.key;
  src = f.src;
  dst = f.dst;
  header = IsWalked-SameRadio e f.header;
}

same_or_other : (i j : ℕ) → (i ≡ j) ⊎ (i ≢ j)
same_or_other i j = elim (Bool-cases (i == j)) [
  | inl same ↦ inl ((==_iff i j).0 same)
  | inr other ↦ inr (ground arith)
]

module _ (p : Platform) (address_text : Bytes → Bytes) (packets : List Bytes) (s0 s s' : Server)
    (h : HasSources p address_text packets s0 s) where
  current-IsUntouched :
      {k : Key} (i : ℕ) (q : PacketInfo)
      → IsSearched k s s'
      → i ≡ s.cur_packet_count
      → slot_at s' i ≡ some q
      → IsUntouched s0 i q
  current-IsUntouched i q d at_current e =
      let (q0, q1, found, found1, same) = d.radio in
      let before : slot_at s i ≡ some q0 = rw at_current (current-slot_at s q0 found) in
      let after : slot_at s' i ≡ some q1 =
        ap (slot_at s') (at_current ∙ sym d.count) ∙ current-slot_at s' q1 found1 in
      let (old, held, kept) = h.free i q0 (omega (arith, at_current)) before in
      (old, held, SameRadio-trans kept (rw (same_slot s' i q1 q after e) at same))

  searched-HasSources : {k : Key} → IsSearched k s s' → HasSources p address_text packets s0 s'
  searched-HasSources d = record {
    used = λ i q below e.
        h.used i q (omega (arith, d.count)) (sym (d.others i (omega (arith, d.count))) ∙ e);
    free = λ i q from e. elim (same_or_other i s.cur_packet_count) [
      | inl at_current ↦ current-IsUntouched i q d at_current e
      | inr other ↦ h.free i q (omega (arith, d.count)) (sym (d.others i other) ∙ e)
    ];
  }

  module _ (packet : Bytes) (among : Memᴰ packet packets) {k : Key} {src dst : Bytes}
      (kept : IsKept p packet k src dst s s')
      (texts : IsFrom p address_text packet kept.old kept.q) where
    kept-HasSource :
        (i : ℕ) (q : PacketInfo)
        → i ≡ s.cur_packet_count
        → slot_at s' i ≡ some q
        → HasSource p address_text packets s0 i q
    kept-HasSource i q at_current e =
        let before : slot_at s i ≡ some kept.old =
          rw at_current (current-slot_at s kept.old kept.found) in
        let (old, held, same) = h.free i kept.old (omega (arith, at_current)) before in
        let now : kept.q ≡ q = same_slot s' i kept.q q (rw at_current kept.placed) e in
        record {
          packet = packet;
          among = among;
          old = old;
          held = held;
          texts = IsFrom-SameRadio same (rw now at texts);
        }

    kept-HasSources : HasSources p address_text packets s0 s'
    kept-HasSources = record {
      used = λ i q below e. elim (same_or_other i s.cur_packet_count) [
        | inl at_current ↦ kept-HasSource i q at_current e
        | inr other ↦ h.used i q (omega (arith, kept.count)) (sym (kept.others i other) ∙ e)
      ];
      free = λ i q from e.
          h.free i q (omega (arith, kept.count))
            (sym (kept.others i (omega (arith, kept.count))) ∙ e);
    }

module _ (p : Platform) (fuel : ℕ) (documented : IsPlatform p) (packets : List Bytes)
    (packet : Bytes) (among : Memᴰ packet packets) (b : IsReadableBeacon p fuel packet)
    (s0 s s' : Server) (h : HasSources p documented.address_text packets s0 s) where
  BeaconChange-HasSources :
      BeaconChange p packet
        (beacon_key documented.address_text packet)
        (documented.address_text (mac_at packet ether_shost))
        (documented.address_text (mac_at packet ether_dhost))
        s
        s'
      → HasSources p documented.address_text packets s0 s'
  BeaconChange-HasSources (no_room full e) = rw e h
  BeaconChange-HasSources (seen room dup d) =
      searched-HasSources p documented.address_text packets s0 s s' h d
  BeaconChange-HasSources (unseen room new kept) =
      kept-HasSources p documented.address_text packets s0 s s' h packet among kept
        (IsKept-IsFrom p fuel documented.address_text packet s s' b kept)

  pub packet_capture_callback-HasSources :
      IsServer s
      → packet_capture_callback p fuel packet s ≡ ok s'
      → HasSources p documented.address_text packets s0 s'
  packet_capture_callback-HasSources v ran = BeaconChange-HasSources (
      rw (beacon_key_lem documented.address_text packet b.len b.short)
        (packet_capture_callback-BeaconChange p fuel packet s s' documented b.len b.short v ran))
