-- ===== src/Callback/Branches.antt =====
-- The branches of the callback, each against the contract.
use network_analyser_using_r.Base.{
  ℕ, ◌+◌, ◌*◌, ◌<◌, ◌≡◌, ◌≢◌, refl, ap, ◌∙◌, sym, arith, Bool, equal_int, List, Bytes, some, [],
  ◌∷◌, ◌++◌, true, false, length, All-get_elem?, ◌==◌, lt→ltb, ==_iff, ne→==, Bool-cases, inl, inr,
  ℤ, take-set, set, get_elem?, get_elem?-set_ne, get_elem?-set_self,
}
use network_analyser_using_r.Outcome.{ok, ◌>>=◌, bind_inv, ok-injective}
use network_analyser_using_r.State.{
  Platform, IsPlatform, PacketInfo, Server, current, max_packet_info_count,
}
use network_analyser_using_r.State.Slots.{
  IsSlot, IsServer, current_lem, with_current, with_current-IsServer, with_current_self,
}
use network_analyser_using_r.Dedup.Spec.{Key, has_key, diff_before, keys, key_of, captured}
use network_analyser_using_r.Dedup.Scan.{HasKey}
use network_analyser_using_r.Radiotap.{parse_radio_tap, minus_one}
use network_analyser_using_r.Radiotap.Loop.{Field, Yields}
use network_analyser_using_r.Radiotap.Fields.{SameFrame, SameFrame-refl, IsMeasured}
use network_analyser_using_r.Radiotap.Header.{parse_radio_tap-Parsed, init_iterator, init_result}
use network_analyser_using_r.Ethernet.{parse_ethernet, beacon_type, ether_shost, ether_dhost}
use network_analyser_using_r.Ethernet.Address.{mac_at}
use network_analyser_using_r.CString.{c_string}
use network_analyser_using_r.Ethernet.Beacon.{
  HasType, parse_ethernet_other, typed_server, typed_slot, typed_server-found,
  typed_server-IsServer,
}
use network_analyser_using_r.Ethernet.Result.{IsBeaconSlot, ReturnsDuplicate, ReturnsBeacon}
use network_analyser_using_r.Callback.{
  packet_capture_callback, keep_packet, parse_header, count_packet, bufsiz,
}
use network_analyser_using_r.Callback.Step.{
  Step, duplicate, ignored, kept_beacon, kept_other, captured-count_packet, count_packet-IsServer,
  HasKey-key_of,
}

-- The measurements of a slot: those of the fields of the radiotap header, and those of `old` where it
-- has no field of that kind.
pub record IsWalked (p : Platform) (packet : Bytes) (old q : PacketInfo) : Type 0 where
  pub fields : List Field
  pub yields : Yields p packet (init_iterator p packet bufsiz) fields
  pub measured : IsMeasured p packet fields old q

-- The initialisation of the iterator does not return -1.
abbrev pub IsStarted : Platform → Bytes → Type 0
IsStarted p packet = equal_int (init_result p packet bufsiz) minus_one ≡ false

-- A radiotap parse that returns changes measurements of the current slot only.
parse_radio_tap-SameFrame :
    (p : Platform) (packet : Bytes) (fuel : ℕ) (s : Server) (q : PacketInfo) (r : ℤ × Server)
    → current s ≡ ok q
    → s.cur_packet_count < length s.cap_info.packet_info_array
    → parse_radio_tap p packet fuel bufsiz s ≡ ok r
    → (q' : PacketInfo) × SameFrame q q'
      × (r.1 ≡ with_current s q')
      × (IsStarted p packet → IsWalked p packet q q')
parse_radio_tap-SameFrame p packet fuel s q r found room h =
    elim (parse_radio_tap-Parsed p packet fuel bufsiz s q r found room h) [
      | inl (failed, e) ↦ (
        q,
        SameFrame-refl q,
        ap (λ x. x.1) e ∙ sym (with_current_self s q found),
        λ started. absurd (contradicts failed started),
      )
      | inr (fs, q', started, y, e, same, m) ↦
          (q', same, ap (λ x. x.1) e, λ h. record { fields = fs; yields = y; measured = m })
    ]
  where
    contradicts : {b : Bool} → b ≡ true → b ≡ false → ⊥
    contradicts f g = cc

-- The radio measurements that a beacon keeps are those of the slot before.
IsWalked-earlier :
    {p : Platform} {address_text : Bytes → Bytes} {packet : Bytes} {k : Key} {q q1 q2 : PacketInfo}
    → IsBeaconSlot address_text packet k q q1
    → IsWalked p packet q1 q2
    → IsWalked p packet q q2
IsWalked-earlier b w = record {
  fields = w.fields;
  yields = w.yields;
  measured = record {
    rate = rw b.rate at w.measured.rate;
    antenna = rw b.antenna at w.measured.antenna;
    power = rw b.power at w.measured.power;
    channel = rw b.channel at w.measured.channel;
  };
}

SameFrame-IsSlot : {q q' : PacketInfo} → SameFrame q q' → IsSlot q → IsSlot q'
SameFrame-IsSlot e w = record {
  ssid = rw e.ssid w.ssid;
  src = rw e.src w.src;
  dst = rw e.dst w.dst;
  bssid = rw e.bssid w.bssid;
}

SameFrame-HasKey : {q q' : PacketInfo} (k : Key) → SameFrame q q' → HasKey q k → HasKey q' k
SameFrame-HasKey k e h = record { ssid = rw e.ssid h.ssid; bssid = rw e.bssid h.bssid }

current-IsSlot : (s : Server) (q : PacketInfo) → IsServer s → current s ≡ ok q → IsSlot q
current-IsSlot s q v found =
    All-get_elem? IsSlot s.cap_info.packet_info_array s.cur_packet_count v.slots
      (unfold current in ground arith)

-- A beacon with the key `k` and these addresses is appended to the captured packets. A measurement
-- for which its radiotap header has no field is that of `old`, the current slot before.
pub record IsKept (p : Platform) (packet : Bytes) (k : Key) (src_text dst_text : Bytes)
    (s s' : Server) : Type 0 where
  pub q : PacketInfo
  pub named : key_of q ≡ k
  pub src : c_string q.ethernet_src_addr ≡ some src_text
  pub dst : c_string q.ethernet_dst_addr ≡ some dst_text
  pub old : PacketInfo
  pub found : current s ≡ ok old
  pub header : IsStarted p packet → IsWalked p packet old q
  pub beacon : q.ethernet_type ≡ beacon_type
  pub appended : captured s' ≡ captured s ++ (q ∷ [])
  pub count : s'.cur_packet_count ≡ s.cur_packet_count + 1
  pub dups : s'.dup_packets_discarded ≡ s.dup_packets_discarded
  pub diffs :
      s'.packets_same_ssid_diff_bssid ≡ s.packets_same_ssid_diff_bssid + diff_before (keys s) k
  pub valid : IsServer s'
  pub output : s'.output_buff ≡ s.output_buff
  pub placed : get_elem? s'.cap_info.packet_info_array s.cur_packet_count ≡ some q
  pub others :
      (i : ℕ)
      → i ≢ s.cur_packet_count
      → get_elem? s'.cap_info.packet_info_array i ≡ get_elem? s.cap_info.packet_info_array i

module _ (p : Platform) (fuel : ℕ) (packet : Bytes) (s s' : Server) (v : IsServer s)
    (room : s.cur_packet_count < max_packet_info_count) where
  -- After `parse_ethernet`, the rest of the callback.
  pub entered :
      (t : ℕ) (s1 : Server)
      → parse_ethernet p packet s ≡ ok (t, s1)
      → packet_capture_callback p fuel packet s ≡ keep_packet p fuel packet t s1
  unfolding packet_capture_callback
  entered t s1 h = rw (lt→ltb _ _ room, h)

  pub not_kept : (t : ℕ) (s1 : Server) → (t == 0) ≡ true → keep_packet p fuel packet t s1 ≡ ok s1
  unfolding keep_packet
  not_kept t s1 zero_type = rw zero_type

  pub duplicate-Step :
      (k : Key)
      → has_key (keys s) k ≡ true
      → ReturnsDuplicate p packet k s
      → packet_capture_callback p fuel packet s ≡ ok s'
      → Step s s'
  duplicate-Step k dup (s1, parsed, d) h =
      let e : s1 ≡ s' = ok-injective (sym (entered 0 s1 parsed ∙ not_kept 0 s1 refl) ∙ h) in
      rw (← e) (record {
        valid = d.valid;
        output = d.output;
        change = duplicate k dup d.below d.count (rw dup at d.dups) d.diffs;
      })

  -- The radiotap header of a beacon that is kept.
  pub headed :
      (s1 : Server) (q1 : PacketInfo)
      → current s1 ≡ ok q1
      → q1.ethernet_type ≡ beacon_type
      → keep_packet p fuel packet beacon_type s1
        ≡ (parse_radio_tap p packet fuel bufsiz s1 >>= λ r. ok (count_packet r.1))
  unfolding keep_packet parse_header
  headed s1 q1 found1 beacon = rw (found1, (==_iff _ _).1 beacon) (ground arith)

  -- A frame of another type than a beacon is counted with no look at its radiotap header.
  pub kept_plain :
      (t : ℕ) (s1 : Server) (q1 : PacketInfo)
      → (t == 0) ≡ false
      → current s1 ≡ ok q1
      → q1.ethernet_type ≢ beacon_type
      → keep_packet p fuel packet t s1 ≡ ok (count_packet s1)
  unfolding keep_packet parse_header
  kept_plain t s1 q1 nonzero found1 differs = rw (nonzero, found1, ne→== _ _ differs)

  pub beacon-IsKept :
      (address_text : Bytes → Bytes) (k : Key)
      → has_key (keys s) k ≡ false
      → ReturnsBeacon p address_text packet k s
      → packet_capture_callback p fuel packet s ≡ ok s'
      → IsKept p packet k
          (address_text (mac_at packet ether_shost))
          (address_text (mac_at packet ether_dhost))
          s
          s'
  beacon-IsKept address_text k new (s1, q, q1, parsed, d, found, found1, b) h =
      let (r, walked, e) =
        bind_inv (parse_radio_tap p packet fuel bufsiz s1) (λ r. ok (count_packet r.1))
          (sym (entered beacon_type s1 parsed ∙ headed s1 q1 found1 b.type) ∙ h) in
      let inside : s1.cur_packet_count < length s1.cap_info.packet_info_array =
        omega (arith, d.count, d.valid.size) in
      let (q2, same, moved, header) =
        parse_radio_tap-SameFrame p packet fuel s1 q1 r found1 inside walked in
      let counted : s' ≡ count_packet (with_current s1 q2) =
        sym (ok-injective e) ∙ ap count_packet moved in
      rw counted (record {
        q = q2;
        named = HasKey-key_of q2 k (SameFrame-HasKey k same b.key);
        src = ap c_string same.src ∙ b.src;
        dst = ap c_string same.dst ∙ b.dst;
        old = q;
        found = found;
        header = λ started. IsWalked-earlier b (header started);
        beacon = same.type ∙ b.type;
        appended = captured-count_packet s1 q2 inside ∙ ap (λ qs. qs ++ (q2 ∷ [])) d.below;
        count = omega (arith, d.count);
        dups = d.dups ∙ rw new (omega arith);
        diffs = d.diffs;
        valid =
            count_packet-IsServer (with_current s1 q2)
              (with_current-IsServer s1 q2 d.valid
                (SameFrame-IsSlot same (current-IsSlot s1 q1 d.valid found1)))
              (omega (arith, d.count));
        output = d.output;
        placed =
            ap (get_elem? (set s1.cap_info.packet_info_array s1.cur_packet_count q2)) (sym d.count)
            ∙ get_elem?-set_self s1.cap_info.packet_info_array s1.cur_packet_count q2 inside;
        others = λ i ne.
            get_elem?-set_ne s1.cap_info.packet_info_array s1.cur_packet_count i q2
              (λ e. ne (sym e ∙ d.count))
            ∙ d.others i ne;
      })

  pub beacon-Step :
      (k : Key) (src dst : Bytes)
      → has_key (keys s) k ≡ false
      → IsKept p packet k src dst s s'
      → Step s s'
  beacon-Step k src dst new b = record {
    valid = b.valid;
    output = b.output;
    change =
        kept_beacon b.q b.beacon (rw b.named new) b.appended b.count b.dups (rw b.named b.diffs);
  }

  pub other-Step :
      (b0 b1 : ℕ)
      → IsPlatform p
      → HasType packet b0 b1
      → b0 * 256 + b1 ≢ beacon_type
      → packet_capture_callback p fuel packet s ≡ ok s'
      → Step s s'
  other-Step b0 b1 documented ty differs h =
      let (q, found, w) = current_lem s v room in
      let t = b0 * 256 + b1 in
      let s1 = typed_server p documented packet b0 b1 ty s v room q found w in
      let q1 = typed_slot p documented packet b0 b1 ty s v room q found w in
      let v1 = typed_server-IsServer p documented packet b0 b1 ty s v room q found w in
      let e =
        sym (
          entered t s1
            (parse_ethernet_other p documented packet b0 b1 ty s v room q found w differs))
        ∙ h in
      let below : captured s1 ≡ captured s =
        take-set s.cur_packet_count _ s.cur_packet_count q1 (omega arith) in
      elim (Bool-cases (t == 0)) [
        | inl zero_type ↦
            let same : s1 ≡ s' = ok-injective (sym (not_kept t s1 zero_type) ∙ e) in
            rw (← same)
              (record { valid = v1; output = refl; change = ignored below refl refl refl })
        | inr nonzero ↦
            let counted : count_packet s1 ≡ s' = ok-injective (
              sym (
                kept_plain t s1 q1 nonzero
                  (typed_server-found p documented packet b0 b1 ty s v room q found w) differs)
              ∙ e) in
            rw (← counted) (record {
              valid = count_packet-IsServer s1 v1 room;
              output = refl;
              change =
                  kept_other q1 differs (captured-count_packet s q1 (omega (arith, v.size))) refl
                    refl refl;
            })
      ]
