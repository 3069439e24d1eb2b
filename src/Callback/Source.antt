-- ===== src/Callback/Source.antt =====
-- The packets that the captured slots come from.
use network_analyser_using_r.Base.{ℕ, ◌≡◌, sym, Bytes, List, [], ◌∷◌, ◌++◌, All}
use network_analyser_using_r.Outcome.{ok}
use network_analyser_using_r.CString.{until_nul}
use network_analyser_using_r.CString.Text.{c_string-until_nul}
use network_analyser_using_r.State.{Platform, IsPlatform, PacketInfo, Server}
use network_analyser_using_r.State.Slots.{IsServer}
use network_analyser_using_r.Dedup.Spec.{key_of, captured}
use network_analyser_using_r.Ethernet.{ether_shost, ether_dhost, beacon_type}
use network_analyser_using_r.Ethernet.Address.{mac_at}
use network_analyser_using_r.Callback.{packet_capture_callback}
use network_analyser_using_r.Callback.Branches.{IsWalked, IsKept}
use network_analyser_using_r.Callback.Beacon.{
  BeaconChange, no_room, seen, unseen, packet_capture_callback-BeaconChange,
}
use network_analyser_using_r.Callback.Tally.{IsReadableBeacon, beacon_key, beacon_key_lem}
use mathlib.Core.List.{Memᴰ}

-- The slot has the texts of the packet and the measurements of its radiotap header, or those of `old`
-- where that has no field.
pub record IsFrom (p : Platform) (address_text : Bytes → Bytes) (packet : Bytes)
    (old q : PacketInfo) : Type 0 where
  pub type : q.ethernet_type ≡ beacon_type
  pub key : key_of q ≡ beacon_key address_text packet
  pub src : until_nul q.ethernet_src_addr ≡ address_text (mac_at packet ether_shost)
  pub dst : until_nul q.ethernet_dst_addr ≡ address_text (mac_at packet ether_dhost)
  pub header : IsWalked p packet old q

-- The slot comes from one of the packets, but for measurements without a field.
pub record IsFromSome (p : Platform) (address_text : Bytes → Bytes) (packets : List Bytes)
    (q : PacketInfo) : Type 0 where
  pub packet : Bytes
  pub among : Memᴰ packet packets
  pub old : PacketInfo
  pub texts : IsFrom p address_text packet old q

All-concat :
    (P : PacketInfo → Type 0) (qs : List PacketInfo) (q : PacketInfo)
    → All P qs
    → P q
    → All P (qs ++ (q ∷ []))
All-concat P [] q h p = (p, tt)
All-concat P (x ∷ qs) q h p = (h.0, All-concat P qs q h.1 p)

pub IsKept-IsFrom :
    (p : Platform) (fuel : ℕ) (address_text : Bytes → Bytes) (packet : Bytes) (s s' : Server)
    → IsReadableBeacon p fuel packet
    → (kept : IsKept p packet
        (beacon_key address_text packet)
        (address_text (mac_at packet ether_shost))
        (address_text (mac_at packet ether_dhost))
        s
        s')
    → IsFrom p address_text packet kept.old kept.q
IsKept-IsFrom p fuel address_text packet s s' b kept = record {
  type = kept.beacon;
  key = kept.named;
  src = sym (c_string-until_nul kept.q.ethernet_src_addr kept.src);
  dst = sym (c_string-until_nul kept.q.ethernet_dst_addr kept.dst);
  header = kept.header b.header.started;
}

module _ (p : Platform) (fuel : ℕ) (documented : IsPlatform p) (packets : List Bytes)
    (packet : Bytes) (among : Memᴰ packet packets) (b : IsReadableBeacon p fuel packet)
    (s s' : Server) where
  abbrev Known : Server → Type 0
  Known t = All (IsFromSome p documented.address_text packets) (captured t)

  BeaconChange-IsFromSome :
      BeaconChange p packet
        (beacon_key documented.address_text packet)
        (documented.address_text (mac_at packet ether_shost))
        (documented.address_text (mac_at packet ether_dhost))
        s
        s'
      → Known s
      → Known s'
  BeaconChange-IsFromSome (no_room full e) known = rw e known
  BeaconChange-IsFromSome (seen room dup d) known = rw d.below known
  BeaconChange-IsFromSome (unseen room new kept) known = rw kept.appended (
      All-concat (IsFromSome p documented.address_text packets) (captured s) kept.q known (record {
        packet = packet;
        among = among;
        old = kept.old;
        texts = IsKept-IsFrom p fuel documented.address_text packet s s' b kept;
      }))

  pub packet_capture_callback-IsFromSome :
      IsServer s → packet_capture_callback p fuel packet s ≡ ok s' → Known s → Known s'
  packet_capture_callback-IsFromSome v h = BeaconChange-IsFromSome (
      rw (beacon_key_lem documented.address_text packet b.len b.short)
        (packet_capture_callback-BeaconChange p fuel packet s s' documented b.len b.short v h))
