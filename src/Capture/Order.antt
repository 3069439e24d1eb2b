-- ===== src/Capture/Order.antt =====
-- Two captures of the same beacons in another order.
use network_analyser_using_r.Base.{
  ℕ, ◌+◌, ◌<◌, ◌≡◌, refl, ap, ◌∙◌, sym, arith, Bool, true, ◌||◌, Bytes, List, Option, length, All,
}
use network_analyser_using_r.Outcome.{ok}
use network_analyser_using_r.State.{Platform, IsPlatform, Server, max_packet_info_count}
use network_analyser_using_r.State.Slots.{IsServer}
use network_analyser_using_r.Dedup.Spec.{Key, has_key, same_key, keys}
use network_analyser_using_r.Dedup.Tally.{distinct}
use network_analyser_using_r.Callback.Tally.{IsReadableBeacon, beacon_key}
use network_analyser_using_r.Capture.{Pcap, IsPcap, capture_packets}
use network_analyser_using_r.Capture.Correct.{is_ready}
use network_analyser_using_r.Capture.Tally.{packet_keys, capture_packets-has_key}
use mathlib.Core.Bool.{Bool-set}
use mathlib.Core.Logic.{∥∥₁_elim}
use native.Mathlib.Nat.{ℕ_set}
use mathlib.Core.List.{Perm, Permᴰ}
use mathlib.Core.List.Permᴰ.{nil, cons, swap, trans}

-- A capture from libpcap `c` for which every packet is a readable beacon and few keys come.
pub record IsFewCapture (p : Platform) (fuel n : ℕ) (documented : IsPlatform p) (c : Pcap)
    (dev filter : Option Bytes) : Type 0 where
  pub pcap : IsPcap c
  pub ready : is_ready c dev filter ≡ true
  pub beacons : All (IsReadableBeacon p fuel) (c.loop n)
  pub few : length (distinct (packet_keys p fuel documented (c.loop n))) < max_packet_info_count

length-Permᴰ : {a b : List Bytes} → Permᴰ a b → length a ≡ length b
length-Permᴰ nil = refl
length-Permᴰ (cons e m) = omega (arith, length-Permᴰ m)
length-Permᴰ (swap e f) = refl
length-Permᴰ (trans m n) = length-Permᴰ m ∙ length-Permᴰ n

or_swap : (a b c : Bool) → (a || (b || c)) ≡ (b || (a || c))
or_swap a b c = ground arith

module _ (p : Platform) (fuel : ℕ) (documented : IsPlatform p) where
  has_key-Permᴰ :
      (k : Key) {a b : List Bytes}
      → Permᴰ a b
      → has_key (packet_keys p fuel documented a) k ≡ has_key (packet_keys p fuel documented b) k
  unfolding has_key
  has_key-Permᴰ k nil = refl
  has_key-Permᴰ k (cons {a} {b} {l₁ = xs} e m) =
      let f = beacon_key documented.address_text in
      ap (λ x. same_key (f x) k || has_key (packet_keys p fuel documented xs) k) e
      ∙ ap (λ x. same_key (f b) k || x) (has_key-Permᴰ k m)
  has_key-Permᴰ k (swap {a} {b} {a'} {b'} {l = xs} e f) =
      let is = λ (x : Bytes). same_key (beacon_key documented.address_text x) k in
      let rest = has_key (packet_keys p fuel documented xs) k in
      or_swap (is a) (is b) rest
      ∙ ap (λ x. is x || (is a || rest)) f
      ∙ ap (λ x. is a' || (is x || rest)) e
  has_key-Permᴰ k (trans m n) = has_key-Permᴰ k m ∙ has_key-Permᴰ k n

  -- Where two captures meet the same packets in another order, with machine and libpcap as
  -- documented, device and filter accepted, all packets beacons with an SSID of less than 15
  -- bytes and a radiotap header that ends within the fuel, fewer than 50 distinct keys, and
  -- globals that keep the invariant, both return. They capture the same keys, and their packets
  -- kept and counted as duplicates are as many.
  pub capture_packets-Perm :
      (n : ℕ) (c d : Pcap) (dev filter : Option Bytes) (s t : Server)
      → IsFewCapture p fuel n documented c dev filter
      → IsFewCapture p fuel n documented d dev filter
      → IsServer s
      → IsServer t
      → Perm (c.loop n) (d.loop n)
      → (s' : Server) × (t' : Server) × (capture_packets p fuel c dev n filter s ≡ ok s')
        × (capture_packets p fuel d dev n filter t ≡ ok t')
        × ((k : Key) → has_key (keys s') k ≡ has_key (keys t') k)
        × (s'.cur_packet_count + s'.dup_packets_discarded
            ≡ t'.cur_packet_count + t'.dup_packets_discarded)
  capture_packets-Perm n c d dev filter s t g h v w same =
      let (s', e, keys_s, count_s) =
        capture_packets-has_key p fuel documented n c dev filter s g.pcap g.ready g.beacons v
          g.few in
      let (t', f, keys_t, count_t) =
        capture_packets-has_key p fuel documented n d dev filter t h.pcap h.ready h.beacons w
          h.few in
      (
        s',
        t',
        e,
        f,
        (λ k. keys_s k ∙ ∥∥₁_elim same (Bool-set _ _) (has_key-Permᴰ k) ∙ sym (keys_t k)),
        count_s ∙ ∥∥₁_elim same (ℕ_set _ _) length-Permᴰ ∙ sym count_t,
      )
