-- ===== src/Dedup/Distinct.antt =====
-- Packets whose beacons have keys that no packet before them has.
use network_analyser_using_r.Base.{◌≤◌, ◌≡◌, arith, false, List, [], ◌∷◌, ◌++◌, length}
use network_analyser_using_r.State.{PacketInfo}
use network_analyser_using_r.Ethernet.{beacon_type}
use network_analyser_using_r.Dedup.Spec.{Key, has_key, diff_before, key_of}
use mathlib.Core.List.{map, append_assoc, append-nil}

-- The keys of `seen` stand before the packets.
abbrev pub DistinctAfter : List Key → List PacketInfo → Type 0
DistinctAfter seen [] = Unit
DistinctAfter seen (q ∷ qs) =
    (q.ethernet_type ≡ beacon_type → has_key seen (key_of q) ≡ false)
    × DistinctAfter (seen ++ (key_of q ∷ [])) qs

abbrev pub AreDistinct : List PacketInfo → Type 0
AreDistinct qs = DistinctAfter [] qs

pub DistinctAfter-concat :
    (seen : List Key) (qs : List PacketInfo) (q : PacketInfo)
    → DistinctAfter seen qs
    → (q.ethernet_type ≡ beacon_type → has_key (seen ++ map key_of qs) (key_of q) ≡ false)
    → DistinctAfter seen (qs ++ (q ∷ []))
DistinctAfter-concat seen [] q h new = (λ e. rw append-nil at (new e), tt)
DistinctAfter-concat seen (r ∷ qs) q h new =
    (h.0, DistinctAfter-concat (seen ++ (key_of r ∷ [])) qs q h.1 (λ e. rw append_assoc (new e)))

pub diff_before-le : (ks : List Key) (k : Key) → diff_before ks k ≤ length ks
unfolding diff_before
diff_before-le [] k = omega arith
diff_before-le (a ∷ ks) k = ground (arith, diff_before-le ks k)
