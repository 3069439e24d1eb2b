-- ===== src/Dedup/Tally.antt =====
-- What a capture of beacons leaves, from their keys alone.
use network_analyser_using_r.Base.{
  ℕ, ◌+◌, ◌≤◌, ◌<◌, ◌≡◌, refl, ap, ◌∙◌, arith, Bool, true, false, ◌||◌, List, [], ◌∷◌, ◌++◌, length,
  ltb, if◌then◌else◌, take, length-take, length-map, length-append, take_le, take-append, le→ltb,
  suc, Bytes, ◌⊎◌, Bool-cases, inl, inr, ltb→lt, lt→ltb, sym,
}
use network_analyser_using_r.State.{Server, max_packet_info_count}
use network_analyser_using_r.State.Slots.{IsServer}
use network_analyser_using_r.CString.{same_text}
use network_analyser_using_r.Dedup.Spec.{
  Key, same_key, has_key, diff_before, key_of, captured, keys,
}
use mathlib.Core.List.{append-nil, append_assoc}

-- The keys kept, in order, and both statistics.
pub record Tally : Type 0 where
  pub kept : List Key
  pub dups : ℕ
  pub diffs : ℕ

abbrev pub tally : Server → Tally
tally s = record {
  kept = keys s;
  dups = s.dup_packets_discarded;
  diffs = s.packets_same_ssid_diff_bssid;
}

abbrev pub empty_tally : Tally
empty_tally = record { kept = []; dups = 0; diffs = 0 }

-- One beacon with its key compared to those kept.
abbrev pub compared : Tally → Key → Tally
compared t k = record {
  kept = if has_key t.kept k then t.kept else t.kept ++ (k ∷ []);
  dups = t.dups + (if has_key t.kept k then 1 else 0);
  diffs = t.diffs + diff_before t.kept k;
}

-- Nothing happens once 50 keys are kept.
unfoldable pub note_key : Tally → Key → Tally
note_key t k = if ltb (length t.kept) max_packet_info_count then compared t k else t

unfoldable pub note_keys : Tally → List Key → Tally
note_keys t [] = t
note_keys t (k ∷ ks) = note_keys (note_key t k) ks

-- The keys in the order of their first occurrence, behind those of `seen`.
unfoldable pub distinct_onto : List Key → List Key → List Key
distinct_onto seen [] = seen
distinct_onto seen (k ∷ ks) = distinct_onto (if has_key seen k then seen else seen ++ (k ∷ [])) ks

unfoldable pub distinct : List Key → List Key
distinct ks = distinct_onto [] ks

pub length-keys : (s : Server) → IsServer s → length (keys s) ≡ s.cur_packet_count
unfolding keys
length-keys s v =
    length-map (captured s) key_of
    ∙ length-take s.cur_packet_count s.cap_info.packet_info_array (omega (arith, v.within, v.size))

distinct_onto-extends :
    (seen ks : List Key) → (more : List Key) × (distinct_onto seen ks ≡ seen ++ more)
unfolding distinct_onto
distinct_onto-extends seen [] = ([], sym (append-nil seen))
distinct_onto-extends seen (k ∷ ks) = elim (Bool-cases (has_key seen k)) [
  | inl dup ↦ let (more, e) = distinct_onto-extends seen ks in (more, rw dup e)
  | inr new ↦
      let (more, e) = distinct_onto-extends (seen ++ (k ∷ [])) ks in
      (k ∷ more, rw new (e ∙ append_assoc seen (k ∷ []) more))
]

length-distinct_onto : (seen ks : List Key) → length seen ≤ length (distinct_onto seen ks)
length-distinct_onto seen ks =
    let (more, e) = distinct_onto-extends seen ks in
    omega (arith, ap length e, length-append seen more)

pub note_key-compared :
    (t : Tally) (k : Key) → length t.kept < max_packet_info_count → note_key t k ≡ compared t k
unfolding note_key
note_key-compared t k h = rw (lt→ltb _ _ h)

pub note_key-full : (t : Tally) (k : Key) → max_packet_info_count ≤ length t.kept → note_key t k ≡ t
unfolding note_key
note_key-full t k h = rw (le→ltb _ _ h)

note_keys-full :
    (t : Tally) (ks : List Key) → max_packet_info_count ≤ length t.kept → note_keys t ks ≡ t
unfolding note_keys
note_keys-full t [] h = refl
note_keys-full t (k ∷ ks) h = rw (note_key-full t k h) (note_keys-full t ks h)

-- Noting keys keeps the first 50 of the distinct ones.
pub kept-note_keys :
    (t : Tally) (ks : List Key)
    → length t.kept ≤ max_packet_info_count
    → (note_keys t ks).kept ≡ take max_packet_info_count (distinct_onto t.kept ks)
unfolding note_keys distinct_onto
kept-note_keys t [] h = sym (take_le max_packet_info_count t.kept h)
kept-note_keys t (k ∷ ks) h = elim (Bool-cases (ltb (length t.kept) max_packet_info_count)) [
  | inl room ↦
      ap (λ (u : Tally). (note_keys u ks).kept) (note_key-compared t k (ltb→lt _ _ room))
      ∙ kept-note_keys (compared t k) ks (shorter (ltb→lt _ _ room) (has_key t.kept k))
  | inr full ↦
      let (more, e) = distinct_onto-extends t.kept (k ∷ ks) in
      let n : length t.kept ≡ max_packet_info_count = ground arith in
      ap (λ (u : Tally). u.kept) (note_keys-full t (k ∷ ks) (omega arith))
      ∙ sym (take-append t.kept more)
      ∙ ap (λ n. take n (t.kept ++ more)) n
      ∙ ap (take max_packet_info_count) (sym e)
]
  where
    shorter :
        length t.kept < max_packet_info_count
        → (b : Bool) → length (if b then t.kept else t.kept ++ (k ∷ [])) ≤ max_packet_info_count
    shorter lt true = omega arith
    shorter lt false = omega (arith, length-append t.kept (k ∷ []))

-- With fewer than 50 distinct keys, each key is either kept or counted as a duplicate.
pub dups-note_keys :
    (t : Tally) (ks : List Key)
    → length (distinct_onto t.kept ks) < max_packet_info_count
    → (note_keys t ks).dups + length (note_keys t ks).kept ≡ t.dups + length t.kept + length ks
unfolding note_keys distinct_onto
dups-note_keys t [] h = omega arith
dups-note_keys t (k ∷ ks) h =
    let room : length t.kept < max_packet_info_count =
      omega (arith, length-distinct_onto t.kept (k ∷ ks)) in
    ap (λ (u : Tally). (note_keys u ks).dups + length (note_keys u ks).kept)
      (note_key-compared t k room)
    ∙ dups-note_keys (compared t k) ks h
    ∙ counted (has_key t.kept k)
  where
    counted :
        (b : Bool)
        → t.dups
            + (if b then 1 else 0)
            + length (if b then t.kept else t.kept ++ (k ∷ []))
            + length ks
          ≡ t.dups + length t.kept + suc (length ks)
    counted true = omega arith
    counted false = omega (arith, length-append t.kept (k ∷ []))

same_text-eq : (a b : Bytes) → same_text a b ≡ true → a ≡ b
unfolding same_text
same_text-eq [] [] h = refl
same_text-eq (c ∷ a) (d ∷ b) h = ground (arith, same_text-eq a b)
same_text-eq [] (d ∷ b) h = cc
same_text-eq (c ∷ a) [] h = cc

same_key-eq : (a b : Key) → same_key a b ≡ true → a ≡ b
unfolding same_key
same_key-eq a b h = ground (arith, same_text-eq a.ssid b.ssid, same_text-eq a.bssid b.bssid)

has_key-append :
    (ks ls : List Key) (k : Key) → has_key (ks ++ ls) k ≡ (has_key ks k || has_key ls k)
unfolding has_key
has_key-append [] ls k = refl
has_key-append (a ∷ ks) ls k = ground (arith, has_key-append ks ls k)

-- The distinct keys are those of the list.
pub has_key-distinct_onto :
    (seen ks : List Key) (k : Key)
    → has_key (distinct_onto seen ks) k ≡ (has_key seen k || has_key ks k)
unfolding distinct_onto
has_key-distinct_onto seen [] k = unfold has_key in ground arith
has_key-distinct_onto seen (a ∷ ks) k = elim (Bool-cases (has_key seen a)) [
  | inl dup ↦ rw dup (has_key-distinct_onto seen ks k ∙ absorbed dup (Bool-cases (same_key a k)))
  | inr new ↦ rw new (
      has_key-distinct_onto (seen ++ (a ∷ [])) ks k
      ∙ ap (λ b. b || has_key ks k) (has_key-append seen (a ∷ []) k)
      ∙ unfold has_key in ground arith)
]
  where
    absorbed :
        has_key seen a ≡ true
        → (same_key a k ≡ true) ⊎ (same_key a k ≡ false)
        → (has_key seen k || has_key ks k) ≡ (has_key seen k || has_key (a ∷ ks) k)
    absorbed dup (inl same) =
        let e = ap (has_key seen) (same_key-eq a k same) in unfold has_key in ground arith
    absorbed dup (inr other) = unfold has_key in ground arith
