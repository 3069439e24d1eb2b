-- ===== src/Radiotap/Walk.antt =====
-- The fields of a radiotap header as a list, and headers that have a field of each kind.
use network_analyser_using_r.Base.{
  ℕ, zero, suc, ◌<◌, ◌≡◌, refl, ap, arith, Bool, true, false, ◌&&◌, ◌||◌, Bytes, List, [], ◌∷◌,
  Option, ℤ, equal_int, length, Bool-cases, inl, inr,
}
use network_analyser_using_r.State.{Platform}
use network_analyser_using_r.Radiotap.{
  minus_one, ieee80211_radiotap_rate, ieee80211_radiotap_channel, ieee80211_radiotap_dbm_antsignal,
  ieee80211_radiotap_antenna,
}
use network_analyser_using_r.Radiotap.Loop.{Field, Yields}
use network_analyser_using_r.Radiotap.Fields.{last_value}

module _ (p : Platform) (packet : Bytes) where
  open p use {radiotap as rt}

  -- The fields that the iterator yields from `it` on, with as many calls as there is fuel.
  unfoldable pub walk : ℕ → rt.Iterator → List Field
  walk zero it = []
  walk (suc fuel) it =
      let (ret, it') = rt.next packet it in
      elim (equal_int ret minus_one) [
        | true ↦ []
        | false ↦ (rt.this_arg_index it', rt.this_arg it') ∷ walk fuel it'
      ]

  pub walk-Yields :
      (fs : List Field) (fuel : ℕ) (it : rt.Iterator)
      → Yields p packet it fs
      → length fs < fuel
      → walk fuel it ≡ fs
  unfolding walk
  walk-Yields fs zero it y less = absurd (omega arith)
  walk-Yields [] (suc fuel) it y less = rw (y, walk) refl
  walk-Yields (f ∷ fs) (suc fuel) it y less =
      rw (y.0, walk, y.1)
        (ap
          (λ gs. (rt.this_arg_index (rt.next packet it).1, rt.this_arg (rt.next packet it).1) ∷ gs)
          (walk-Yields fs fuel (rt.next packet it).1 y.2 (omega arith)))

  pub Yields-unique :
      (fs gs : List Field) (it : rt.Iterator)
      → Yields p packet it fs
      → Yields p packet it gs
      → fs ≡ gs
  Yields-unique [] [] it y z = refl
  Yields-unique [] (g ∷ gs) it y z = cc (y, z.0)
  Yields-unique (f ∷ fs) [] it y z = cc (y.0, z)
  Yields-unique (f ∷ fs) (g ∷ gs) it y z =
      let rest = Yields-unique fs gs (rt.next packet it).1 y.2 z.2 in rw (y.1, z.1, rest) refl

-- Some field has the index.
unfoldable pub has_field : ℤ → List Field → Bool
has_field i [] = false
has_field i ((j, arg) ∷ fs) = equal_int j i || has_field i fs

-- A field of each of the four kinds that are kept.
unfoldable pub has_measurements : List Field → Bool
unfolding has_field
has_measurements fs =
    has_field ieee80211_radiotap_rate fs
    && (has_field ieee80211_radiotap_antenna fs
        && (has_field ieee80211_radiotap_dbm_antsignal fs
            && has_field ieee80211_radiotap_channel fs))

-- Where there is such a field, nothing older is left.
pub last_value-has_field :
    (i : ℤ) (read : Option ℕ → ℕ) (fs : List Field) (old older : ℕ)
    → has_field i fs ≡ true
    → last_value i read fs old ≡ last_value i read fs older
unfolding last_value has_field
last_value-has_field i read [] old older h = cc
last_value-has_field i read ((j, arg) ∷ fs) old older h = elim (Bool-cases (equal_int j i)) [
  | inl same ↦ rw same refl
  | inr other ↦ rw other (last_value-has_field i read fs old older (rw other at h))
]

pub has_measurements_inv :
    (fs : List Field)
    → has_measurements fs ≡ true
    → (has_field ieee80211_radiotap_rate fs ≡ true)
      × (has_field ieee80211_radiotap_antenna fs ≡ true)
      × (has_field ieee80211_radiotap_dbm_antsignal fs ≡ true)
      × (has_field ieee80211_radiotap_channel fs ≡ true)
unfolding has_measurements
has_measurements_inv fs h = ground arith
