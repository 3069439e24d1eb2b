-- ===== src/Radiotap/Header.antt =====
-- `parseRadioTap` as a whole: what it returns, when it ends, and what it changes.
use network_analyser_using_r.Base.{
  ℕ, zero, suc, ◌<◌, ◌≡◌, ◌≢◌, ◌∙◌, sym, arith, Bytes, List, [], ◌∷◌, true, false, ℤ, pos,
  equal_int, length, Bool-cases, ◌⊎◌, inl, inr,
}
use network_analyser_using_r.Outcome.{ok, ◌>>=◌, bind_inv, ok-injective}
use network_analyser_using_r.State.{Platform, PacketInfo, Server, current}
use network_analyser_using_r.State.Slots.{with_current}
use network_analyser_using_r.Radiotap.{minus_one, parse_radio_tap, radiotap_loop}
use network_analyser_using_r.Radiotap.Loop.{
  Field, Yields, store_fields, radiotap_loop_lem, radiotap_loop-Yields,
}
use network_analyser_using_r.Radiotap.Fields.{
  SameFrame, IsMeasured, store_fields-SameFrame, store_fields-IsMeasured,
}

module _ (p : Platform) (packet : Bytes) where
  open p use {radiotap as rt}

  -- What `ieee80211_radiotap_iterator_init` returns for the packet, and the iterator then.
  abbrev pub init_result : ℕ → ℤ
  init_result buf_len = (rt.init rt.stack packet buf_len).0

  abbrev pub init_iterator : ℕ → rt.Iterator
  init_iterator buf_len = (rt.init rt.stack packet buf_len).1

  -- The iterator after some calls of `ieee80211_radiotap_iterator_next`.
  unfoldable pub after_calls : ℕ → rt.Iterator → rt.Iterator
  after_calls zero it = it
  after_calls (suc n) it = after_calls n (rt.next packet it).1

  -- Where the initialisation of the iterator does not return -1, the iterator yields a list of
  -- fields and then -1, the fuel is above their number, and the current slot is one of the array,
  -- parseRadioTap gives what storing the fields one by one in the current slot gives: 0 and the
  -- changed slot, or a fault.
  pub parse_radio_tap_ends :
      (fs : List Field) (fuel buf_len : ℕ) (s : Server) (q : PacketInfo)
      → equal_int (init_result buf_len) minus_one ≡ false
      → Yields p packet (init_iterator buf_len) fs
      → length fs < fuel
      → current s ≡ ok q
      → s.cur_packet_count < length s.cap_info.packet_info_array
      → parse_radio_tap p packet fuel buf_len s
        ≡ (store_fields p packet fs q >>= λ q'. ok (pos 0, with_current s q'))
  unfolding parse_radio_tap
  parse_radio_tap_ends fs fuel buf_len s q started y enough found room =
      rw started
        (radiotap_loop_lem p packet fs fuel (init_iterator buf_len) s q y enough found room)

  Yields-not_last :
      (fs : List Field) (it : rt.Iterator)
      → ((n : ℕ) → equal_int (rt.next packet (after_calls n it)).0 minus_one ≡ false)
      → ¬ Yields p packet it fs
  unfolding after_calls
  Yields-not_last [] it never y = cc (never 0, y)
  Yields-not_last (f ∷ fs) it never y =
      Yields-not_last fs (rt.next packet it).1 (λ n. never (suc n)) y.2

  -- Where neither the initialisation of the iterator nor any call for the next field returns -1,
  -- such as with another error that repeats, parseRadioTap returns at no fuel.
  pub parse_radio_tap_never :
      (fuel buf_len : ℕ) (s : Server) (r : ℤ × Server)
      → equal_int (init_result buf_len) minus_one ≡ false
      → ((n : ℕ)
          → equal_int (rt.next packet (after_calls n (init_iterator buf_len))).0 minus_one ≡ false)
      → parse_radio_tap p packet fuel buf_len s ≢ ok r
  parse_radio_tap_never fuel buf_len s r started never h =
      let (fs, y, less) =
        radiotap_loop-Yields p packet fuel (init_iterator buf_len) s r (looped h) in
      Yields-not_last fs (init_iterator buf_len) never y
    where
      looped :
          parse_radio_tap p packet fuel buf_len s ≡ ok r
          → radiotap_loop p packet fuel (init_iterator buf_len) s ≡ ok r
      looped e = unfold parse_radio_tap in rw started at e

  -- A call that returns has seen -1 from `init`, and returns -1 with nothing changed, or the end of
  -- the fields, and returns 0 with the current slot changed to hold their measurements and
  -- nothing else.
  abbrev pub Parsed : ℕ → Server → PacketInfo → ℤ × Server → Type 0
  Parsed buf_len s q r =
      ((equal_int (init_result buf_len) minus_one ≡ true) × (r ≡ (minus_one, s)))
      ⊎ ((fs : List Field) × (q' : PacketInfo) × (equal_int (init_result buf_len) minus_one ≡ false)
          × Yields p packet (init_iterator buf_len) fs
          × (r ≡ (pos 0, with_current s q'))
          × SameFrame q q'
          × IsMeasured p packet fs q q')

  -- A call of parseRadioTap that returns, with the current slot in the array, either has seen -1
  -- from the initialisation, returns -1 and changes nothing, or has seen the end of the fields
  -- and returns 0. Then the rate, antenna, power and channel of the current slot come from the
  -- last field of each kind, or are as before where there is none, and nothing else changes.
  pub parse_radio_tap-Parsed :
      (fuel buf_len : ℕ) (s : Server) (q : PacketInfo) (r : ℤ × Server)
      → current s ≡ ok q
      → s.cur_packet_count < length s.cap_info.packet_info_array
      → parse_radio_tap p packet fuel buf_len s ≡ ok r
      → Parsed buf_len s q r
  unfolding parse_radio_tap
  parse_radio_tap-Parsed fuel buf_len s q r found room h =
      elim (Bool-cases (equal_int (init_result buf_len) minus_one)) [
        | inl failed ↦ inl (failed, ground arith)
        | inr started ↦ inr (returned started (rw started at h))
      ]
    where
      returned :
          equal_int (init_result buf_len) minus_one ≡ false
          → radiotap_loop p packet fuel (init_iterator buf_len) s ≡ ok r
          → (fs : List Field) × (q' : PacketInfo) × (equal_int (init_result buf_len) minus_one
              ≡ false)
            × Yields p packet (init_iterator buf_len) fs
            × (r ≡ (pos 0, with_current s q'))
            × SameFrame q q'
            × IsMeasured p packet fs q q'
      returned started looped =
          let (fs, y, less) =
            radiotap_loop-Yields p packet fuel (init_iterator buf_len) s r looped in
          let (q', stored, done) = bind_inv (store_fields p packet fs q) _ (
            sym (radiotap_loop_lem p packet fs fuel (init_iterator buf_len) s q y less found room)
            ∙ looped) in
          (
            fs,
            q',
            started,
            y,
            sym (ok-injective done),
            store_fields-SameFrame p packet fs q q' stored,
            store_fields-IsMeasured p packet fs q q' stored,
          )
