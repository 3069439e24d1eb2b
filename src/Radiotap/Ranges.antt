-- ===== src/Radiotap/Ranges.antt =====
-- `parseRadioTap` keeps the radio measurements in range, on packets of bytes.
use network_analyser_using_r.Base.{
  ℕ, zero, suc, ◌+◌, ◌*◌, ◌<◌, ◌≡◌, ◌∙◌, sym, arith, Bool, true, false, Bytes, ℤ, Option, All,
  All-get_elem?, equal_int, if◌then◌else◌, Bool-cases, inl, inr, ◌⊎◌,
}
use network_analyser_using_r.Outcome.{ok, ◌>>=◌, bind_inv, ok-injective, or_fault}
use network_analyser_using_r.State.{Platform, IsPlatform, PacketInfo, Server, current, put_current}
use network_analyser_using_r.State.Ranges.{
  HasRanges, IsRanged, current-HasRanges, put_current-IsRanged,
}
use network_analyser_using_r.Radiotap.Loop.{radiotap_loop-last, radiotap_loop-more}
use network_analyser_using_r.Radiotap.{
  this_arg_byte, store_field, radiotap_loop, parse_radio_tap, minus_one, ieee80211_radiotap_rate,
  ieee80211_radiotap_antenna, ieee80211_radiotap_dbm_antsignal, ieee80211_radiotap_channel,
}

module _ (p : Platform) (packet : Bytes) (documented : IsPlatform p)
    (bytes : All (λ b. b < 256) packet) where
  open p use {radiotap as rt}

  this_arg_byte-lt : (arg : Option ℕ) (k b : ℕ) → this_arg_byte packet arg k ≡ ok b → b < 256
  this_arg_byte-lt arg k b h =
      let (a, e, h1) = bind_inv (or_fault arg) _ h in
      All-get_elem? (λ b. b < 256) packet (a + k) bytes (ground arith)

  store_field-HasRanges :
      (i : ℤ) (arg : Option ℕ) (q q' : PacketInfo)
      → HasRanges q
      → store_field p packet i arg q ≡ ok q'
      → HasRanges q'
  unfolding store_field
  store_field-HasRanges i arg q q' w h =
      decided (equal_int i ieee80211_radiotap_rate) (equal_int i ieee80211_radiotap_antenna)
        (equal_int i ieee80211_radiotap_dbm_antsignal) (equal_int i ieee80211_radiotap_channel) h
    where
      decided :
          (is_rate is_antenna is_signal is_channel : Bool)
          → (if is_rate
              then (this_arg_byte packet arg 0 >>= λ b. ok (record q { data_rate_kbps = b * 500 }))
              else if is_antenna
              then (this_arg_byte packet arg 0 >>= λ b. ok (record q { antenna = b }))
              else if is_signal
              then (this_arg_byte packet arg 0 >>= λ b.
                  ok (record q { signal_pwr_dbm_at_antenna = b }))
              else if is_channel
              then (this_arg_byte packet arg 0 >>= λ b0.
                  this_arg_byte packet arg 1 >>= λ b1. ok (record q { channel = p.load_u16 b0 b1 }))
              else ok q)
            ≡ ok q'
          → HasRanges q'
      decided true _ _ _ e =
          let (b, found, e1) = bind_inv (this_arg_byte packet arg 0) _ e in
          rw (← ok-injective e1) (record {
            rate = omega (arith, this_arg_byte-lt arg 0 b found);
            antenna = w.antenna;
            channel = w.channel;
            power = w.power;
          })
      decided false true _ _ e =
          let (b, found, e1) = bind_inv (this_arg_byte packet arg 0) _ e in
          rw (← ok-injective e1) (record {
            rate = w.rate;
            antenna = omega (arith, this_arg_byte-lt arg 0 b found);
            channel = w.channel;
            power = w.power;
          })
      decided false false true _ e =
          let (b, found, e1) = bind_inv (this_arg_byte packet arg 0) _ e in
          rw (← ok-injective e1) (record {
            rate = w.rate;
            antenna = w.antenna;
            channel = w.channel;
            power = omega (arith, this_arg_byte-lt arg 0 b found);
          })
      decided false false false true e =
          let (b0, found0, e1) = bind_inv (this_arg_byte packet arg 0) _ e in
          let (b1, found1, e2) = bind_inv (this_arg_byte packet arg 1) _ e1 in
          rw (← ok-injective e2) (record {
            rate = w.rate;
            antenna = w.antenna;
            channel = omega (
              arith,
              documented.load_u16-lt b0 b1 (this_arg_byte-lt arg 0 b0 found0)
                  (this_arg_byte-lt arg 1 b1 found1),
            );
            power = w.power;
          })
      decided false false false false e = rw (← ok-injective e) w

  radiotap_loop-IsRanged :
      (fuel : ℕ) (it : rt.Iterator) (s : Server) (r : ℤ × Server)
      → IsRanged s
      → radiotap_loop p packet fuel it s ≡ ok r
      → IsRanged r.1
  radiotap_loop-IsRanged zero it s r v h = absurd (unfold radiotap_loop in ground arith)
  radiotap_loop-IsRanged (suc fuel) it s r v h =
      seen (radiotap_loop-IsRanged fuel (rt.next packet it).1)
        (Bool-cases (equal_int (rt.next packet it).0 minus_one))
    where
      it' : rt.Iterator
      it' = (rt.next packet it).1

      seen :
          ((s : Server) (r : ℤ × Server)
            → IsRanged s
            → radiotap_loop p packet fuel it' s ≡ ok r
            → IsRanged r.1)
          → (equal_int (rt.next packet it).0 minus_one ≡ true)
            ⊎ (equal_int (rt.next packet it).0 minus_one ≡ false)
          → IsRanged r.1
      seen ih (inl last) =
          rw (← ok-injective (sym (radiotap_loop-last p packet fuel it s last) ∙ h)) v
      seen ih (inr more) =
          let (q, found, h1) =
            bind_inv (current s) _ (sym (radiotap_loop-more p packet fuel it s more) ∙ h) in
          let (q', stored, h2) =
            bind_inv (store_field p packet (rt.this_arg_index it') (rt.this_arg it') q) _ h1 in
          let (s', put, h3) = bind_inv (put_current s q') _ h2 in
          let w =
            store_field-HasRanges (rt.this_arg_index it') (rt.this_arg it') q q'
              (current-HasRanges s q v found) stored in
          ih s' r (put_current-IsRanged s s' q' v w put) h3

  pub parse_radio_tap-IsRanged :
      (fuel buf_len : ℕ) (s : Server) (r : ℤ × Server)
      → IsRanged s
      → parse_radio_tap p packet fuel buf_len s ≡ ok r
      → IsRanged r.1
  unfolding parse_radio_tap
  parse_radio_tap-IsRanged fuel buf_len s r v h =
      elim (Bool-cases (equal_int (rt.init rt.stack packet buf_len).0 minus_one)) [
        | inl failed ↦ rw (← ok-injective (rw failed at h)) v
        | inr started ↦ radiotap_loop-IsRanged fuel _ s r v (rw started at h)
      ]
