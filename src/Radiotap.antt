-- ===== src/Radiotap.antt =====
-- `parseRadioTap`: the fields of the radiotap header that a slot keeps.
pub mod Loop
pub mod Fields
pub mod Header
pub mod Walk
pub mod Ranges
use network_analyser_using_r.Base.{
  ℕ, zero, suc, ◌+◌, ◌*◌, ◌%◌, Bool, true, false, not, Bytes, ℤ, pos, negsuc, equal_int,
  if◌then◌else◌, Option,
}
use network_analyser_using_r.Outcome.{Outcome, ok, hang, load, or_fault, ◌>>=◌}
use network_analyser_using_r.State.{
  PacketInfo, Server, Platform, RadiotapParser, current, put_current,
}

-- The indices of `ieee80211_radiotap.h` that the `switch` names.
abbrev pub ieee80211_radiotap_rate : ℤ
ieee80211_radiotap_rate = pos 2

abbrev pub ieee80211_radiotap_channel : ℤ
ieee80211_radiotap_channel = pos 3

abbrev pub ieee80211_radiotap_dbm_antsignal : ℤ
ieee80211_radiotap_dbm_antsignal = pos 5

abbrev pub ieee80211_radiotap_antenna : ℤ
ieee80211_radiotap_antenna = pos 11

-- `-1`, and `-ENOENT`.
abbrev pub minus_one : ℤ
minus_one = negsuc 0

abbrev pub minus_enoent : ℤ
minus_enoent = negsuc 1

-- `*iterator.this_arg`; a NULL or outside pointer faults.
abbrev pub this_arg_byte : Bytes → Option ℕ → ℕ → Outcome ℕ
this_arg_byte packet arg k = or_fault arg >>= λ a. load packet (a + k)

module _ (p : Platform) (packet : Bytes) where
  -- The `switch` on `iterator.this_arg_index`, on the current slot.
  unfoldable pub store_field : ℤ → Option ℕ → PacketInfo → Outcome PacketInfo
  store_field index arg q =
      if equal_int index ieee80211_radiotap_rate
      then (do b ← this_arg_byte packet arg 0; ok (record q { data_rate_kbps = b * 500 }))
      else if equal_int index ieee80211_radiotap_antenna
      then (do b ← this_arg_byte packet arg 0; ok (record q { antenna = b }))
      else if equal_int index ieee80211_radiotap_dbm_antsignal
      then (do b ← this_arg_byte packet arg 0; ok (record q { signal_pwr_dbm_at_antenna = b }))
      else if equal_int index ieee80211_radiotap_channel
      then (do
        b0 ← this_arg_byte packet arg 0
        b1 ← this_arg_byte packet arg 1
        ok (record q { channel = p.load_u16 b0 b1 }))
      else ok q

  open p use {radiotap as rt}

  -- The `while` loop. The round under `elim` waits for the test.
  unfoldable pub radiotap_loop : ℕ → rt.Iterator → Server → Outcome (ℤ × Server)
  radiotap_loop zero it s = hang
  radiotap_loop (suc fuel) it s =
      let (ret, it') = rt.next packet it in
      elim (equal_int ret minus_one) [
        | true ↦ ok (pos 0, s)
        | false ↦ do
          q ← current s
          q' ← store_field (rt.this_arg_index it') (rt.this_arg it') q
          s' ← put_current s q'
          radiotap_loop fuel it' s'
      ]

  -- What follows the loop, where `ret` is -1 from the start.
  abbrev after_loop : ℤ → ℤ
  after_loop ret = if not (equal_int ret minus_enoent) then minus_one else pos 0

  unfoldable pub parse_radio_tap : ℕ → ℕ → Server → Outcome (ℤ × Server)
  parse_radio_tap fuel packet_buf_len s =
      let (ret, it) = rt.init rt.stack packet packet_buf_len in
      if equal_int ret minus_one then ok (after_loop ret, s) else radiotap_loop fuel it s
