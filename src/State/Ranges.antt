-- ===== src/State/Ranges.antt =====
-- Radio measurements in the range of their fields.
use network_analyser_using_r.Base.{
  ◌≤◌, ◌≡◌, arith, All, All-get_elem?, All-set, length, ltb, Bool-cases, inl, inr,
}
use network_analyser_using_r.Outcome.{ok, fault, ok-injective}
use network_analyser_using_r.State.{PacketInfo, Server, current, put_current}

-- A byte of 500 kbps units, a byte, 16 bits, and a byte.
pub record HasRanges (q : PacketInfo) : Type 0 where
  pub rate : q.data_rate_kbps ≤ 127500
  pub antenna : q.antenna ≤ 255
  pub channel : q.channel ≤ 65535
  pub power : q.signal_pwr_dbm_at_antenna ≤ 255

-- So they are in all slots, used or not.
abbrev pub IsRanged : Server → Type 0
IsRanged s = All HasRanges s.cap_info.packet_info_array

pub current-HasRanges : (s : Server) (q : PacketInfo) → IsRanged s → current s ≡ ok q → HasRanges q
unfolding current
current-HasRanges s q v h =
    All-get_elem? HasRanges s.cap_info.packet_info_array s.cur_packet_count v (ground arith)

pub put_current-IsRanged :
    (s s' : Server) (q : PacketInfo)
    → IsRanged s
    → HasRanges q
    → put_current s q ≡ ok s'
    → IsRanged s'
unfolding put_current
put_current-IsRanged s s' q v r h =
    elim (Bool-cases (ltb s.cur_packet_count (length s.cap_info.packet_info_array))) [
      | inl inside ↦
          rw (← ok-injective (rw inside at h))
            (All-set HasRanges s.cap_info.packet_info_array s.cur_packet_count q v r)
      | inr outside ↦ absurd (faults (rw outside at h))
    ]
  where
    faults : fault ≡ ok s' → ⊥
    faults e = cc
