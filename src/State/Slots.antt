-- ===== src/State/Slots.antt =====
-- The invariant of the global variables, and reads and writes of the current slot under it.
use network_analyser_using_r.Base.{
  ℕ, ◌<◌, ◌≤◌, ◌≡◌, refl, ap, arith, some, Bytes, length, get_elem?, set, All, All-set,
  All-get_elem?, length-set, get_elem?-some, set-get_elem?, set-set, get_elem?-set_self,
}
use network_analyser_using_r.Outcome.{ok}
use network_analyser_using_r.CString.{c_string}
use network_analyser_using_r.State.{
  PacketInfo, Server, current, put_current, max_ssid_char_count, max_packet_info_count,
  max_output_buffer_size,
}

-- A character array of `n` cells that holds a string.
pub record IsText (n : ℕ) (a : Bytes) : Type 0 where
  pub size : length a ≡ n
  pub text : Bytes
  pub reads : c_string a ≡ some text

pub record IsSlot (q : PacketInfo) : Type 0 where
  pub ssid : IsText max_ssid_char_count q.ssid
  pub src : IsText 18 q.ethernet_src_addr
  pub dst : IsText 18 q.ethernet_dst_addr
  pub bssid : IsText 18 q.ethernet_bss_id

-- The globals between two packets.
pub record IsServer (s : Server) : Type 0 where
  pub counted : s.cap_info.packet_info_count ≡ s.cur_packet_count
  pub within : s.cur_packet_count ≤ max_packet_info_count
  pub size : length s.cap_info.packet_info_array ≡ max_packet_info_count
  pub slots : All IsSlot s.cap_info.packet_info_array
  pub buffer : length s.output_buff ≡ max_output_buffer_size

-- `s` with the current slot set to `q`.
abbrev pub with_current : Server → PacketInfo → Server
with_current s q = record s {
  cap_info = record (s.cap_info) {
    packet_info_array = set s.cap_info.packet_info_array s.cur_packet_count q;
  };
}

pub current_lem :
    (s : Server)
    → IsServer s
    → s.cur_packet_count < max_packet_info_count
    → (q : PacketInfo) × (current s ≡ ok q) × IsSlot q
unfolding current
current_lem s v h =
    go (get_elem?-some s.cap_info.packet_info_array s.cur_packet_count (omega (arith, v.size)))
  where
    go :
        (q : PacketInfo) × (get_elem? s.cap_info.packet_info_array s.cur_packet_count ≡ some q)
        → (q : PacketInfo) × (current s ≡ ok q) × IsSlot q
    go (q, e) = (q, rw e refl, All-get_elem? IsSlot _ _ v.slots e)

pub put_current_lem :
    (s : Server) (q : PacketInfo)
    → s.cur_packet_count < length s.cap_info.packet_info_array
    → put_current s q ≡ ok (with_current s q)
unfolding put_current
put_current_lem s q h = ground arith

pub with_current-IsServer :
    (s : Server) (q : PacketInfo) → IsServer s → IsSlot q → IsServer (with_current s q)
with_current-IsServer s q v w = record {
  counted = v.counted;
  within = v.within;
  size = rw length-set v.size;
  slots = All-set IsSlot _ _ q v.slots w;
  buffer = v.buffer;
}

-- The static buffer of `ether_ntoa` and the counters of the search are no part of the invariant.
abbrev pub with_ntoa : Server → Bytes → Server
with_ntoa s b = record s { ntoa_buffer = b }

pub with_ntoa-IsServer : (s : Server) (b : Bytes) → IsServer s → IsServer (with_ntoa s b)
with_ntoa-IsServer s b v = record {
  counted = v.counted;
  within = v.within;
  size = v.size;
  slots = v.slots;
  buffer = v.buffer;
}

pub with_current_self : (s : Server) (q : PacketInfo) → current s ≡ ok q → with_current s q ≡ s
unfolding current
with_current_self s q h =
    ap (λ slots. record s { cap_info = record (s.cap_info) { packet_info_array = slots } })
      (set-get_elem? s.cap_info.packet_info_array s.cur_packet_count (ground arith))

pub current-with_current :
    (s : Server) (q : PacketInfo)
    → s.cur_packet_count < length s.cap_info.packet_info_array
    → current (with_current s q) ≡ ok q
unfolding current
current-with_current s q h =
    rw (get_elem?-set_self s.cap_info.packet_info_array s.cur_packet_count q h)

pub with_current-with_current :
    (s : Server) (q r : PacketInfo) → with_current (with_current s q) r ≡ with_current s r
with_current-with_current s q r =
    ap (λ slots. record s { cap_info = record (s.cap_info) { packet_info_array = slots } })
      (set-set s.cap_info.packet_info_array s.cur_packet_count q r)
