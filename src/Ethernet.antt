-- ===== src/Ethernet.antt =====
-- `parse_ethernet`: the SSID and the addresses of a beacon, and the search for duplicates.
pub mod Ssid
pub mod Address
pub mod Key
pub mod Beacon
pub mod Result
pub mod Total
pub mod Returns
pub mod Ranges
use network_analyser_using_r.Base.{
  ℕ, zero, suc, ◌+◌, ◌≤◌, Bool, true, false, Bytes, if◌then◌else◌, ◌==◌, ltb, length, take, drop,
}
use network_analyser_using_r.Outcome.{Outcome, ok, fault, load, store, ◌>>=◌}
use network_analyser_using_r.CString.{copy}
use network_analyser_using_r.State.{
  PacketInfo, Server, Platform, current, put_current, max_ssid_char_count,
}
use network_analyser_using_r.Dedup.{pkt_with_ssid_bssid_exists}

-- Where the fields of a beacon are: the radiotap header is taken to have 18 bytes, then come
-- `struct ethernet_beacon_frame` and, 24 bytes on, `struct ethernet_mgmt_frame`.
abbrev pub beacon_frame : ℕ
beacon_frame = 18

abbrev pub ether_dhost : ℕ
ether_dhost = beacon_frame + 4

abbrev pub ether_shost : ℕ
ether_shost = beacon_frame + 10

abbrev pub bssid_offset : ℕ
bssid_offset = beacon_frame + 16

abbrev pub mgmt_frame : ℕ
mgmt_frame = beacon_frame + 24

abbrev pub tag_length : ℕ
tag_length = mgmt_frame + 13

abbrev pub ssid_start : ℕ
ssid_start = mgmt_frame + 14

abbrev pub beacon_type : ℕ
beacon_type = 0x8000

-- The loop that fills `ssid_buff` and the slot's `ssid` at index `char_count`, `left` times.
unfoldable pub fill_ssid : ℕ → ℕ → Bytes → Bytes → Bytes → Outcome (Bytes × Bytes)
fill_ssid zero char_count packet ssid_buff ssid = ok (ssid_buff, ssid)
fill_ssid (suc left) char_count packet ssid_buff ssid = do
  c ← load packet (ssid_start + char_count)
  buff' ← store ssid_buff char_count c
  ssid' ← store ssid char_count c
  fill_ssid left (char_count + 1) packet buff' ssid'

-- The two copies of the SSID with their terminating NUL.
unfoldable pub read_ssid : Bytes → Bytes → Bytes → Outcome (Bytes × Bytes)
read_ssid packet ssid_buff ssid = do
  ssid_length ← load packet tag_length
  (buff', ssid') ←
      (if ltb 0 ssid_length
        then fill_ssid ssid_length 0 packet ssid_buff ssid
        else ok (ssid_buff, ssid))
  let last = if ltb ssid_length max_ssid_char_count then ssid_length else max_ssid_char_count
  buff'' ← store buff' last 0
  ssid'' ← store ssid' last 0
  ok (buff'', ssid'')

-- The six bytes that `ether_ntoa` reads.
abbrev pub address_at : Bytes → ℕ → Outcome Bytes
address_at packet offset =
    if ltb (length packet) (offset + 6) then fault else ok (take 6 (drop offset packet))

module _ (p : Platform) where
  -- `ether_ntoa`, the loop that copies 17 characters of its text, and the NUL behind them: the
  -- buffer of `ether_ntoa` and the field.
  unfoldable pub copy_address : Bytes → ℕ → Bytes → Bytes → Outcome (Bytes × Bytes)
  copy_address packet offset ntoa_buffer field = do
    mac ← address_at packet offset
    let addr_ptr = p.ether_ntoa mac ntoa_buffer
    field' ← copy 17 0 0 addr_ptr field
    field'' ← store field' 17 0
    ok (addr_ptr, field'')

  -- `case 0x8000`, up to the search for a packet with the same key.
  unfoldable pub parse_key : Bytes → Server → Outcome (Bool × Server)
  parse_key packet s = do
    q ← current s
    (ssid_buff, ssid') ← read_ssid packet p.ssid_stack q.ssid
    (ntoa', bssid') ← copy_address packet bssid_offset s.ntoa_buffer q.ethernet_bss_id
    s' ←
        put_current (record s { ntoa_buffer = ntoa' })
          (record q { ssid = ssid'; ethernet_bss_id = bssid' })
    pkt_with_ssid_bssid_exists s' ssid_buff bssid'

  -- The rest of `case 0x8000`: the destination and the source address.
  unfoldable pub parse_addresses : Bytes → Server → Outcome Server
  parse_addresses packet s = do
    q ← current s
    (ntoa', dst') ← copy_address packet ether_dhost s.ntoa_buffer q.ethernet_dst_addr
    (ntoa'', src') ← copy_address packet ether_shost ntoa' q.ethernet_src_addr
    put_current (record s { ntoa_buffer = ntoa'' })
        (record q { ethernet_dst_addr = dst'; ethernet_src_addr = src' })

  unfoldable pub frame_type : Bytes → Outcome ℕ
  frame_type packet = do
    b0 ← load packet beacon_frame
    b1 ← load packet (beacon_frame + 1)
    ok (p.ntohs (p.load_u16 b0 b1))

  -- What follows the search: 0 for a duplicate, else the addresses and the frame's type.
  unfoldable pub finish_beacon : Bytes → ℕ → Bool → Server → Outcome (ℕ × Server)
  finish_beacon packet ether_frame_type true s = ok (0, s)
  finish_beacon packet ether_frame_type false s = do
    s' ← parse_addresses packet s
    ok (ether_frame_type, s')

  -- The `switch` on the frame's type.
  unfoldable pub parse_frame : Bytes → ℕ → Server → Outcome (ℕ × Server)
  parse_frame packet ether_frame_type s =
      if ether_frame_type == beacon_type
      then (parse_key packet s >>= λ (found_dup_pkt, s').
          finish_beacon packet ether_frame_type found_dup_pkt s')
      else ok (ether_frame_type, s)

  unfoldable pub parse_ethernet : Bytes → Server → Outcome (ℕ × Server)
  parse_ethernet packet s = do
    ether_frame_type ← frame_type packet
    q ← current s
    s' ← put_current s (record q { ethernet_type = ether_frame_type })
    parse_frame packet ether_frame_type s'
