-- ===== src/Json.antt =====
-- `writePacket` and `generateJson`: the JSON text, written with `sprintf` at `buff_ptr`.
pub mod Sprintf
pub mod Text
pub mod Document
pub mod Bounds
pub mod Value
pub mod RoundTrip
pub mod Inversion
pub mod Sound
pub mod Cut
pub mod Injective
pub mod Shape
use network_analyser_using_r.Base.{
  ℕ, zero, suc, ◌+◌, ◌-◌, Bool, true, false, Bytes, ℤ, pos, negsuc, if◌then◌else◌, ltb, List, [],
  ◌∷◌, ◌++◌, codes, length,
}
use network_analyser_using_r.Outcome.{Outcome, ok, load, or_fault, ◌>>=◌}
use network_analyser_using_r.CString.{c_string, copy}
use network_analyser_using_r.State.{PacketInfo, CaptureInfo, Server, Platform}
use network_analyser_using_r.Decimal.{show_int}

-- A `char` as the `int` that it is promoted to.
unfoldable pub char_value : Bool → ℕ → ℤ
char_value true b = if ltb b 128 then pos b else negsuc (255 - b)
char_value false b = pos b

-- `sprintf(buff_ptr, ...)` with the text that it prints, and `buff_ptr += cnt`.
unfoldable pub sprintf : Bytes → Server → Outcome Server
sprintf text s = do
  output' ← copy (length text + 1) 0 s.buff_ptr (text ++ (0 ∷ [])) s.output_buff
  ok (record s { output_buff = output'; buff_ptr = s.buff_ptr + length text })

-- The members of a packet's object, as texts.
pub record Members : Type 0 where
  pub datarate : Bytes
  pub antenna : Bytes
  pub channel : Bytes
  pub power : Bytes
  pub ssid : Bytes
  pub src : Bytes
  pub dst : Bytes
  pub bssid : Bytes

-- The format of `writePacket` with its eight arguments.
unfoldable pub packet_text : Members → Bytes
packet_text m =
    codes "{\"packet\":{\"datarate\":\""
    ++ (m.datarate
        ++ (codes "\",\"antenna\":\""
            ++ (m.antenna
                ++ (codes "\",\"channel\":\""
                    ++ (m.channel
                        ++ (codes "\",\"power\":\""
                            ++ (m.power
                                ++ (codes "\",\"ssid\":\""
                                    ++ (m.ssid
                                        ++ (codes "\",\"src\":\""
                                            ++ (m.src
                                                ++ (codes "\",\"dst\":\""
                                                    ++ (m.dst
                                                        ++ (codes "\",\"bssid\":\""
                                                            ++ (m.bssid
                                                            ++ codes "\"}}")))))))))))))))

module _ (p : Platform) where
  -- The arguments of `sprintf` in `writePacket`; `%s` wants a NUL in the array.
  unfoldable pub members : PacketInfo → Outcome Members
  members q = do
    ssid ← or_fault (c_string q.ssid)
    src ← or_fault (c_string q.ethernet_src_addr)
    dst ← or_fault (c_string q.ethernet_dst_addr)
    bssid ← or_fault (c_string q.ethernet_bss_id)
    ok (record {
      datarate = show_int (pos q.data_rate_kbps);
      antenna = show_int (pos q.antenna);
      channel = show_int (pos q.channel);
      power = show_int (char_value p.char_is_signed q.signal_pwr_dbm_at_antenna);
      ssid = ssid;
      src = src;
      dst = dst;
      bssid = bssid;
    })

  unfoldable pub write_packet : ℕ → Server → Outcome Server
  write_packet cur_packet_num s = do
    q ← load s.cap_info.packet_info_array cur_packet_num
    m ← members q
    sprintf (packet_text m) s

  -- The comma behind every packet but the last.
  unfoldable pub write_comma : ℕ → Server → Outcome Server
  write_comma pkt_count s =
      if ltb pkt_count (s.cap_info.packet_info_count - 1) then sprintf (codes ",") s else ok s

  -- The loop at `pkt_count`, with `left` packets to write.
  unfoldable pub write_packets : ℕ → ℕ → Server → Outcome Server
  write_packets zero pkt_count s = ok s
  write_packets (suc left) pkt_count s = do
    s1 ← write_packet pkt_count s
    s2 ← write_comma pkt_count s1
    write_packets left (pkt_count + 1) s2

  unfoldable pub generate_json : Server → Outcome Server
  generate_json s = do
    s1 ← sprintf (codes "{\"packets\":[") (record s { buff_ptr = 0 })
    s2 ← write_packets s1.cap_info.packet_info_count 0 s1
    sprintf (codes "]}") s2
