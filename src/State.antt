-- ===== src/State.antt =====
-- The data of client_main.c: the packet structures, the global variables, and what the program
-- takes from the machine and from libraries that are not part of it.
pub mod Slots
pub mod Ranges
use network_analyser_using_r.Base.{
  ℕ, ◌+◌, ◌*◌, ◌<◌, ◌≡◌, Bool, Option, some, List, Bytes, ℤ, length, get_elem?, set, All, ltb,
  if◌then◌else◌,
}
use network_analyser_using_r.Outcome.{Outcome, ok, fault, load, store, ◌>>=◌}
use network_analyser_using_r.CString.{c_string}

abbrev pub max_packet_info_count : ℕ
max_packet_info_count = 50

abbrev pub max_packet_capture_count : ℕ
max_packet_capture_count = 100

abbrev pub max_ssid_char_count : ℕ
max_ssid_char_count = 15

abbrev pub max_output_buffer_size : ℕ
max_output_buffer_size = 8192

-- `struct packet_info`. The signal power is the byte of the `char`; `Json` reads it as a number.
pub record PacketInfo : Type 0 where
  pub ethernet_type : ℕ
  pub data_rate_kbps : ℕ
  pub antenna : ℕ
  pub channel : ℕ
  pub signal_pwr_dbm_at_antenna : ℕ
  pub ssid : Bytes
  pub ethernet_src_addr : Bytes
  pub ethernet_dst_addr : Bytes
  pub ethernet_bss_id : Bytes

-- `struct capture_info`.
pub record CaptureInfo : Type 0 where
  pub packet_info_count : ℕ
  pub packet_info_array : List PacketInfo

-- The global variables; `buff_ptr` is an offset in `output_buff`. `ntoa_buffer` is the static
-- buffer that `ether_ntoa` of the C library returns.
pub record Server : Type 0 where
  pub cur_packet_count : ℕ
  pub dup_packets_discarded : ℕ
  pub packets_same_ssid_diff_bssid : ℕ
  pub output_buff : Bytes
  pub buff_ptr : ℕ
  pub cap_info : CaptureInfo
  pub ntoa_buffer : Bytes

-- `cap_info.packet_info_array[cur_packet_count]`: a read, and a write.
unfoldable pub current : Server → Outcome PacketInfo
current s = load s.cap_info.packet_info_array s.cur_packet_count

unfoldable pub put_current : Server → PacketInfo → Outcome Server
put_current s q = do
  slots ← store s.cap_info.packet_info_array s.cur_packet_count q
  ok (record s { cap_info = record (s.cap_info) { packet_info_array = slots } })

-- The iterator over radiotap fields, a library that the program is linked with. `stack` is the
-- struct before it is initialised; `this_arg` is an offset in the packet, or none for NULL.
pub record RadiotapParser : Type 1 where
  pub Iterator : Type 0
  pub stack : Iterator
  pub init : Iterator → Bytes → ℕ → ℤ × Iterator
  pub next : Bytes → Iterator → ℤ × Iterator
  pub this_arg_index : Iterator → ℤ
  pub this_arg : Iterator → Option ℕ

-- The machine and the C library: how two bytes of memory are read as a 16-bit number, `ntohs`,
-- whether plain `char` is signed, `ether_ntoa` on an address and its static buffer, and what the
-- stack holds where `ssid_buff` is.
pub record Platform : Type 1 where
  pub load_u16 : ℕ → ℕ → ℕ
  pub ntohs : ℕ → ℕ
  pub char_is_signed : Bool
  pub ether_ntoa : Bytes → Bytes → Bytes
  pub ssid_stack : Bytes
  pub radiotap : RadiotapParser

-- Their documented behaviour. `address_text` is the text of an address, which `ether_ntoa`
-- leaves NUL-terminated in its buffer of 18 characters.
pub record IsPlatform (p : Platform) : Type 0 where
  pub ntohs-load_u16 : (a b : ℕ) → a < 256 → b < 256 → p.ntohs (p.load_u16 a b) ≡ a * 256 + b
  pub load_u16-lt : (a b : ℕ) → a < 256 → b < 256 → p.load_u16 a b < 65536
  pub address_text : Bytes → Bytes
  pub ntoa_length : (mac old : Bytes) → length mac ≡ 6 → length (p.ether_ntoa mac old) ≡ 18
  pub ntoa_text :
      (mac old : Bytes) → length mac ≡ 6 → c_string (p.ether_ntoa mac old) ≡ some (address_text mac)
  pub ssid_stack_length : length p.ssid_stack ≡ max_ssid_char_count
