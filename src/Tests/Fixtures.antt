-- ===== src/Tests/Fixtures.antt =====
-- Concrete packets, globals and connections.
use network_analyser_using_r.Base.{
  ℕ, ◌≡◌, ◌≤◌, refl, arith, Bool, true, ◌&&◌, Bytes, ◌++◌, [], ◌∷◌, some, codes, ltb, take,
  replicate, length-take_le, All, All-take, All-replicate, length-replicate, pos,
}
use network_analyser_using_r.CString.{c_string, until_nul}
use network_analyser_using_r.State.{PacketInfo, Server}
use network_analyser_using_r.State.Ranges.{HasRanges}
use network_analyser_using_r.State.Slots.{IsSlot, IsServer}
use network_analyser_using_r.Ethernet.Total.{IsPacket}
use network_analyser_using_r.Ethernet.Beacon.{HasType}
use network_analyser_using_r.Ethernet.Result.{IsShortBeacon}
use network_analyser_using_r.Callback.Returns.{IsHeader, IsReadable, short_beacon}
use network_analyser_using_r.Callback.Tally.{IsReadableBeacon}
use network_analyser_using_r.Capture.{Pcap, IsPcap}
use network_analyser_using_r.Main.{Connection, initial_server}
use network_analyser_using_r.Main.Laws.{IsReceived}
use network_analyser_using_r.Json.Bounds.{IsFull}
use network_analyser_using_r.Main.Answers.{initial_server-IsAnswering}
use network_analyser_using_r.Tests.Machine.{some_fields, some_platform}

-- A beacon of the network `home`.
abbrev pub radiotap_header : Bytes
radiotap_header =
    0 ∷ 0 ∷ 18 ∷ 0 ∷ 46 ∷ 72 ∷ 0 ∷ 0 ∷ 0 ∷ 2 ∷ 108 ∷ 9 ∷ 160 ∷ 0 ∷ 200 ∷ 0 ∷ 1 ∷ 0 ∷ []

abbrev home_mac : Bytes
home_mac = 2 ∷ 0 ∷ 0 ∷ 0 ∷ 0 ∷ 1 ∷ []

abbrev pub beacon_header : Bytes
beacon_header = 128 ∷ 0 ∷ 0 ∷ 0 ∷ (replicate 6 255 ++ (home_mac ++ (home_mac ++ (0 ∷ 0 ∷ []))))

abbrev pub home_beacon : Bytes
home_beacon = radiotap_header ++ (beacon_header ++ (replicate 12 1 ++ (0 ∷ 4 ∷ codes "home")))

-- The same with an SSID of 20 bytes.
abbrev pub long_beacon : Bytes
long_beacon = radiotap_header ++ (beacon_header ++ (replicate 12 1 ++ (0 ∷ 20 ∷ replicate 20 97)))

abbrev are_bytes : Bytes → Bool
are_bytes [] = true
are_bytes (b ∷ bs) = ltb b 256 && are_bytes bs

pub are_bytes-IsPacket : (packet : Bytes) → are_bytes packet ≡ true → IsPacket packet
are_bytes-IsPacket [] h = tt
are_bytes-IsPacket (b ∷ bs) h = (ground arith, are_bytes-IsPacket bs (ground arith))

pub home_beacon-IsPacket : IsPacket home_beacon
home_beacon-IsPacket = are_bytes-IsPacket home_beacon refl

pub long_beacon-IsPacket : IsPacket long_beacon
long_beacon-IsPacket = are_bytes-IsPacket long_beacon refl

pub home_beacon-HasType : HasType home_beacon 0x80 0
home_beacon-HasType = record {
  first = refl;
  second = refl;
  first_byte = omega arith;
  second_byte = omega arith;
}

pub home_beacon-IsShortBeacon : IsShortBeacon home_beacon 4
home_beacon-IsShortBeacon = record {
  frame = home_beacon-HasType;
  ssid = record { tagged = refl; short = omega arith; complete = omega arith };
}

pub long_beacon-HasType : HasType long_beacon 0x80 0
long_beacon-HasType = record {
  first = refl;
  second = refl;
  first_byte = omega arith;
  second_byte = omega arith;
}

pub home_beacon-IsHeader : IsHeader some_platform 10 home_beacon
home_beacon-IsHeader = record {
  fields = some_fields;
  started = refl;
  yields = (refl, refl, (refl, refl, (refl, refl, (refl, refl, refl))));
  inside = (
    (9, refl, omega arith),
    ((10, refl, omega arith), ((14, refl, omega arith), ((16, refl, omega arith), tt))),
  );
  enough = omega arith;
}

pub home_beacon-IsReadable : IsReadable some_platform 10 home_beacon
home_beacon-IsReadable = short_beacon 4 home_beacon-IsShortBeacon home_beacon-IsHeader

pub home_beacon-IsReadableBeacon : IsReadableBeacon some_platform 10 home_beacon
home_beacon-IsReadableBeacon = record {
  len = 4;
  short = home_beacon-IsShortBeacon;
  header = home_beacon-IsHeader;
}

-- The initial globals, and those with one packet captured, of the network `home`.
pub initial_server-IsServer : IsServer initial_server
initial_server-IsServer = (initial_server-IsAnswering some_platform 10 []).valid

abbrev pub slot : Bytes → PacketInfo
slot name = record {
  ethernet_type = 0x8000;
  data_rate_kbps = 1000;
  antenna = 1;
  channel = 2412;
  signal_pwr_dbm_at_antenna = 200;
  ssid = name ++ (0 ∷ replicate 10 0);
  ethernet_src_addr = codes "02:00:00:00:00:01" ++ (0 ∷ []);
  ethernet_dst_addr = codes "ff:ff:ff:ff:ff:ff" ++ (0 ∷ []);
  ethernet_bss_id = codes "02:00:00:00:00:01" ++ (0 ∷ []);
}

abbrev pub home_slot : PacketInfo
home_slot = slot (codes "home")

pub home_slot-IsSlot : IsSlot home_slot
unfolding c_string
home_slot-IsSlot = record {
  ssid = record { size = refl; text = codes "home"; reads = refl };
  src = record { size = refl; text = codes "02:00:00:00:00:01"; reads = refl };
  dst = record { size = refl; text = codes "ff:ff:ff:ff:ff:ff"; reads = refl };
  bssid = record { size = refl; text = codes "02:00:00:00:00:01"; reads = refl };
}

-- The globals with `n` packets counted, each slot the one for `home`.
abbrev pub home_server : ℕ → Server
home_server n = record {
  cur_packet_count = n;
  dup_packets_discarded = 0;
  packets_same_ssid_diff_bssid = 0;
  output_buff = replicate 8192 0;
  buff_ptr = 0;
  cap_info = record { packet_info_count = n; packet_info_array = replicate 50 home_slot };
  ntoa_buffer = replicate 18 0;
}

pub home_server-IsServer : (n : ℕ) → n ≤ 50 → IsServer (home_server n)
home_server-IsServer n h = record {
  counted = refl;
  within = h;
  size = length-replicate 50 home_slot;
  slots = All-replicate IsSlot 50 home_slot home_slot-IsSlot;
  buffer = length-replicate {A = ℕ} 8192 0;
}

pub home_server-HasRanges : All HasRanges (replicate 50 home_slot)
home_server-HasRanges = All-replicate HasRanges 50 home_slot (record {
  rate = omega arith;
  antenna = omega arith;
  channel = omega arith;
  power = omega arith;
})

pub home_server-IsFull : All IsFull (replicate 50 home_slot)
unfolding until_nul
home_server-IsFull =
    All-replicate IsFull 50 home_slot
      (record { rate = omega arith; channel = omega arith; src = refl; dst = refl; bssid = refl })

-- libpcap that opens the device and hands over one beacon, and connections that send a text.
abbrev pub some_pcap : Pcap
some_pcap = record {
  open_live = λ dev. true;
  compile = λ filter. pos 0;
  set_filter = λ filter. pos 0;
  loop = λ n. take n (home_beacon ∷ []);
}

pub some_pcap-IsPcap : IsPcap some_pcap
some_pcap-IsPcap = record {
  at_most = λ n positive. length-take_le n (home_beacon ∷ []);
  bytes = λ n. All-take IsPacket n (home_beacon ∷ []) (home_beacon-IsPacket, tt);
}

abbrev pub sends : Bytes → Connection
sends bytes = record {
  accepted = true;
  resolved = true;
  named = true;
  received = some bytes;
  pcap = some_pcap;
  written = true;
}

pub sends-IsReceived : (bytes : Bytes) → IsReceived (sends bytes) bytes
sends-IsReceived bytes = record { accepted = refl; resolved = refl; named = refl; received = refl }
