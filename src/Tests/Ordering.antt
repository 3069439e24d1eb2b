-- ===== src/Tests/Ordering.antt =====
-- Two captures of the same beacons, at a concrete input.
use network_analyser_using_r.Base.{
  ◌≡◌, ◌+◌, refl, arith, Bytes, [], ◌∷◌, ◌++◌, some, none, codes, take, replicate, length-take_le,
  All-take,
}
use network_analyser_using_r.Outcome.{ok}
use network_analyser_using_r.CString.{until_nul}
use network_analyser_using_r.State.{Server}
use network_analyser_using_r.Dedup.Spec.{Key, has_key, keys}
use network_analyser_using_r.Dedup.Tally.{distinct, distinct_onto}
use network_analyser_using_r.Ethernet.Key.{packet_key}
use network_analyser_using_r.Ethernet.Total.{IsPacket}
use network_analyser_using_r.Callback.Tally.{IsReadableBeacon, beacon_key, ssid_length}
use network_analyser_using_r.Capture.{Pcap, capture_packets}
use network_analyser_using_r.Capture.Correct.{is_ready}
use network_analyser_using_r.Capture.Order.{IsFewCapture, capture_packets-Perm}
use network_analyser_using_r.Tests.Machine.{some_fields, some_platform, some_platform-IsPlatform}
use network_analyser_using_r.Tests.Fixtures.{
  radiotap_header, beacon_header, are_bytes-IsPacket, home_beacon, home_beacon-IsPacket,
  home_beacon-IsReadableBeacon, some_pcap, home_server, home_server-IsServer,
}
use mathlib.Core.List.{Permᴰ}

-- A beacon of the network `office`.
abbrev office_beacon : Bytes
office_beacon = radiotap_header ++ (beacon_header ++ (replicate 12 1 ++ (0 ∷ 6 ∷ codes "office")))

office_beacon-IsPacket : IsPacket office_beacon
office_beacon-IsPacket = are_bytes-IsPacket office_beacon refl

office_beacon-IsReadableBeacon : IsReadableBeacon some_platform 10 office_beacon
office_beacon-IsReadableBeacon = record {
  len = 6;
  short = record {
    frame = record {
      first = refl;
      second = refl;
      first_byte = omega arith;
      second_byte = omega arith;
    };
    ssid = record { tagged = refl; short = omega arith; complete = omega arith };
  };
  header = record {
    fields = some_fields;
    started = refl;
    yields = (refl, refl, (refl, refl, (refl, refl, (refl, refl, refl))));
    inside = (
      (9, refl, omega arith),
      ((10, refl, omega arith), ((14, refl, omega arith), ((16, refl, omega arith), tt))),
    );
    enough = omega arith;
  };
}

abbrev home_first : Pcap
home_first = record some_pcap { loop = λ n. take n (home_beacon ∷ office_beacon ∷ []) }

abbrev office_first : Pcap
office_first = record some_pcap { loop = λ n. take n (office_beacon ∷ home_beacon ∷ []) }

home_first-IsFewCapture :
    IsFewCapture some_platform 10 100 some_platform-IsPlatform home_first (some (codes "mon1")) none
unfolding is_ready distinct distinct_onto has_key beacon_key ssid_length packet_key until_nul
home_first-IsFewCapture = record {
  pcap = record {
    at_most = λ n positive. length-take_le n (home_beacon ∷ office_beacon ∷ []);
    bytes = λ n.
        All-take IsPacket n (home_beacon ∷ office_beacon ∷ [])
          (home_beacon-IsPacket, (office_beacon-IsPacket, tt));
  };
  ready = refl;
  beacons = (home_beacon-IsReadableBeacon, (office_beacon-IsReadableBeacon, tt));
  few = omega arith;
}

office_first-IsFewCapture :
    IsFewCapture some_platform 10 100 some_platform-IsPlatform office_first
      (some (codes "mon1"))
      none
unfolding is_ready distinct distinct_onto has_key beacon_key ssid_length packet_key until_nul
office_first-IsFewCapture = record {
  pcap = record {
    at_most = λ n positive. length-take_le n (office_beacon ∷ home_beacon ∷ []);
    bytes = λ n.
        All-take IsPacket n (office_beacon ∷ home_beacon ∷ [])
          (office_beacon-IsPacket, (home_beacon-IsPacket, tt));
  };
  ready = refl;
  beacons = (office_beacon-IsReadableBeacon, (home_beacon-IsReadableBeacon, tt));
  few = omega arith;
}

capture_packets-Perm_example :
    (s' : Server) × (t' : Server) × (capture_packets some_platform 10 home_first
        (some (codes "mon1"))
        100
        none
        (home_server 3)
      ≡ ok s')
    × (capture_packets some_platform 10 office_first (some (codes "mon1")) 100 none (home_server 0)
        ≡ ok t')
    × ((k : Key) → has_key (keys s') k ≡ has_key (keys t') k)
    × (s'.cur_packet_count + s'.dup_packets_discarded
        ≡ t'.cur_packet_count + t'.dup_packets_discarded)
capture_packets-Perm_example =
    capture_packets-Perm some_platform 10 some_platform-IsPlatform 100 home_first office_first
      (some (codes "mon1")) none (home_server 3) (home_server 0) home_first-IsFewCapture
      office_first-IsFewCapture (home_server-IsServer 3 (omega arith))
      (home_server-IsServer 0 (omega arith)) ∣ Permᴰ.swap refl refl ∣₁
