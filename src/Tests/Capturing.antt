-- ===== src/Tests/Capturing.antt =====
-- The theorems on one packet and one capture, at concrete inputs.
use network_analyser_using_r.Base.{
  ℕ, ◌≡◌, ◌≢◌, ◌↔◌, refl, arith, false, ◌++◌, [], ◌∷◌, none, some, codes, pos,
}
use network_analyser_using_r.Outcome.{ok, fault, ◌>>=◌}
use network_analyser_using_r.CString.{c_string, same_string, same_text, until_nul}
use network_analyser_using_r.CString.Compare.{same_string_lem}
use network_analyser_using_r.State.{PacketInfo, Server, current, put_current}
use network_analyser_using_r.State.Slots.{with_current}
use network_analyser_using_r.Dedup.{pkt_with_ssid_bssid_exists}
use network_analyser_using_r.Dedup.Spec.{Key, has_key, diff_before, keys, key_of}
use network_analyser_using_r.Dedup.Scan.{searched, pkt_with_ssid_bssid_exists_lem}
use network_analyser_using_r.Radiotap.{parse_radio_tap, store_field, radiotap_loop}
use network_analyser_using_r.Radiotap.Loop.{store_fields}
use network_analyser_using_r.Radiotap.Header.{
  parse_radio_tap_ends, parse_radio_tap_never, parse_radio_tap-Parsed, Parsed, after_calls,
}
use network_analyser_using_r.Ethernet.{parse_ethernet}
use network_analyser_using_r.Ethernet.Key.{packet_key}
use network_analyser_using_r.Ethernet.Result.{
  parse_ethernet_new, parse_ethernet_duplicate, ReturnsDuplicate, ReturnsBeacon,
}
use network_analyser_using_r.Ethernet.Returns.{parse_ethernet-ok_iff}
use network_analyser_using_r.Ethernet.Total.{IsParsable, parse_ethernet-fault, long}
use network_analyser_using_r.Callback.{packet_capture_callback, bufsiz}
use network_analyser_using_r.Callback.Packet.{PacketChange, packet_capture_callback-PacketChange}
use network_analyser_using_r.State.Slots.{IsServer}
use network_analyser_using_r.Capture.{capture_packets}
use network_analyser_using_r.Capture.Correct.{is_ready, IsCapture}
use network_analyser_using_r.Capture.Returns.{capture_packets-returns}
use network_analyser_using_r.Main.{initial_server}
use network_analyser_using_r.Tests.Machine.{
  some_fields, some_platform, stuck_platform, some_platform-IsPlatform,
}
use network_analyser_using_r.Tests.Fixtures.{
  long_beacon-IsPacket, home_beacon, long_beacon, home_beacon-IsPacket, home_beacon-IsShortBeacon,
  long_beacon-HasType, home_beacon-IsReadable, initial_server-IsServer, home_slot, home_server,
  home_server-IsServer, some_pcap, some_pcap-IsPcap,
}

same_string_lem_example :
    same_string (codes "home" ++ (0 ∷ [])) (codes "hotel" ++ (0 ∷ []))
    ≡ ok (same_text (codes "home") (codes "hotel"))
unfolding c_string
same_string_lem_example =
    same_string_lem (codes "home" ++ (0 ∷ [])) (codes "hotel" ++ (0 ∷ [])) (codes "home")
      (codes "hotel") refl refl

-- A network with the SSID of a captured one and another BSSID.
abbrev other_key : Key
other_key = record { ssid = codes "home"; bssid = codes "02:00:00:00:00:02" }

pkt_with_ssid_bssid_exists_lem_example :
    pkt_with_ssid_bssid_exists
      (home_server 2)
      (codes "home" ++ (0 ∷ []))
      (codes "02:00:00:00:00:02" ++ (0 ∷ []))
    ≡ ok (
      has_key (keys (home_server 2)) other_key,
      searched (keys (home_server 2)) other_key (home_server 2),
    )
unfolding c_string
pkt_with_ssid_bssid_exists_lem_example =
    pkt_with_ssid_bssid_exists_lem (home_server 2) other_key _ _
      (home_server-IsServer 2 (omega arith)) refl refl

-- It is found twice with another BSSID, and is no duplicate.
other_key_statistics :
    (has_key (keys (home_server 2)) other_key ≡ false)
    × (diff_before (keys (home_server 2)) other_key ≡ 2)
unfolding has_key keys key_of diff_before until_nul
other_key_statistics = (refl, refl)

parse_radio_tap_ends_example :
    parse_radio_tap some_platform home_beacon 10 bufsiz (home_server 0) ≡ (
      store_fields some_platform home_beacon some_fields home_slot >>= λ q'.
      ok (pos 0, with_current (home_server 0) q'))
unfolding current
parse_radio_tap_ends_example =
    parse_radio_tap_ends some_platform home_beacon some_fields 10 bufsiz (home_server 0) home_slot
      refl (refl, refl, (refl, refl, (refl, refl, (refl, refl, refl)))) (omega arith) refl
      (omega arith)

parse_radio_tap_never_example :
    parse_radio_tap stuck_platform home_beacon 100 bufsiz (home_server 0)
    ≢ ok (pos 0, home_server 0)
unfolding after_calls
parse_radio_tap_never_example =
    parse_radio_tap_never stuck_platform home_beacon 100 bufsiz (home_server 0)
      (pos 0, home_server 0) refl (λ n. refl)

-- The slot for `home` after the radiotap header of the beacon.
abbrev measured_slot : PacketInfo
measured_slot = record home_slot {
  channel = 2412;
  signal_pwr_dbm_at_antenna = 200;
  antenna = 1;
  data_rate_kbps = 1000;
}

measured :
    parse_radio_tap some_platform home_beacon 10 bufsiz (home_server 0)
    ≡ ok (pos 0, with_current (home_server 0) measured_slot)
unfolding parse_radio_tap radiotap_loop store_field current put_current
measured = refl

parse_radio_tap-Parsed_example :
    Parsed some_platform home_beacon bufsiz
      (home_server 0)
      home_slot
      (pos 0, with_current (home_server 0) measured_slot)
unfolding current
parse_radio_tap-Parsed_example =
    parse_radio_tap-Parsed some_platform home_beacon 10 bufsiz (home_server 0) home_slot
      (pos 0, with_current (home_server 0) measured_slot) refl (omega arith) measured

-- The key of the beacon.
abbrev beacon_key : Key
beacon_key = packet_key some_platform-IsPlatform.address_text home_beacon 4

parse_ethernet_new_example :
    ReturnsBeacon some_platform some_platform-IsPlatform.address_text home_beacon beacon_key
      initial_server
unfolding initial_server keys has_key
parse_ethernet_new_example =
    parse_ethernet_new some_platform some_platform-IsPlatform home_beacon 4
      home_beacon-IsShortBeacon initial_server initial_server-IsServer (omega arith) refl

parse_ethernet_duplicate_example :
    ReturnsDuplicate some_platform home_beacon beacon_key (home_server 1)
unfolding keys has_key key_of until_nul packet_key
parse_ethernet_duplicate_example =
    parse_ethernet_duplicate some_platform some_platform-IsPlatform home_beacon 4
      home_beacon-IsShortBeacon (home_server 1) (home_server-IsServer 1 (omega arith)) (omega arith)
      refl

parse_ethernet-fault_example : parse_ethernet some_platform long_beacon (home_server 0) ≡ fault
parse_ethernet-fault_example =
    parse_ethernet-fault some_platform long_beacon (home_server 0) some_platform-IsPlatform
      (long 20 long_beacon-HasType refl (omega arith)) (home_server-IsServer 0 (omega arith))
      (omega arith)

packet_capture_callback-PacketChange_example :
    (s' : Server) × (packet_capture_callback some_platform 10 home_beacon (home_server 3) ≡ ok s')
    × IsServer s'
    × PacketChange some_platform some_platform-IsPlatform.address_text home_beacon
        (home_server 3)
        s'
packet_capture_callback-PacketChange_example =
    packet_capture_callback-PacketChange some_platform 10 home_beacon (home_server 3)
      some_platform-IsPlatform home_beacon-IsPacket home_beacon-IsReadable
      (home_server-IsServer 3 (omega arith))

capture_packets-returns_example :
    (s' : Server) × (capture_packets some_platform 10 some_pcap
        (some (codes "mon1"))
        100
        none
        (home_server 3)
      ≡ ok s')
    × IsCapture 100 (home_server 3) s'
unfolding is_ready
capture_packets-returns_example =
    capture_packets-returns some_platform 10 100 some_pcap (some (codes "mon1")) none
      (home_server 3) some_platform-IsPlatform some_pcap-IsPcap refl (home_beacon-IsReadable, tt)
      (home_server-IsServer 3 (omega arith)) (omega arith)

parse_ethernet-ok_iff_example :
    ((r : ℕ × Server) × (parse_ethernet some_platform long_beacon (home_server 1) ≡ ok r))
    ↔ IsParsable long_beacon
parse_ethernet-ok_iff_example =
    parse_ethernet-ok_iff some_platform long_beacon (home_server 1) some_platform-IsPlatform
      (home_server-IsServer 1 (omega arith)) (omega arith) long_beacon-IsPacket
