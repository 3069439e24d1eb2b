-- ===== src/Tests/Session.antt =====
-- The theorems on the Java client against the server, at concrete inputs.
use network_analyser_using_r.Base.{
  ℕ, ◌≡◌, refl, arith, Bool, true, false, Bytes, List, [], ◌∷◌, ◌++◌, some, none, codes, replicate,
  take, drop, ◌/◌, ◌%◌,
}
use network_analyser_using_r.Outcome.{ok}
use network_analyser_using_r.CString.{until_nul}
use network_analyser_using_r.State.{PacketInfo, Server}
use network_analyser_using_r.Decimal.{show_int, decimal, digits_onto}
use network_analyser_using_r.Ethernet.Key.{packet_key}
use network_analyser_using_r.Callback.Tally.{beacon_key, ssid_length}
use network_analyser_using_r.Capture.{capture_packets}
use network_analyser_using_r.Capture.Correct.{is_ready}
use network_analyser_using_r.Callback.Older.{HasSources}
use network_analyser_using_r.Capture.Older.{capture_packets-HasSources}
use network_analyser_using_r.Json.{packet_text, char_value}
use network_analyser_using_r.Json.Text.{document, packets_text, members_of, document_of}
use network_analyser_using_r.Main.{Connection, main}
use network_analyser_using_r.Main.Start.{is_started}
use network_analyser_using_r.Json.RoundTrip.{read_json}
use network_analyser_using_r.Json.Shape.{ArePlainTexts}
use network_analyser_using_r.Client.Partial.{capture_data_bytes_part}
use network_analyser_using_r.Client.Binding.{NetworkCaptureData}
use network_analyser_using_r.Client.Service.{
  rpi_id, capture_data_bytes, capture_and_send_network_data,
}
use network_analyser_using_r.Client.Clean.{WritesMacTexts, is_mac_char, is_mac_text}
use network_analyser_using_r.Tests.Networks.{home_beacon-IsMeasured}
use network_analyser_using_r.Tests.Rounds.{home_round, some_system}
use network_analyser_using_r.Client.Seen.{packet_of}
use network_analyser_using_r.Client.Injection.{
  with_power, seen_members, capture_and_send_network_data_injected,
}
use network_analyser_using_r.Client.Rest.{
  HttpRequest, get, post, Exchanged, failed, replied, sync_run, config_request,
  get_rpi_config_from_server, post_captured_data_to_server,
}
use network_analyser_using_r.Client.{start, initial_job, task_of}
use network_analyser_using_r.Client.Exact.{IsMeasuredClient, data_of, main-data_of}
use network_analyser_using_r.Client.Session.{
  IsClientRound, ArePosted, answered, requests, reads, main-ArePosted,
}
use network_analyser_using_r.Tests.Machine.{
  mac_text, hex_digit, some_platform, some_platform-IsPlatform,
}
use network_analyser_using_r.Tests.Fixtures.{
  home_beacon-IsReadableBeacon, home_server, home_server-IsServer, home_slot, some_pcap,
  some_pcap-IsPcap, sends,
}
use network_analyser_using_r.Tests.Posting.{
  some_mapper, some_mapper-IsObjectMapper, each_minute, takes,
}
use mathlib.Core.List.{map}

capture_packets-HasSources_example :
    (s' : Server) × (capture_packets some_platform 10 some_pcap
        (some (codes "mon1"))
        100
        none
        (home_server 3)
      ≡ ok s')
    × HasSources some_platform some_platform-IsPlatform.address_text
        (some_pcap.loop 100)
        (home_server 3)
        s'
unfolding is_ready
capture_packets-HasSources_example =
    capture_packets-HasSources some_platform 10 some_platform-IsPlatform 100 some_pcap
      (some (codes "mon1")) none (home_server 3) some_pcap-IsPcap refl
      (home_beacon-IsReadableBeacon, tt) (home_server-IsServer 3 (omega arith))

-- A stand-in for Base64 that leaves the bytes alone.
abbrev plain_encode : Bytes → Bytes
plain_encode bytes = bytes

-- A service that gives a configuration for GET only.
abbrev gives : HttpRequest → Exchanged
gives request = elim request.method [ get ↦ replied (some each_minute) | post ↦ failed ]

-- The first run starts the capture task.
synced :
    (start (sync_run plain_encode gives takes) initial_job).running ≡ task_of 0 each_minute ∷ []
unfolding start get_rpi_config_from_server config_request
synced = refl

-- A slot whose SSID sets the power.
abbrev sly_slot : PacketInfo
sly_slot = record home_slot { ssid = with_power (codes "x") (codes "9") ++ (0 ∷ 0 ∷ []) }

abbrev sly_server : Server
sly_server = record (home_server 2) {
  cap_info = record {
    packet_info_count = 2;
    packet_info_array = home_slot ∷ sly_slot ∷ replicate 48 home_slot;
  };
}

capture_and_send_network_data_injected_example :
    capture_and_send_network_data some_mapper (reads (document_of some_platform sly_server))
    ≡ record {
      dev_id = some rpi_id;
      packets = map packet_of (
          map (members_of some_platform) (home_slot ∷ [])
          ++ (seen_members some_platform sly_slot (codes "x") (codes "9")
              ∷ map (members_of some_platform) []));
    }
      ∷ []
unfolding document_of document packets_text members_of packet_text show_int decimal digits_onto
    char_value until_nul
capture_and_send_network_data_injected_example =
    capture_and_send_network_data_injected some_platform some_mapper
      (reads (document_of some_platform sly_server)) sly_server (home_slot ∷ []) [] sly_slot
      (codes "x") (codes "9") some_mapper-IsObjectMapper
      (record { host = refl; connects = refl; read = refl }) refl
      (record { ssid = refl; src = refl; dst = refl; bssid = refl }, tt) tt refl refl refl
      (record { src = refl; dst = refl; bssid = refl }) refl (omega arith)

hex_digit-mac : (n : ℕ) → is_mac_char (hex_digit (n % 16)) ≡ true
hex_digit-mac n = ground arith

mac_text-mac : (mac : Bytes) → is_mac_text (mac_text mac) ≡ true
mac_text-mac [] = refl
mac_text-mac (a ∷ []) = refl
mac_text-mac (a ∷ b ∷ []) = refl
mac_text-mac (a ∷ b ∷ c ∷ []) = refl
mac_text-mac (a ∷ b ∷ c ∷ d ∷ []) = refl
mac_text-mac (a ∷ b ∷ c ∷ d ∷ e ∷ []) = refl
mac_text-mac (a ∷ b ∷ c ∷ d ∷ e ∷ f ∷ []) =
    rw
      (
        hex_digit-mac (a / 16),
        hex_digit-mac a,
        hex_digit-mac (b / 16),
        hex_digit-mac b,
        hex_digit-mac (c / 16),
        hex_digit-mac c,
        hex_digit-mac (d / 16),
        hex_digit-mac d,
        hex_digit-mac (e / 16),
        hex_digit-mac e,
        hex_digit-mac (f / 16),
        hex_digit-mac f,
      )
      refl
mac_text-mac (a ∷ b ∷ c ∷ d ∷ e ∷ f ∷ g ∷ mac) = refl

until_nul-mac : (t : Bytes) → is_mac_text t ≡ true → is_mac_text (until_nul t) ≡ true
unfolding until_nul
until_nul-mac [] h = refl
until_nul-mac (c ∷ t) h = ground (arith, until_nul-mac t)

some_platform-WritesMacTexts : WritesMacTexts some_platform-IsPlatform.address_text
some_platform-WritesMacTexts mac h = until_nul-mac (mac_text mac) (mac_text-mac mac)

home_IsClientRound :
    (written : Bool)
    → IsClientRound some_platform 10 some_platform-IsPlatform
        (record (sends (codes "capture")) { written = written })
unfolding beacon_key ssid_length packet_key until_nul
home_IsClientRound written = record {
  modest = home_round (some (codes "capture")) written (omega arith);
  command = refl;
  plain = (record { plain = refl; ascii = refl }, tt);
}

-- Two captures, of which the second is not written.
abbrev two_rounds : List Connection
two_rounds = sends (codes "capture") ∷ record (sends (codes "capture")) { written = false } ∷ []

main-ArePosted_example :
    (ds : List NetworkCaptureData) × (requests plain_encode some_mapper
        (main some_platform 10 some_system (codes "server" ∷ codes "8765" ∷ []) two_rounds)
      ≡ map (post_captured_data_to_server plain_encode) ds)
    × ArePosted some_platform 10 some_platform-IsPlatform (sends (codes "capture") ∷ []) ds
unfolding is_started answered is_ready
main-ArePosted_example =
    main-ArePosted some_platform 10 some_platform-IsPlatform some_platform-WritesMacTexts
      some_mapper some_mapper-IsObjectMapper plain_encode some_system (codes "server")
      (codes "8765") two_rounds refl (home_IsClientRound true, (home_IsClientRound false, tt))

main-data_of_example :
    requests plain_encode some_mapper
      (main some_platform 10 some_system (codes "server" ∷ codes "8765" ∷ []) two_rounds)
    ≡ map
        (λ c.
          post_captured_data_to_server plain_encode
            (data_of some_platform 10 some_platform-IsPlatform c))
        (sends (codes "capture") ∷ [])
unfolding is_started answered is_ready
main-data_of_example =
    main-data_of some_platform 10 some_platform-IsPlatform some_platform-WritesMacTexts some_mapper
      some_mapper-IsObjectMapper plain_encode some_system (codes "server" ∷ codes "8765" ∷ [])
      two_rounds refl (measured_client true, (measured_client false, tt))
  where
    measured_client :
        (written : Bool)
        → IsMeasuredClient some_platform 10 some_platform-IsPlatform
            (record (sends (codes "capture")) { written = written })
    measured_client written = record {
      round = home_IsClientRound written;
      measured = (home_beacon-IsMeasured, tt);
    }

-- The document for one network, and an answer that stops in it.
abbrev home_text : Bytes
home_text = document_of some_platform (home_server 1)

capture_data_bytes_part_example : read_json (capture_data_bytes (take 100 home_text)) ≡ none
unfolding document_of document packets_text members_of packet_text show_int decimal digits_onto
    char_value until_nul
capture_data_bytes_part_example =
    capture_data_bytes_part some_platform (home_server 1) (take 100 home_text) (drop 100 home_text)
      (home_slot-ArePlainTexts, tt) refl (omega arith)
  where
    home_slot-ArePlainTexts : ArePlainTexts home_slot
    home_slot-ArePlainTexts = record { ssid = refl; src = refl; dst = refl; bssid = refl }
