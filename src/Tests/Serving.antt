-- ===== src/Tests/Serving.antt =====
-- The theorems on the document and on the server, at concrete inputs.
use network_analyser_using_r.Base.{
  ltb, ◌≡◌, refl, ap, sym, ◌∙◌, arith, true, Bytes, ◌++◌, [], ◌∷◌, some, codes, if◌then◌else◌,
  length, replicate, pos,
}
use network_analyser_using_r.Outcome.{Outcome, ok, exit, fault, ◌>>=◌}
use network_analyser_using_r.Callback.{packet_capture_callback, keep_packet, parse_header}
use network_analyser_using_r.Radiotap.{parse_radio_tap, radiotap_loop, store_field}
use network_analyser_using_r.Ethernet.{
  parse_ethernet, frame_type, parse_frame, parse_key, read_ssid, fill_ssid, copy_address,
  parse_addresses, finish_beacon,
}
use network_analyser_using_r.Dedup.{pkt_with_ssid_bssid_exists}
use network_analyser_using_r.CString.{copy, c_string, until_nul}
use network_analyser_using_r.State.{Server, current, put_current}
use network_analyser_using_r.Decimal.{digits_onto, show_int, decimal}
use network_analyser_using_r.Decimal.Laws.{value_onto, value-decimal}
use network_analyser_using_r.Capture.{open_device, install_filter, run_callbacks, capture_packets}
use network_analyser_using_r.Capture.Correct.{IsCapture, is_ready, filter_ready}
use network_analyser_using_r.Capture.Returns.{capture_packets-returns}
use network_analyser_using_r.Json.{packet_text, char_value, generate_json}
use network_analyser_using_r.Json.Sprintf.{written}
use network_analyser_using_r.Json.Text.{document, packets_text, members_of, document_of}
use network_analyser_using_r.Json.Document.{generate_json-document, generate_json-overflow}
use network_analyser_using_r.Json.Bounds.{
  generate_json-few, generate_json-many, length-document_of_le, length-document_of_gt,
}
use network_analyser_using_r.Command.{capture_command}
use network_analyser_using_r.Command.Laws.{is_exit, is_capture}
use network_analyser_using_r.Command.Reply.{IsReply}
use network_analyser_using_r.Main.{System, handle_connection, initial_server, main}
use network_analyser_using_r.Main.Laws.{reply, handle_connection_command}
use network_analyser_using_r.Main.Answers.{Answers, pcaps_of, main-IsReply}
use network_analyser_using_r.Tests.Machine.{some_platform, some_platform-IsPlatform}
use network_analyser_using_r.Tests.Fixtures.{
  home_beacon-IsReadable, initial_server-IsServer, home_server, home_server-IsServer,
  home_server-HasRanges, home_server-IsFull, some_pcap, some_pcap-IsPcap, sends, sends-IsReceived,
}

value-decimal_example : value_onto 0 (decimal 2412) ≡ 2412
value-decimal_example = value-decimal 2412

generate_json-document_example :
    (rest : Bytes) × (generate_json some_platform (home_server 2)
      ≡ ok (written (home_server 2) (document_of some_platform (home_server 2)) (0 ∷ rest)))
    × (c_string (document_of some_platform (home_server 2) ++ (0 ∷ rest))
        ≡ some (document_of some_platform (home_server 2)))
    × (length (document_of some_platform (home_server 2) ++ (0 ∷ rest)) ≡ 8192)
generate_json-document_example =
    generate_json-document some_platform (home_server 2) (home_server-IsServer 2 (omega arith)) (
      length-document_of_le some_platform (home_server 2) (home_server-IsServer 2 (omega arith))
        home_server-HasRanges (omega arith))

generate_json-overflow_example : generate_json some_platform (home_server 50) ≡ fault
generate_json-overflow_example =
    generate_json-overflow some_platform (home_server 50) (home_server-IsServer 50 (omega arith)) (
      length-document_of_gt some_platform (home_server 50) (home_server-IsServer 50 (omega arith))
        refl home_server-IsFull)

generate_json-few_example :
    (rest : Bytes) × (generate_json some_platform (home_server 43)
      ≡ ok (written (home_server 43) (document_of some_platform (home_server 43)) (0 ∷ rest)))
    × (c_string (document_of some_platform (home_server 43) ++ (0 ∷ rest))
        ≡ some (document_of some_platform (home_server 43)))
generate_json-few_example =
    generate_json-few some_platform (home_server 43) (home_server-IsServer 43 (omega arith))
      home_server-HasRanges (omega arith)

generate_json-many_example : generate_json some_platform (home_server 50) ≡ fault
generate_json-many_example =
    generate_json-many some_platform (home_server 50) (home_server-IsServer 50 (omega arith)) refl
      home_server-IsFull

handle_connection_command_example :
    handle_connection some_platform 10 (sends (replicate 1024 65)) (home_server 1) ≡ (
      if ltb (length (until_nul (replicate 1024 65))) 1024
      then (if is_exit (until_nul (replicate 1024 65))
          then exit 0
          else if is_capture (until_nul (replicate 1024 65))
          then capture_command some_platform 10 some_pcap (home_server 1)
            >>= reply (sends (replicate 1024 65))
          else reply (sends (replicate 1024 65)) (home_server 1))
      else fault)
handle_connection_command_example =
    handle_connection_command some_platform 10 (sends (replicate 1024 65)) (replicate 1024 65)
      (home_server 1) (sends-IsReceived (replicate 1024 65))

abbrev some_system : System
some_system = record { atoi = λ text. pos 8080; socket = true; bind = λ port. true; listen = true }

main-IsReply_example :
    Answers
      (IsReply some_platform 10 (pcaps_of (sends (codes "capture") ∷ sends (codes "help") ∷ [])))
      (main some_platform 10 some_system
        (codes "server" ∷ codes "8080" ∷ [])
        (sends (codes "capture") ∷ sends (codes "help") ∷ []))
main-IsReply_example =
    main-IsReply some_platform 10 some_system (codes "server" ∷ codes "8080" ∷ [])
      (sends (codes "capture") ∷ sends (codes "help") ∷ []) some_platform-IsPlatform
      (some_pcap-IsPcap, (some_pcap-IsPcap, tt))

-- The globals after a capture of one beacon.
abbrev returned : Outcome Server → Server
returned (ok s) = s
returned _ = initial_server

abbrev captured_server : Server
captured_server = returned (
    capture_packets some_platform 10 some_pcap (some (codes "mon1")) 100
      (some (codes "subtype beacon")) initial_server)

capture_returns :
    capture_packets some_platform 10 some_pcap
      (some (codes "mon1"))
      100
      (some (codes "subtype beacon"))
      initial_server
    ≡ ok captured_server
capture_returns = returned_ok (
    capture_packets-returns some_platform 10 100 some_pcap (some (codes "mon1"))
      (some (codes "subtype beacon")) initial_server some_platform-IsPlatform some_pcap-IsPcap
      (unfold is_ready filter_ready in refl) (home_beacon-IsReadable, tt) initial_server-IsServer
      (omega arith))
  where
    returned_ok :
        (s' : Server) × (capture_packets some_platform 10 some_pcap
              (some (codes "mon1"))
              100
              (some (codes "subtype beacon"))
              initial_server
            ≡ ok s')
          × IsCapture 100 initial_server s'
        → capture_packets some_platform 10 some_pcap
            (some (codes "mon1"))
            100
            (some (codes "subtype beacon"))
            initial_server
          ≡ ok captured_server
    returned_ok (s', e, left) = e ∙ ap ok (sym (ap returned e))

-- The answer is the JSON text of that packet.
captured_text :
    document_of some_platform captured_server
    ≡ codes
        "{\"packets\":[{\"packet\":{\"datarate\":\"1000\",\"antenna\":\"1\",\"channel\":\"2412\",\"power\":\"200\",\"ssid\":\"home\",\"src\":\"02:00:00:00:00:01\",\"dst\":\"ff:ff:ff:ff:ff:ff\",\"bssid\":\"02:00:00:00:00:01\"}}]}"
unfolding document_of document packets_text members_of packet_text show_int decimal digits_onto
    char_value until_nul capture_packets open_device install_filter run_callbacks
    packet_capture_callback keep_packet parse_header parse_radio_tap radiotap_loop store_field
    current put_current parse_ethernet frame_type parse_frame parse_key read_ssid fill_ssid
    copy_address copy pkt_with_ssid_bssid_exists parse_addresses finish_beacon initial_server
captured_text = refl
