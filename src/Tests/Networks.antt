-- ===== src/Tests/Networks.antt =====
-- The theorems on captures as lists of keys and on what the document tells, at concrete inputs.
use network_analyser_using_r.Base.{
  ℕ, ◌+◌, ◌≤◌, ◌↔◌, ◌≡◌, refl, ap, sym, ◌∙◌, arith, Bytes, [], ◌∷◌, some, none, codes, length, take,
  length-take_le, All-take,
}
use network_analyser_using_r.Outcome.{Outcome, ok}
use network_analyser_using_r.CString.{c_string, until_nul}
use network_analyser_using_r.State.{Server}
use network_analyser_using_r.State.Ranges.{IsRanged}
use network_analyser_using_r.State.Slots.{IsServer}
use network_analyser_using_r.Dedup.Spec.{Key, has_key, keys}
use network_analyser_using_r.Dedup.Tally.{tally, empty_tally, note_keys, distinct, distinct_onto}
use network_analyser_using_r.Ethernet.Total.{IsPacket}
use network_analyser_using_r.Callback.Tally.{beacon_key, ssid_length}
use network_analyser_using_r.Capture.{Pcap, IsPcap, capture_packets}
use network_analyser_using_r.Capture.Correct.{is_ready}
use network_analyser_using_r.Capture.Ranges.{capture_packets-IsRanged}
use network_analyser_using_r.Capture.Tally.{
  packet_keys, capture_packets-note_keys, capture_packets-has_key, capture_packets-distinct,
}
use network_analyser_using_r.Ethernet.Key.{packet_key}
use network_analyser_using_r.Json.{generate_json}
use network_analyser_using_r.Json.Text.{members_of}
use network_analyser_using_r.Json.Bounds.{length-document_of_le, generate_json-few}
use network_analyser_using_r.Json.Injective.{printed, counted, generate_json-printed_iff}
use network_analyser_using_r.Json.RoundTrip.{read_json}
use network_analyser_using_r.Json.Shape.{document_value, generate_json-read_json}
use network_analyser_using_r.Main.{initial_server}
use network_analyser_using_r.Radiotap.Walk.{walk, has_measurements}
use network_analyser_using_r.Callback.Shown.{IsMeasuredPacket}
use network_analyser_using_r.Capture.Shown.{packets_document, capture_packets-packets_document}
use network_analyser_using_r.Json.Text.{document_of}
use network_analyser_using_r.Json.Shape.{ArePlainTexts}
use network_analyser_using_r.Tests.Machine.{some_platform, some_platform-IsPlatform}
use network_analyser_using_r.Tests.Fixtures.{
  home_beacon, home_beacon-IsPacket, home_beacon-IsReadableBeacon, home_server,
  home_server-IsServer, home_server-HasRanges, some_pcap, home_slot,
}
use mathlib.Core.List.{map}

-- libpcap that hands over the same beacon twice.
abbrev twice : Pcap
twice = record some_pcap { loop = λ n. take n (home_beacon ∷ home_beacon ∷ []) }

twice-IsPcap : IsPcap twice
twice-IsPcap = record {
  at_most = λ n positive. length-take_le n (home_beacon ∷ home_beacon ∷ []);
  bytes = λ n.
      All-take IsPacket n (home_beacon ∷ home_beacon ∷ [])
        (home_beacon-IsPacket, (home_beacon-IsPacket, tt));
}

capture_packets-note_keys_example :
    (s' : Server) × (capture_packets some_platform 10 twice
        (some (codes "mon1"))
        100
        none
        (home_server 3)
      ≡ ok s')
    × IsServer s'
    × (tally s'
        ≡ note_keys empty_tally
            (packet_keys some_platform 10 some_platform-IsPlatform (twice.loop 100)))
unfolding is_ready
capture_packets-note_keys_example =
    capture_packets-note_keys some_platform 10 some_platform-IsPlatform 100 twice
      (some (codes "mon1")) none (home_server 3) twice-IsPcap refl
      (home_beacon-IsReadableBeacon, (home_beacon-IsReadableBeacon, tt))
      (home_server-IsServer 3 (omega arith))

capture_packets-distinct_example :
    (s' : Server) × (capture_packets some_platform 10 twice
        (some (codes "mon1"))
        100
        none
        (home_server 3)
      ≡ ok s')
    × IsServer s'
    × (keys s'
        ≡ take 50
            (distinct (packet_keys some_platform 10 some_platform-IsPlatform (twice.loop 100))))
unfolding is_ready
capture_packets-distinct_example =
    capture_packets-distinct some_platform 10 some_platform-IsPlatform 100 twice
      (some (codes "mon1")) none (home_server 3) twice-IsPcap refl
      (home_beacon-IsReadableBeacon, (home_beacon-IsReadableBeacon, tt))
      (home_server-IsServer 3 (omega arith))

-- One network, seen twice.
distinct_twice :
    length (distinct (packet_keys some_platform 10 some_platform-IsPlatform (twice.loop 100))) ≡ 1
unfolding distinct distinct_onto has_key beacon_key ssid_length packet_key until_nul
distinct_twice = refl

pub home_beacon-IsMeasured : IsMeasuredPacket some_platform 10 home_beacon
unfolding walk has_measurements
home_beacon-IsMeasured = refl

capture_packets-packets_document_example :
    (s' : Server) × (capture_packets some_platform 10 twice
        (some (codes "mon1"))
        100
        none
        (home_server 3)
      ≡ ok s')
    × (document_of some_platform s'
        ≡ packets_document some_platform 10 some_platform-IsPlatform (twice.loop 100))
unfolding is_ready
capture_packets-packets_document_example =
    capture_packets-packets_document some_platform 10 some_platform-IsPlatform 100 twice
      (some (codes "mon1")) none (home_server 3) twice-IsPcap refl
      (home_beacon-IsReadableBeacon, (home_beacon-IsReadableBeacon, tt))
      (home_beacon-IsMeasured, (home_beacon-IsMeasured, tt)) (home_server-IsServer 3 (omega arith))

home_slot-ArePlainTexts : ArePlainTexts home_slot
unfolding until_nul
home_slot-ArePlainTexts = record { ssid = refl; src = refl; dst = refl; bssid = refl }

generate_json-read_json_example :
    (s' : Server) × (t : Bytes) × (generate_json some_platform (home_server 2) ≡ ok s')
    × (c_string s'.output_buff ≡ some t)
    × (read_json t
        ≡ some (document_value (map (members_of some_platform) (home_slot ∷ home_slot ∷ [])), []))
unfolding until_nul
generate_json-read_json_example =
    generate_json-read_json some_platform (home_server 2) (home_server-IsServer 2 (omega arith))
      (length-document_of_le some_platform (home_server 2) (home_server-IsServer 2 (omega arith))
        home_server-HasRanges (omega arith))
      (home_slot-ArePlainTexts, (home_slot-ArePlainTexts, tt))

-- The globals after a capture of the network twice.
abbrev returned : Outcome Server → Server
returned (ok s) = s
returned _ = initial_server

capture_packets-IsRanged_example : IsRanged (
    returned
      (capture_packets some_platform 10 twice (some (codes "mon1")) 100 none (home_server 3)))
capture_packets-IsRanged_example =
    capture_packets-IsRanged some_platform 10 some_platform-IsPlatform 100 twice
      (some (codes "mon1")) none (home_server 3) _ twice-IsPcap home_server-HasRanges captured
  where
    captured :
        capture_packets some_platform 10 twice (some (codes "mon1")) 100 none (home_server 3)
        ≡ ok (
            returned (
              capture_packets some_platform 10 twice
                (some (codes "mon1"))
                100
                none
                (home_server 3)))
    captured =
        let (s', e, valid, noted) = capture_packets-note_keys_example in
        e ∙ ap ok (sym (ap returned e))

generated :
    (n : ℕ)
    → n ≤ 43
    → generate_json some_platform (home_server n)
      ≡ ok (returned (generate_json some_platform (home_server n)))
generated n few =
    let (rest, made, text) =
      generate_json-few some_platform (home_server n) (home_server-IsServer n (omega arith))
        home_server-HasRanges few in
    made ∙ ap ok (sym (ap returned made))

generate_json-printed_iff_example :
    (c_string (returned (generate_json some_platform (home_server 1))).output_buff
      ≡ c_string (returned (generate_json some_platform (home_server 2))).output_buff)
    ↔ (map printed (counted (home_server 1)) ≡ map printed (counted (home_server 2)))
generate_json-printed_iff_example =
    generate_json-printed_iff some_platform (home_server 1)
      (returned (generate_json some_platform (home_server 1))) (home_server 2)
      (returned (generate_json some_platform (home_server 2)))
      (home_server-IsServer 1 (omega arith)) (home_server-IsServer 2 (omega arith))
      home_server-HasRanges home_server-HasRanges (home_slot-ArePlainTexts, tt)
      (home_slot-ArePlainTexts, (home_slot-ArePlainTexts, tt)) (generated 1 (omega arith))
      (generated 2 (omega arith))

capture_packets-has_key_example :
    (s' : Server) × (capture_packets some_platform 10 twice
        (some (codes "mon1"))
        100
        none
        (home_server 3)
      ≡ ok s')
    × ((k : Key)
        → has_key (keys s') k
          ≡ has_key (packet_keys some_platform 10 some_platform-IsPlatform (twice.loop 100)) k)
    × (s'.cur_packet_count + s'.dup_packets_discarded ≡ 2)
unfolding is_ready
capture_packets-has_key_example =
    capture_packets-has_key some_platform 10 some_platform-IsPlatform 100 twice
      (some (codes "mon1")) none (home_server 3) twice-IsPcap refl
      (home_beacon-IsReadableBeacon, (home_beacon-IsReadableBeacon, tt))
      (home_server-IsServer 3 (omega arith)) (omega (arith, distinct_twice))
