-- ===== src/Tests/Rounds.antt =====
-- The theorems on main over several connections, at concrete inputs.
use network_analyser_using_r.Base.{
  ◌≡◌, List, Option, Bool, pos, arith, true, Bytes, [], ◌∷◌, some, none, codes,
}
use network_analyser_using_r.CString.{until_nul}
use network_analyser_using_r.Dedup.Spec.{has_key}
use network_analyser_using_r.Dedup.Tally.{distinct, distinct_onto}
use network_analyser_using_r.Callback.Tally.{beacon_key, ssid_length}
use network_analyser_using_r.Ethernet.Key.{packet_key}
use network_analyser_using_r.Main.{Connection, System, main}
use network_analyser_using_r.Main.Course.{IsShortCommand, IsModest}
use network_analyser_using_r.Main.Reference.{reference, IsMeasuredRound, main-reference}
use network_analyser_using_r.Main.Follows.{FollowsMain, main-FollowsMain}
use network_analyser_using_r.Main.Start.{is_started}
use network_analyser_using_r.Tests.Machine.{some_platform, some_platform-IsPlatform}
use network_analyser_using_r.Tests.Fixtures.{home_beacon-IsReadableBeacon, some_pcap-IsPcap, sends}
use network_analyser_using_r.Tests.Networks.{home_beacon-IsMeasured}

abbrev pub some_system : System
some_system = record { atoi = λ text. pos 8080; socket = true; bind = λ port. true; listen = true }

-- A round in which the network is around, whatever `read` gives and whether `write` succeeds.
pub home_round :
    (received : Option Bytes) (written : Bool)
    → IsShortCommand received
    → IsModest some_platform 10 some_platform-IsPlatform
        (record (sends []) { received = received; written = written })
unfolding distinct distinct_onto has_key beacon_key ssid_length packet_key until_nul
home_round received written short = record {
  command = short;
  pcap = some_pcap-IsPcap;
  beacons = (home_beacon-IsReadableBeacon, tt);
  few = omega arith;
}

-- A connection on which `read` fails.
abbrev silent : Connection
silent = record (sends []) { received = none }

-- A capture, an unknown command, a failure, and a round that never comes.
abbrev some_rounds : List Connection
some_rounds = sends (codes "capture") ∷ sends (codes "help") ∷ silent ∷ sends (codes "exit") ∷ []

main-FollowsMain_example :
    FollowsMain some_platform 10 some_platform-IsPlatform
      (is_started some_system (codes "server" ∷ codes "8080" ∷ []))
      some_rounds
      (main some_platform 10 some_system (codes "server" ∷ codes "8080" ∷ []) some_rounds)
unfolding until_nul
main-FollowsMain_example =
    main-FollowsMain some_platform 10 some_system (codes "server" ∷ codes "8080" ∷ []) some_rounds
      some_platform-IsPlatform
      (
        home_round (some (codes "capture")) true (omega arith),
        (
          home_round (some (codes "help")) true (omega arith),
          (home_round none true tt, (home_round (some (codes "exit")) true (omega arith), tt)),
        ),
      )

measured_round :
    (received : Option Bytes) (written : Bool)
    → IsShortCommand received
    → IsMeasuredRound some_platform 10 some_platform-IsPlatform
        (record (sends []) { received = received; written = written })
measured_round received written short = record {
  modest = home_round received written short;
  measured = (home_beacon-IsMeasured, tt);
}

main-reference_example :
    main some_platform 10 some_system (codes "server" ∷ codes "8080" ∷ []) some_rounds
    ≡ reference some_platform 10 some_platform-IsPlatform some_rounds none
unfolding until_nul is_started
main-reference_example =
    main-reference some_platform 10 some_system (codes "server" ∷ codes "8080" ∷ []) some_rounds
      some_platform-IsPlatform
      (
        measured_round (some (codes "capture")) true (omega arith),
        (
          measured_round (some (codes "help")) true (omega arith),
          (
            measured_round none true tt,
            (measured_round (some (codes "exit")) true (omega arith), tt),
          ),
        ),
      )
