-- ===== src/Main/Course.antt =====
-- The server as its clients see it: what each round makes of the packets of the last capture.
pub mod Meets
use network_analyser_using_r.Base.{
  ℕ, ◌≡◌, ◌≤◌, ◌<◌, refl, ap, ◌∙◌, sym, subst, arith, Bool, true, false, ◌&&◌, Bytes, List, [], ◌∷◌,
  Option, none, some, codes, length, if◌then◌else◌, take_le, All, All-replicate, Bool-cases, inl,
  inr,
}
use network_analyser_using_r.Outcome.{Outcome, ok, exit, ◌>>=◌}
use network_analyser_using_r.CString.{c_string, until_nul}
use network_analyser_using_r.State.{
  Platform, IsPlatform, Server, max_packet_info_count, max_output_buffer_size,
  max_packet_capture_count,
}
use network_analyser_using_r.State.Ranges.{IsRanged}
use network_analyser_using_r.State.Slots.{IsServer}
use network_analyser_using_r.Dedup.Spec.{Key, keys}
use network_analyser_using_r.Dedup.Tally.{distinct, length-keys}
use network_analyser_using_r.Callback.Tally.{IsReadableBeacon}
use network_analyser_using_r.Capture.{IsPcap, capture_packets}
use network_analyser_using_r.Capture.Correct.{is_ready, capture_packets_lem}
use network_analyser_using_r.Capture.Ranges.{capture_packets-IsRanged}
use network_analyser_using_r.Capture.Tally.{packet_keys, capture_packets-distinct}
use network_analyser_using_r.Capture.Source.{Known, capture_packets-Known}
use network_analyser_using_r.Json.{generate_json}
use network_analyser_using_r.Json.Sprintf.{written}
use network_analyser_using_r.Json.Text.{document_of}
use network_analyser_using_r.Json.Document.{generate_json-document}
use network_analyser_using_r.Json.Bounds.{length-document_of_le}
use network_analyser_using_r.Command.{capture_command}
use network_analyser_using_r.Command.Laws.{is_exit, is_capture}
use network_analyser_using_r.Callback.Shown.{IsMeasuredPacket, show_packets, shown_members}
use network_analyser_using_r.Capture.Shown.{packets_document}
use network_analyser_using_r.Main.{Connection, bufsize, handle_connection}
use network_analyser_using_r.Main.Laws.{IsReceived, reply, handle_connection_lem}
use network_analyser_using_r.Main.Start.{is_received, handle_connection_failed}

-- The packets of the last capture, if there was one.
abbrev pub Shown : Type 0
Shown = Option (List Bytes)

-- A round ends the program with a status, or the server goes on.
pub data Course : Type 0 where
  ends : ℕ → Course
  goes : Shown → Course

abbrev pub packets_of : Connection → List Bytes
packets_of c = c.pcap.loop max_packet_capture_count

abbrev pub accepts : Connection → Bool
accepts c = is_ready c.pcap (some (codes "mon1")) (some (codes "subtype beacon"))

-- The calls before `read` succeed.
abbrev pub called : Connection → Bool
called c = c.accepted && (c.resolved && c.named)

-- The answer is sent, or the program ends.
abbrev pub sent : Connection → Shown → Course
sent c shown = if c.written then goes shown else ends 1

unfoldable pub commanded : Connection → Bytes → Shown → Course
commanded c text shown =
    if is_exit text
    then ends 0
    else if is_capture text
    then (if accepts c then sent c (some (packets_of c)) else ends 1)
    else sent c shown

unfoldable pub course : Connection → Shown → Course
unfolding commanded
course c shown =
    if called c
    then elim c.received [ none ↦ ends 1 | some bytes ↦ commanded c (until_nul bytes) shown ]
    else ends 1

-- A command that leaves room for a NUL in the buffer, if one is read.
abbrev pub IsShortCommand : Option Bytes → Type 0
IsShortCommand none = Unit
IsShortCommand (some bytes) = length (until_nul bytes) < bufsize

-- The text is the document for packets with these keys.
pub record Lists (p : Platform) (ks : List Key) (text : Bytes) : Type 0 where
  pub s : Server
  pub valid : IsServer s
  pub kept : keys s ≡ ks
  pub same : text ≡ document_of p s

module _ (p : Platform) (fuel : ℕ) (documented : IsPlatform p) where
  -- The networks in packets, in the order of their first beacons.
  abbrev pub networks : List Bytes → List Key
  networks packets = distinct (packet_keys p fuel documented packets)

  -- The text is the document for the networks of the packets, each slot with the texts of one.
  pub record ListsPackets (packets : List Bytes) (text : Bytes) : Type 0 where
    pub lists : Lists p (networks packets) text
    pub known : Known p fuel documented packets lists.s
    pub fits : length text < max_output_buffer_size

  -- What the server answers: nothing before the first capture.
  abbrev pub IsShown : Shown → Bytes → Type 0
  IsShown none text = text ≡ []
  IsShown (some packets) text = ListsPackets packets text

  -- Where each of the packets has all four measurements, they determine what is listed.
  abbrev pub IsExact : (shown : Shown) (text : Bytes) → IsShown shown text → Type 0
  IsExact none text l = Unit
  IsExact (some packets) text l =
      All (IsMeasuredPacket p fuel) packets
      → shown_members p fuel documented.address_text l.lists.s
        ≡ show_packets p fuel documented.address_text [] packets

  -- The globals that show it.
  pub record IsShowing (shown : Shown) (s : Server) : Type 0 where
    pub valid : IsServer s
    pub ranged : IsRanged s
    pub text : Bytes
    pub holds : c_string s.output_buff ≡ some text
    pub shows : IsShown shown text
    pub exact : IsExact shown text shows

  -- Whatever fails and whatever the command is: there is room for its NUL, and libpcap would hand
  -- over readable beacons of at most 43 networks.
  pub record IsModest (c : Connection) : Type 0 where
    pub command : IsShortCommand c.received
    pub pcap : IsPcap c.pcap
    pub beacons : All (IsReadableBeacon p fuel) (packets_of c)
    pub few : length (networks (packets_of c)) ≤ 43
