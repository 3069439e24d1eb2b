-- ===== src/Main/Course/Meets.antt =====
-- The rounds of main take their courses.
use network_analyser_using_r.Base.{
  ℕ, ◌≡◌, ◌≤◌, refl, ap, ◌∙◌, sym, subst, arith, Bool, true, false, Bytes, ◌∷◌, Option, none, some,
  codes, length, if◌then◌else◌, take_le, Bool-cases, inl, inr,
}
use network_analyser_using_r.Outcome.{Outcome, ok, exit, ◌>>=◌}
use network_analyser_using_r.CString.{until_nul}
use network_analyser_using_r.State.{
  Platform, IsPlatform, Server, max_packet_info_count, max_packet_capture_count,
}
use network_analyser_using_r.State.Ranges.{IsRanged}
use network_analyser_using_r.State.Slots.{IsServer}
use network_analyser_using_r.Dedup.Spec.{keys}
use network_analyser_using_r.Dedup.Tally.{length-keys}
use network_analyser_using_r.Capture.Correct.{capture_packets_lem}
use network_analyser_using_r.Capture.Ranges.{capture_packets-IsRanged}
use network_analyser_using_r.Capture.Tally.{capture_packets-distinct}
use network_analyser_using_r.Capture.Shown.{capture_packets-show_packets}
use network_analyser_using_r.Capture.Source.{capture_packets-Known}
use network_analyser_using_r.Json.Sprintf.{written}
use network_analyser_using_r.Json.Text.{document_of}
use network_analyser_using_r.Json.Document.{generate_json-document}
use network_analyser_using_r.Json.Bounds.{length-document_of_le}
use network_analyser_using_r.Command.{capture_command}
use network_analyser_using_r.Command.Laws.{is_exit, is_capture}
use network_analyser_using_r.Main.{Connection, handle_connection}
use network_analyser_using_r.Main.Laws.{IsReceived, reply, handle_connection_lem}
use network_analyser_using_r.Main.Start.{is_received, handle_connection_failed}
use network_analyser_using_r.Main.Course.{
  Shown, Course, ends, goes, packets_of, accepts, called, sent, commanded, course, IsShortCommand,
  networks, IsShowing, IsModest,
}

module _ (p : Platform) (fuel : ℕ) (documented : IsPlatform p) where
  capture_command-IsShowing :
      (c : Connection) (s : Server)
      → IsModest p fuel documented c
      → accepts c ≡ true
      → IsServer s
      → IsRanged s
      → (s' : Server) × (capture_command p fuel c.pcap s ≡ ok s')
        × IsShowing p fuel documented (some (packets_of c)) s'
  unfolding capture_command
  capture_command-IsShowing c s m ready v r =
      let n = max_packet_capture_count in
      let dev = some (codes "mon1") in
      let filter = some (codes "subtype beacon") in
      let (s1, e, valid, kept) =
        capture_packets-distinct p fuel documented n c.pcap dev filter s m.pcap ready m.beacons v in
      let ranged = capture_packets-IsRanged p fuel documented n c.pcap dev filter s s1 m.pcap r e in
      let all : keys s1 ≡ networks p fuel documented (packets_of c) =
        kept
        ∙ take_le max_packet_info_count (networks p fuel documented (packets_of c))
            (omega (arith, m.few)) in
      let few : s1.cap_info.packet_info_count ≤ 43 =
        omega (arith, valid.counted, length-keys s1 valid, ap length all, m.few) in
      let fits = length-document_of_le p s1 valid ranged few in
      let (rest, made, holds, size) = generate_json-document p s1 valid fits in
      (
        written s1 (document_of p s1) (0 ∷ rest),
        rw e made,
        record {
          valid = record {
            counted = valid.counted;
            within = valid.within;
            size = valid.size;
            slots = valid.slots;
            buffer = size;
          };
          ranged = ranged;
          text = document_of p s1;
          holds = holds;
          shows = record {
            lists = record { s = s1; valid = valid; kept = all; same = refl };
            known =
                capture_packets-Known p fuel documented n c.pcap dev filter s s1 m.pcap ready
                  m.beacons v e;
            fits = fits;
          };
          exact = λ measured.
              capture_packets-show_packets p fuel documented n c.pcap dev filter s s1 m.pcap ready
                m.beacons measured v e;
        },
      )

  capture_command_refused :
      (c : Connection) (s : Server) → accepts c ≡ false → capture_command p fuel c.pcap s ≡ exit 1
  unfolding capture_command
  capture_command_refused c s refused =
      rw
        (
          capture_packets_lem p fuel max_packet_capture_count c.pcap (some (codes "mon1"))
              (some (codes "subtype beacon")) s,
          refused,
        )
        refl

  -- The outcome is that of the course.
  abbrev pub Meets : Course → Outcome (Bytes × Server) → Type 0
  Meets (ends status) m = m ≡ exit status
  Meets (goes shown) m =
      (s' : Server) × (held : IsShowing p fuel documented shown s') × (m ≡ ok (held.text, s'))

  reply-Meets :
      (c : Connection) (shown : Shown) (s : Server)
      → IsShowing p fuel documented shown s
      → Meets (sent c shown) (reply c s)
  reply-Meets c shown s h = elim (Bool-cases c.written) [
    | inl e ↦ rw (e, h.holds) (s, h, refl)
    | inr e ↦ rw (e, h.holds) refl
  ]

  commanded-Meets :
      (c : Connection) (text : Bytes) (shown : Shown) (s : Server)
      → IsModest p fuel documented c
      → IsShowing p fuel documented shown s
      → Meets (commanded c text shown) (
          if is_exit text
          then exit 0
          else if is_capture text
          then capture_command p fuel c.pcap s >>= reply c
          else reply c s)
  unfolding commanded
  commanded-Meets c text shown s m h = elim (Bool-cases (is_exit text)) [
    | inl e ↦ rw e refl
    | inr e ↦ elim (Bool-cases (is_capture text)) [
      | inr f ↦ rw (e, f) (reply-Meets c shown s h)
      | inl f ↦ elim (Bool-cases (accepts c)) [
        | inr g ↦ rw (e, f, g, capture_command_refused c s g) refl
        | inl g ↦
            let (s', made, h') = capture_command-IsShowing c s m g h.valid h.ranged in
            rw (e, f, g, made) (reply-Meets c (some (packets_of c)) s' h')
      ]
    ]
  ]

  called-Meets :
      (c : Connection) (shown : Shown) (s : Server) (b : Bool) (o : Option Bytes)
      → IsModest p fuel documented c
      → IsShowing p fuel documented shown s
      → called c ≡ b
      → c.received ≡ o
      → Meets
          (if b
            then elim o [ none ↦ ends 1 | some bytes ↦ commanded c (until_nul bytes) shown ]
            else ends 1)
          (handle_connection p fuel c s)
  unfolding is_received
  called-Meets c shown s false o m h e f = handle_connection_failed p fuel c s (ground arith)
  called-Meets c shown s true none m h e f = handle_connection_failed p fuel c s (ground arith)
  called-Meets c shown s true (some bytes) m h e f =
      let r : IsReceived c bytes = record {
        accepted = ground arith;
        resolved = ground arith;
        named = ground arith;
        received = f;
      } in
      subst (Meets (commanded c (until_nul bytes) shown))
        (sym (handle_connection_lem p fuel c bytes s r (subst IsShortCommand f m.command)))
        (commanded-Meets c (until_nul bytes) shown s m h)

  -- Each round takes its course.
  pub handle_connection-Meets :
      (c : Connection) (shown : Shown) (s : Server)
      → IsModest p fuel documented c
      → IsShowing p fuel documented shown s
      → Meets (course c shown) (handle_connection p fuel c s)
  unfolding course
  handle_connection-Meets c shown s m h = called-Meets c shown s (called c) c.received m h refl refl
