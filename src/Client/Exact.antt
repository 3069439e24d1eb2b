-- ===== src/Client/Exact.antt =====
-- The requests of the Java client over a session, from the packets alone.
use network_analyser_using_r.Base.{
  ℕ, ◌≡◌, refl, ap, ◌∙◌, subst, arith, true, Bytes, List, [], ◌∷◌, none, some, length, All, take,
  if◌then◌else◌, Bool-cases, inl, inr,
}
use network_analyser_using_r.Outcome.{exit}
use network_analyser_using_r.State.{Platform, IsPlatform, Server}
use network_analyser_using_r.Dedup.Spec.{captured}
use network_analyser_using_r.Json.Text.{members_of}
use network_analyser_using_r.Callback.Shown.{IsMeasuredPacket, show_packets, shown_members}
use network_analyser_using_r.Main.{
  Connection, System, handle_connection, serve, initial_server, main,
}
use network_analyser_using_r.Main.Start.{is_started, main_lem}
use network_analyser_using_r.Main.Course.{Shown, ends, goes, packets_of, ListsPackets, IsShowing}
use network_analyser_using_r.Main.Course.Meets.{Meets, handle_connection-Meets}
use network_analyser_using_r.Main.Follows.{initial_server-IsShowing}
use network_analyser_using_r.Client.Seen.{packet_of}
use network_analyser_using_r.Client.Binding.{NetworkCaptureData}
use network_analyser_using_r.Client.Service.{ObjectMapper, IsObjectMapper, rpi_id}
use network_analyser_using_r.Client.Rest.{run, post_captured_data_to_server}
use network_analyser_using_r.Client.Posts.{capture_and_send_network_data-document_of}
use network_analyser_using_r.Client.Ascii.{document_of-ascii}
use network_analyser_using_r.Client.Clean.{WritesMacTexts, IsFromSome-texts}
use network_analyser_using_r.Client.Session.{
  reads, requests, is_answered, answered, course-client, IsClientRound,
}
use mathlib.Core.List.{map}

module _ (p : Platform) (fuel : ℕ) (documented : IsPlatform p) where
  -- A round with the command of the client, with packets that have all four measurements.
  pub record IsMeasuredClient (c : Connection) : Type 0 where
    pub round : IsClientRound p fuel documented c
    pub measured : All (IsMeasuredPacket p fuel) (packets_of c)

  -- The data object for the packets of a round.
  abbrev pub data_of : Connection → NetworkCaptureData
  data_of c = record {
    dev_id = some rpi_id;
    packets = map packet_of (show_packets p fuel documented.address_text [] (packets_of c));
  }

module _ (p : Platform) (fuel : ℕ) (documented : IsPlatform p)
    (mac_texts : WritesMacTexts documented.address_text) (mapper : ObjectMapper)
    (binds : IsObjectMapper mapper) (encode : Bytes → Bytes) where
  run-data_of :
      (c : Connection) (text : Bytes)
      → IsClientRound p fuel documented c
      → (l : ListsPackets p fuel documented (packets_of c) text)
      → shown_members p fuel documented.address_text l.lists.s
        ≡ show_packets p fuel documented.address_text [] (packets_of c)
      → run encode mapper (reads text)
        ≡ post_captured_data_to_server encode (data_of p fuel documented c) ∷ []
  run-data_of c text r l e =
      let s = l.lists.s in
      let (plain, ascii) =
        IsFromSome-texts p fuel documented mac_texts (packets_of c) r.modest.beacons r.plain
          (captured s) l.known in
      let counted = ap (λ n. take n s.cap_info.packet_info_array) l.lists.valid.counted in
      let sent =
        capture_and_send_network_data-document_of p mapper binds (reads text) s
          (record { host = refl; connects = refl; read = ap some l.lists.same }) (rw counted plain)
          (document_of-ascii p s (rw counted ascii))
          (omega (arith, ap length l.lists.same, l.fits)) in
      ap (map (post_captured_data_to_server encode)) (
        sent
        ∙ ap (λ ms. record { dev_id = some rpi_id; packets = map packet_of ms } ∷ [])
            (ap (map (members_of p)) counted ∙ e))

  serve-data_of :
      (cs : List Connection) (shown : Shown) (s : Server)
      → All (IsMeasuredClient p fuel documented) cs
      → IsShowing p fuel documented shown s
      → requests encode mapper (serve p fuel cs s)
        ≡ map (λ c. post_captured_data_to_server encode (data_of p fuel documented c)) (answered cs)
  unfolding serve answered
  serve-data_of [] shown s m h = refl
  serve-data_of (c ∷ cs) shown s m h =
      let met : Meets p fuel documented
          (if is_answered c then goes (some (packets_of c)) else ends 1)
          (handle_connection p fuel c s) =
        subst (λ k. Meets p fuel documented k (handle_connection p fuel c s))
          (course-client c shown m.0.round.command)
          (handle_connection-Meets p fuel documented c shown s m.0.round.modest h) in
      elim (Bool-cases (is_answered c)) [
        | inr e ↦
            let ended : handle_connection p fuel c s ≡ exit 1 = rw e at met in rw (e, ended) refl
        | inl e ↦
            let (s', held, made) = rw e at met in
            rw
              (
                e,
                made,
                run-data_of c held.text m.0.round held.shows (held.exact m.0.measured),
                serve-data_of cs (some (packets_of c)) s' m.1 held,
              )
              refl
      ]

  -- With a machine as documented, ether_ntoa that writes hexadecimal digits and colons, and a
  -- mapper as documented, where the server starts and every connection is one of a client with
  -- the command capture, with beacons of at most 43 networks within the bounds of the server,
  -- with SSIDs that are ASCII and have no quote, backslash or control character and with a rate,
  -- an antenna, a signal power and a channel in their radiotap headers, whatever calls of the
  -- system fail, let a task of the Java client read each answer of main at once. The requests
  -- that the client sends are exactly one post for each round before the first in which a call
  -- fails or libpcap refuses, of a data object made from the packets of the round alone: the id
  -- of the Raspberry Pi and, for the first packet of each SSID and BSSID, its texts and
  -- measurements.
  pub main-data_of :
      (sys : System) (argv : List Bytes) (cs : List Connection)
      → is_started sys argv ≡ true
      → All (IsMeasuredClient p fuel documented) cs
      → requests encode mapper (main p fuel sys argv cs)
        ≡ map (λ c. post_captured_data_to_server encode (data_of p fuel documented c)) (answered cs)
  main-data_of sys argv cs started m =
      let served : main p fuel sys argv cs ≡ serve p fuel cs initial_server =
        main_lem p fuel sys argv cs ∙ rw started refl in
      ap (requests encode mapper) served
      ∙ serve-data_of cs none initial_server m (initial_server-IsShowing p fuel documented)
