-- ===== src/Client/Session.antt =====
-- The Java client against the server, over a session of rounds.
use network_analyser_using_r.Base.{
  ℕ, ◌≡◌, refl, ap, arith, Bytes, List, [], ◌∷◌, ◌++◌, some, none, Bool, true, ◌&&◌, All, take,
  if◌then◌else◌, subst, Bool-cases, inl, inr,
}
use network_analyser_using_r.CString.{until_nul, same_text}
use network_analyser_using_r.State.{PacketInfo, Platform, IsPlatform}
use network_analyser_using_r.Dedup.Spec.{captured}
use network_analyser_using_r.Main.{
  Connection, System, Trace, waiting, exited, crashed, hung, answer, main,
}
use network_analyser_using_r.Command.Laws.{is_exit, is_capture, is_word}
use network_analyser_using_r.Main.Start.{is_started}
use network_analyser_using_r.Main.Course.{
  Shown, ends, goes, packets_of, accepts, called, sent, commanded, course, networks, ListsPackets,
  IsModest,
}
use network_analyser_using_r.Main.Follows.{Follows, FollowsRound, FollowsMain, main-FollowsMain}
use network_analyser_using_r.Callback.Source.{IsFromSome}
use network_analyser_using_r.Json.Text.{members_of}
use network_analyser_using_r.Client.Seen.{packet_of}
use network_analyser_using_r.Client.Binding.{NetworkCaptureData}
use network_analyser_using_r.Client.Service.{
  ObjectMapper, IsObjectMapper, Remote, rpi_id, client_capture_command,
}
use network_analyser_using_r.Client.Rest.{HttpRequest, run, post_captured_data_to_server}
use network_analyser_using_r.Client.Posts.{
  posted_key, some_key, capture_and_send_network_data-Lists,
}
use network_analyser_using_r.Client.Ascii.{document_of-ascii}
use network_analyser_using_r.Client.Clean.{WritesMacTexts, HasPlainSsid, IsFromSome-texts}
use mathlib.Core.List.{map}

-- A task that reaches the server and reads the whole answer at once.
abbrev pub reads : Bytes → Remote
reads text = record { host = true; connects = λ command. true; read = some text }

-- The requests of one task for each answer of the server.
abbrev pub requests : (Bytes → Bytes) → ObjectMapper → Trace → List HttpRequest
requests encode mapper (answer text rest) =
    run encode mapper (reads text) ++ requests encode mapper rest
requests encode mapper waiting = []
requests encode mapper (exited status) = []
requests encode mapper crashed = []
requests encode mapper hung = []

-- The calls of the system succeed and libpcap accepts the device and the filter.
unfoldable pub is_answered : Connection → Bool
is_answered c = called c && (accepts c && c.written)

-- The rounds before the first in which a call fails.
unfoldable pub answered : List Connection → List Connection
unfolding is_answered
answered [] = []
answered (c ∷ cs) = let rest = answered cs in if is_answered c then c ∷ rest else []

pub course-client :
    (c : Connection) (shown : Shown)
    → c.received ≡ some client_capture_command
    → course c shown ≡ (if is_answered c then goes (some (packets_of c)) else ends 1)
unfolding course commanded is_answered is_exit is_capture is_word same_text until_nul
course-client c shown h = ground arith

module _ (p : Platform) (fuel : ℕ) (documented : IsPlatform p) where
  -- A round with the command of the client, plain SSIDs and few networks, whatever fails.
  pub record IsClientRound (c : Connection) : Type 0 where
    pub modest : IsModest p fuel documented c
    pub command : c.received ≡ some client_capture_command
    pub plain : All (HasPlainSsid documented.address_text) (packets_of c)

  -- What the task makes of one answer: the networks of the round, and slots that come from its
  -- packets.
  pub record IsPosted (c : Connection) (d : NetworkCaptureData) : Type 0 where
    pub id : d.dev_id ≡ some rpi_id
    pub keys : map posted_key d.packets ≡ map some_key (networks p fuel documented (packets_of c))
    pub qs : List PacketInfo
    pub from : All (IsFromSome p documented.address_text (packets_of c)) qs
    pub shown : d.packets ≡ map packet_of (map (members_of p) qs)

  abbrev pub ArePosted : List Connection → List NetworkCaptureData → Type 0
  ArePosted [] [] = Unit
  ArePosted (c ∷ cs) (d ∷ ds) = IsPosted c d × ArePosted cs ds
  ArePosted _ _ = ⊥

module _ (p : Platform) (fuel : ℕ) (documented : IsPlatform p)
    (mac_texts : WritesMacTexts documented.address_text) (mapper : ObjectMapper)
    (binds : IsObjectMapper mapper) (encode : Bytes → Bytes) where
  run-ListsPackets :
      (c : Connection) (text : Bytes)
      → IsClientRound p fuel documented c
      → ListsPackets p fuel documented (packets_of c) text
      → (d : NetworkCaptureData) × (run encode mapper (reads text)
          ≡ post_captured_data_to_server encode d ∷ [])
        × IsPosted p fuel documented c d
  run-ListsPackets c text r l =
      let s = l.lists.s in
      let (plain, ascii) =
        IsFromSome-texts p fuel documented mac_texts (packets_of c) r.modest.beacons r.plain
          (captured s) l.known in
      let shown = ap (λ n. take n s.cap_info.packet_info_array) l.lists.valid.counted in
      let (d, sent, id, packets, keys) =
        capture_and_send_network_data-Lists p mapper binds (reads text) text _ l.lists
          (record { host = refl; connects = refl; read = refl }) plain
          (rw l.lists.same (document_of-ascii p s (rw shown ascii))) (omega (arith, l.fits)) in
      (
        d,
        ap (map (post_captured_data_to_server encode)) sent,
        record { id = id; keys = keys; qs = captured s; from = l.known; shown = packets },
      )

  requests-Follows :
      (cs : List Connection) (shown : Shown) (t : Trace)
      → All (IsClientRound p fuel documented) cs
      → Follows p fuel documented cs shown t
      → (ds : List NetworkCaptureData) × (requests encode mapper t
          ≡ map (post_captured_data_to_server encode) ds)
        × ArePosted p fuel documented (answered cs) ds
  unfolding answered
  requests-Follows [] shown t r e = ([], rw e refl, tt)
  requests-Follows (c ∷ cs) shown t r f =
      let g : FollowsRound p fuel documented (Follows p fuel documented cs)
          (if is_answered c then goes (some (packets_of c)) else ends 1) t =
        subst (λ k. FollowsRound p fuel documented (Follows p fuel documented cs) k t)
          (course-client c shown r.0.command) f in
      elim (Bool-cases (is_answered c)) [
        | inr e ↦ let ended : t ≡ exited 1 = rw e at g in rw e ([], rw ended refl, tt)
        | inl e ↦
            let (text, rest, same, shows, next) = rw e at g in
            let (d, first, posted) = run-ListsPackets c text r.0 shows in
            let (ds, others, all) = requests-Follows cs (some (packets_of c)) rest r.1 next in
            rw (e, same) (d ∷ ds, rw (first, others) refl, (posted, all))
      ]

  IsModest-rounds :
      (cs : List Connection)
      → All (IsClientRound p fuel documented) cs
      → All (IsModest p fuel documented) cs
  IsModest-rounds [] r = tt
  IsModest-rounds (c ∷ cs) r = (r.0.modest, IsModest-rounds cs r.1)

  -- With a machine as documented, ether_ntoa that writes hexadecimal digits and colons, and a
  -- mapper as documented, where the server starts and every connection is one of a client with
  -- the command capture, with beacons of at most 43 networks within the bounds of the server,
  -- with SSIDs that are ASCII and have no quote, backslash or control character, whatever calls
  -- of the system fail, let a task of the Java client read each answer of main at once. The
  -- requests that the client sends are then one post for each round before the first in which a
  -- call fails or libpcap refuses, with the id of the Raspberry Pi and exactly the networks of
  -- the round, each once, in the order of their first beacons; the members of each packet are
  -- those of a slot that comes from a packet of the round.
  pub main-ArePosted :
      (sys : System) (name port : Bytes) (cs : List Connection)
      → is_started sys (name ∷ port ∷ []) ≡ true
      → All (IsClientRound p fuel documented) cs
      → (ds : List NetworkCaptureData) × (requests encode mapper
            (main p fuel sys (name ∷ port ∷ []) cs)
          ≡ map (post_captured_data_to_server encode) ds)
        × ArePosted p fuel documented (answered cs) ds
  main-ArePosted sys name port cs started r =
      requests-Follows cs none (main p fuel sys (name ∷ port ∷ []) cs) r (
        subst (λ b. FollowsMain p fuel documented b cs (main p fuel sys (name ∷ port ∷ []) cs))
          started
          (main-FollowsMain p fuel sys (name ∷ port ∷ []) cs documented (IsModest-rounds cs r)))
