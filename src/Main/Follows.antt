-- ===== src/Main/Follows.antt =====
-- The whole of main against its course over any sequence of connections.
use network_analyser_using_r.Base.{
  ℕ, ◌≡◌, refl, sym, subst, arith, Bool, true, false, Bytes, List, [], ◌∷◌, none, All,
  All-replicate, if◌then◌else◌,
}
use network_analyser_using_r.Outcome.{Outcome}
use network_analyser_using_r.CString.{c_string}
use network_analyser_using_r.State.{Platform, IsPlatform, Server, max_packet_info_count}
use network_analyser_using_r.State.Ranges.{HasRanges, IsRanged}
use network_analyser_using_r.Main.{
  Connection, System, Trace, waiting, exited, answer, continue, handle_connection, serve,
  initial_server, blank_packet, main,
}
use network_analyser_using_r.Main.Answers.{initial_server-IsAnswering}
use network_analyser_using_r.Main.Start.{is_started, main_lem}
use network_analyser_using_r.Main.Course.{
  Shown, Course, ends, goes, course, IsShown, IsShowing, IsModest,
}
use network_analyser_using_r.Main.Course.Meets.{Meets, handle_connection-Meets}

initial_server-IsRanged : IsRanged initial_server
unfolding initial_server
initial_server-IsRanged = All-replicate HasRanges max_packet_info_count blank_packet (record {
  rate = omega arith;
  antenna = omega arith;
  channel = omega arith;
  power = omega arith;
})

module _ (p : Platform) (fuel : ℕ) (documented : IsPlatform p) where
  -- The trace of a round with this course, where `P` says what follows.
  abbrev pub FollowsRound : (Shown → Trace → Type 0) → Course → Trace → Type 0
  FollowsRound P (ends status) t = t ≡ exited status
  FollowsRound P (goes shown) t =
      (text : Bytes) × (rest : Trace) × (t ≡ answer text rest)
      × IsShown p fuel documented shown text
      × P shown rest

  -- The trace answers each round by its course, up to the first that ends the program.
  abbrev pub Follows : List Connection → Shown → Trace → Type 0
  Follows [] shown t = t ≡ waiting
  Follows (c ∷ cs) shown t = FollowsRound (Follows cs) (course c shown) t

  continue-FollowsRound :
      (P : Shown → Trace → Type 0) (k : Course) (rest : Server → Trace)
      (m : Outcome (Bytes × Server))
      → Meets p fuel documented k m
      → ((shown : Shown) (s : Server) → IsShowing p fuel documented shown s → P shown (rest s))
      → FollowsRound P k (continue p fuel rest m)
  continue-FollowsRound P (ends status) rest m h next = rw h refl
  continue-FollowsRound P (goes shown) rest m (s', held, e) next =
      rw e (held.text, rest s', refl, held.shows, next shown s' held)

  serve-Follows :
      (cs : List Connection) (shown : Shown) (s : Server)
      → All (IsModest p fuel documented) cs
      → IsShowing p fuel documented shown s
      → Follows cs shown (serve p fuel cs s)
  unfolding serve
  serve-Follows [] shown s m h = refl
  serve-Follows (c ∷ cs) shown s m h =
      continue-FollowsRound (Follows cs) (course c shown) (serve p fuel cs)
        (handle_connection p fuel c s) (handle_connection-Meets p fuel documented c shown s m.0 h)
        (λ shown' s' h'. serve-Follows cs shown' s' m.1 h')

  pub initial_server-IsShowing : IsShowing p fuel documented none initial_server
  initial_server-IsShowing =
      let a = initial_server-IsAnswering p fuel [] in
      record {
        valid = a.valid;
        ranged = initial_server-IsRanged;
        text = [];
        holds = unfold c_string initial_server in refl;
        shows = refl;
        exact = tt;
      }

  -- From the arguments on: the program ends with status 1, or serves the connections.
  abbrev pub FollowsMain : Bool → List Connection → Trace → Type 0
  FollowsMain true cs t = Follows cs none t
  FollowsMain false cs t = t ≡ exited 1

-- Over any arguments and connections, with a machine as documented, where every command, if one
-- is read, leaves room for a NUL in 1024 bytes, and libpcap would hand over at most 100 packets,
-- all beacons with an SSID of less than 15 bytes and a radiotap header that ends within the fuel,
-- of at most 43 networks, main does what its course says and is never out of bounds or in an
-- endless loop. It ends with status 1 unless there is one argument and socket, bind and listen
-- succeed. Then each round ends the program with status 1 where a call before the command fails,
-- with status 0 for the command exit, and with status 1 where libpcap refuses the device or the
-- filter of a capture or write fails, and is answered else: after a capture with the document for
-- the packets of that capture, and for other commands with that of the last capture before, or
-- nothing before the first. A document has less than 8192 characters and is that of globals that
-- keep the invariant and hold exactly the networks of the packets, each once, in the order of
-- their first beacons, and each slot comes from one of the packets, with its texts and the
-- measurements of its radiotap header.
pub main-FollowsMain :
    (p : Platform) (fuel : ℕ) (sys : System) (argv : List Bytes) (cs : List Connection)
    (documented : IsPlatform p)
    → All (IsModest p fuel documented) cs
    → FollowsMain p fuel documented (is_started sys argv) cs (main p fuel sys argv cs)
main-FollowsMain p fuel sys argv cs documented m =
    subst (FollowsMain p fuel documented (is_started sys argv) cs)
      (sym (main_lem p fuel sys argv cs)) (started (is_started sys argv))
  where
    started :
        (b : Bool)
        → FollowsMain p fuel documented b cs
            (if b then serve p fuel cs initial_server else exited 1)
    started true =
        serve-Follows p fuel documented cs none initial_server m
          (initial_server-IsShowing p fuel documented)
    started false = refl
