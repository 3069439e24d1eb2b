-- ===== src/Main/Reference.antt =====
-- A server that answers from the packets alone, and main against it.
use network_analyser_using_r.Base.{
  ℕ, ◌≡◌, refl, ap, ◌∙◌, Bool, true, false, Bytes, List, [], ◌∷◌, Option, none, some, All,
  if◌then◌else◌,
}
use network_analyser_using_r.Outcome.{Outcome}
use network_analyser_using_r.State.{Platform, IsPlatform, Server}
use network_analyser_using_r.Callback.Shown.{IsMeasuredPacket}
use network_analyser_using_r.Capture.Shown.{packets_document, document_of-shown_members}
use network_analyser_using_r.Main.{
  Connection, System, Trace, waiting, exited, answer, continue, handle_connection, serve,
  initial_server, main,
}
use network_analyser_using_r.Main.Start.{is_started, main_lem}
use network_analyser_using_r.Main.Course.{
  Shown, Course, ends, goes, packets_of, accepts, called, sent, commanded, course, IsShown, IsExact,
  IsShowing, IsModest,
}
use network_analyser_using_r.CString.{until_nul}
use network_analyser_using_r.Command.Laws.{is_exit, is_capture}
use network_analyser_using_r.Main.Course.Meets.{Meets, handle_connection-Meets}
use network_analyser_using_r.Main.Follows.{initial_server-IsShowing}

module _ (p : Platform) (fuel : ℕ) (documented : IsPlatform p) where
  -- The answer for the packets of the last capture.
  abbrev pub shown_text : Shown → Bytes
  shown_text none = []
  shown_text (some packets) = packets_document p fuel documented packets

  -- The trace of a round with this course, and of what follows it.
  abbrev pub trace_of : (Shown → Trace) → Course → Trace
  trace_of rest (ends status) = exited status
  trace_of rest (goes shown) = answer (shown_text shown) (rest shown)

  -- The server, with the packets of the last capture in place of its globals.
  unfoldable pub reference : List Connection → Shown → Trace
  reference [] shown = waiting
  reference (c ∷ cs) shown = trace_of (reference cs) (course c shown)

  -- A modest round with packets that have all four measurements.
  pub record IsMeasuredRound (c : Connection) : Type 0 where
    pub modest : IsModest p fuel documented c
    pub measured : All (IsMeasuredPacket p fuel) (packets_of c)

  abbrev IsMeasuredShown : Shown → Type 0
  IsMeasuredShown none = Unit
  IsMeasuredShown (some packets) = All (IsMeasuredPacket p fuel) packets

  abbrev IsMeasuredCourse : Course → Type 0
  IsMeasuredCourse (ends status) = Unit
  IsMeasuredCourse (goes shown) = IsMeasuredShown shown

  either :
      (b : Bool) (k l : Course)
      → IsMeasuredCourse k
      → IsMeasuredCourse l
      → IsMeasuredCourse (if b then k else l)
  either true k l g h = g
  either false k l g h = h

  sent-IsMeasured :
      (c : Connection) (shown : Shown) → IsMeasuredShown shown → IsMeasuredCourse (sent c shown)
  sent-IsMeasured c shown e = either c.written (goes shown) (ends 1) e tt

  commanded-IsMeasured :
      (c : Connection) (text : Bytes) (shown : Shown)
      → IsMeasuredRound c
      → IsMeasuredShown shown
      → IsMeasuredCourse (commanded c text shown)
  unfolding commanded
  commanded-IsMeasured c text shown m e = either (is_exit text) _ _ tt (
      either (is_capture text) _ _
        (either (accepts c) _ _ (sent-IsMeasured c (some (packets_of c)) m.measured) tt)
        (sent-IsMeasured c shown e))

  course-IsMeasured :
      (c : Connection) (shown : Shown)
      → IsMeasuredRound c
      → IsMeasuredShown shown
      → IsMeasuredCourse (course c shown)
  unfolding course
  course-IsMeasured c shown m e = either (called c) _ _ (read c.received) tt
    where
      read :
          (o : Option Bytes)
          → IsMeasuredCourse
              (elim o [ none ↦ ends 1 | some bytes ↦ commanded c (until_nul bytes) shown ])
      read none = tt
      read (some bytes) = commanded-IsMeasured c (until_nul bytes) shown m e

  exact_text :
      (shown : Shown) (text : Bytes) (l : IsShown p fuel documented shown text)
      → IsMeasuredShown shown
      → IsExact p fuel documented shown text l
      → text ≡ shown_text shown
  exact_text none text empty e exact = empty
  exact_text (some packets) text l e exact =
      l.lists.same
      ∙ document_of-shown_members p fuel documented packets l.lists.s l.lists.valid (exact e)

  continue-trace_of :
      (k : Course) (rest : Server → Trace) (rest' : Shown → Trace) (m : Outcome (Bytes × Server))
      → Meets p fuel documented k m
      → IsMeasuredCourse k
      → ((shown : Shown) (s : Server)
          → IsMeasuredShown shown
          → IsShowing p fuel documented shown s
          → rest s ≡ rest' shown)
      → continue p fuel rest m ≡ trace_of rest' k
  continue-trace_of (ends status) rest rest' m h e next = rw h refl
  continue-trace_of (goes shown) rest rest' m (s', held, made) e next =
      rw (made, next shown s' e held)
        (ap (λ t. answer t (rest' shown)) (exact_text shown held.text held.shows e held.exact))

  serve-reference :
      (cs : List Connection) (shown : Shown) (s : Server)
      → All IsMeasuredRound cs
      → IsMeasuredShown shown
      → IsShowing p fuel documented shown s
      → serve p fuel cs s ≡ reference cs shown
  unfolding serve reference
  serve-reference [] shown s m e h = refl
  serve-reference (c ∷ cs) shown s m e h =
      continue-trace_of (course c shown) (serve p fuel cs) (reference cs)
        (handle_connection p fuel c s)
        (handle_connection-Meets p fuel documented c shown s m.0.modest h)
        (course-IsMeasured c shown m.0 e)
        (λ shown' s' e' h'. serve-reference cs shown' s' m.1 e' h')

-- Over any arguments and connections, with a machine as documented, where every command, if one
-- is read, leaves room for a NUL in 1024 bytes, and libpcap would hand over at most 100 packets,
-- all beacons with an SSID of less than 15 bytes and a radiotap header that ends within the fuel
-- and has a rate, an antenna, a signal power and a channel, of at most 43 networks, the trace of
-- main is exactly that of a reference that has no globals but the packets of the last capture. It
-- ends with status 1 unless there is one argument and socket, bind and listen succeed; each round
-- takes its course from the calls of the system and the command, and is answered with the
-- document made from the packets of the last capture, or nothing before the first.
pub main-reference :
    (p : Platform) (fuel : ℕ) (sys : System) (argv : List Bytes) (cs : List Connection)
    (documented : IsPlatform p)
    → All (IsMeasuredRound p fuel documented) cs
    → main p fuel sys argv cs
      ≡ (if is_started sys argv then reference p fuel documented cs none else exited 1)
main-reference p fuel sys argv cs documented m =
    main_lem p fuel sys argv cs
    ∙ ap (λ t. if is_started sys argv then t else exited 1)
        (serve-reference p fuel documented cs none initial_server m tt
          (initial_server-IsShowing p fuel documented))
