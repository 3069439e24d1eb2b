-- ===== src/Main/Answers.antt =====
-- What clients get from the server, over any sequence of connections.
use network_analyser_using_r.Base.{
  ℕ, ◌≡◌, refl, arith, Bytes, List, [], ◌∷◌, length-replicate, All, All-replicate,
}
use network_analyser_using_r.Outcome.{
  Outcome, ok, exit, fault, hang, or_fault, bind_inv, ok-injective,
}
use network_analyser_using_r.CString.{c_string}
use network_analyser_using_r.State.{
  Server, Platform, IsPlatform, max_output_buffer_size, max_packet_info_count,
}
use network_analyser_using_r.State.Slots.{IsSlot}
use network_analyser_using_r.Capture.{Pcap, IsPcap}
use network_analyser_using_r.Command.{process_client_command}
use network_analyser_using_r.Command.Reply.{
  IsReply, nothing, IsAnswering, process_client_command-IsAnswering,
}
use network_analyser_using_r.Main.{
  Connection, System, Trace, waiting, exited, crashed, hung, answer, check, or_error,
  command_buffer, handle_connection, continue, serve, blank_packet, initial_server, start_server,
  main,
}
use network_analyser_using_r.Main.{start_trace}
use mathlib.Core.List.{Memᴰ, map}

-- Every answer of the trace is in `P`.
abbrev pub Answers : (Bytes → Type 0) → Trace → Type 0
Answers P waiting = Unit
Answers P (exited code) = Unit
Answers P crashed = Unit
Answers P hung = Unit
Answers P (answer text rest) = P text × Answers P rest

-- The packet sources of the connections.
abbrev pub pcaps_of : List Connection → List Pcap
pcaps_of cs = map (λ c. c.pcap) cs

module _ (p : Platform) (fuel : ℕ) (documented : IsPlatform p) (pcaps : List Pcap) where
  -- A round that returns answers with a reply, and leaves globals that hold one.
  pub handle_connection-IsReply :
      (c : Connection) (s : Server) (r : Bytes × Server)
      → IsPcap c.pcap
      → Memᴰ c.pcap pcaps
      → IsAnswering p fuel pcaps s
      → handle_connection p fuel c s ≡ ok r
      → IsReply p fuel pcaps r.0 × IsAnswering p fuel pcaps r.1
  unfolding handle_connection
  handle_connection-IsReply c s r pcap among a h =
      let (_, _, h1) = bind_inv (check c.accepted) _ h in
      let (_, _, h2) = bind_inv (check c.resolved) _ h1 in
      let (_, _, h3) = bind_inv (check c.named) _ h2 in
      let (bytes, _, h4) = bind_inv (or_error c.received) _ h3 in
      let (text, terminated, h5) = bind_inv (or_fault (c_string (command_buffer bytes))) _ h4 in
      let (s', done, h6) =
        bind_inv (process_client_command p fuel c.pcap (command_buffer bytes) s) _ h5 in
      let (sent, held, h7) = bind_inv (or_fault (c_string s'.output_buff)) _ h6 in
      let (_, _, h8) = bind_inv (check c.written) _ h7 in
      let b =
        process_client_command-IsAnswering p fuel pcaps c.pcap (command_buffer bytes) text s s'
          documented pcap among (ground arith) a done in
      let same : b.text ≡ sent = reads b held in rw (← ok-injective h8) (rw (← same) b.reply, b)
    where
      reads :
          {s' : Server} {sent : Bytes} (b : IsAnswering p fuel pcaps s')
          → or_fault (c_string s'.output_buff) ≡ ok sent
          → b.text ≡ sent
      reads b held = ok-injective (rw b.holds at held)

  serve-IsReply :
      (cs : List Connection) (s : Server)
      → ((c : Pcap) → Memᴰ c (pcaps_of cs) → Memᴰ c pcaps)
      → All (λ c. IsPcap c.pcap) cs
      → IsAnswering p fuel pcaps s
      → Answers (IsReply p fuel pcaps) (serve p fuel cs s)
  unfolding serve
  serve-IsReply [] s among h a = tt
  serve-IsReply (c ∷ cs) s among h a =
      continued (handle_connection p fuel c s)
        (λ r. handle_connection-IsReply c s r h.0 (among c.pcap (Memᴰ.head refl)) a)
        (λ s' b. serve-IsReply cs s' (λ d m. among d (Memᴰ.tail m)) h.1 b)
    where
      continued :
          (m : Outcome (Bytes × Server))
          → ((r : Bytes × Server)
              → m ≡ ok r
              → IsReply p fuel pcaps r.0 × IsAnswering p fuel pcaps r.1)
          → ((s' : Server)
              → IsAnswering p fuel pcaps s'
              → Answers (IsReply p fuel pcaps) (serve p fuel cs s'))
          → Answers (IsReply p fuel pcaps) (continue p fuel (serve p fuel cs) m)
      continued (ok r) f g = let (reply, b) = f r refl in (reply, g r.1 b)
      continued (exit code) f g = tt
      continued fault f g = tt
      continued hang f g = tt

pub initial_server-IsAnswering :
    (p : Platform) (fuel : ℕ) (pcaps : List Pcap) → IsAnswering p fuel pcaps initial_server
unfolding initial_server c_string
initial_server-IsAnswering p fuel pcaps = record {
  valid = record {
    counted = refl;
    within = omega arith;
    size = length-replicate max_packet_info_count blank_packet;
    slots = All-replicate IsSlot max_packet_info_count blank_packet (record {
      ssid = record { size = refl; text = []; reads = refl };
      src = record { size = refl; text = []; reads = refl };
      dst = record { size = refl; text = []; reads = refl };
      bssid = record { size = refl; text = []; reads = refl };
    });
    buffer = length-replicate {A = ℕ} max_output_buffer_size 0;
  };
  text = [];
  holds = refl;
  reply = nothing refl;
}

-- Over any arguments and connections, with a machine and a libpcap as documented, each answer
-- that the server writes is empty, or the document for the packets that the globals hold after a
-- capture with the libpcap of one of the connections, from globals that keep the invariant. They
-- keep it again, so that these packets are at most 50, and among them no beacon has the SSID and
-- BSSID of a packet before it.
pub main-IsReply :
    (p : Platform) (fuel : ℕ) (sys : System) (argv : List Bytes) (cs : List Connection)
    → IsPlatform p
    → All (λ c. IsPcap c.pcap) cs
    → Answers (IsReply p fuel (pcaps_of cs)) (main p fuel sys argv cs)
unfolding main
main-IsReply p fuel sys [] cs documented h = tt
main-IsReply p fuel sys (name ∷ []) cs documented h = tt
main-IsReply p fuel sys (name ∷ port ∷ []) cs documented h =
    started (serve p fuel cs initial_server) (start_server sys port) (
      serve-IsReply p fuel documented (pcaps_of cs) cs initial_server (λ c m. m) h
        (initial_server-IsAnswering p fuel (pcaps_of cs)))
  where
    started :
        (t : Trace) (m : Outcome (Unit {0}))
        → Answers (IsReply p fuel (pcaps_of cs)) t
        → Answers (IsReply p fuel (pcaps_of cs)) (start_trace t m)
    started t (ok _) a = a
    started t (exit code) a = tt
    started t fault a = tt
    started t hang a = tt
main-IsReply p fuel sys (name ∷ port ∷ extra ∷ argv) cs documented h = tt
