-- ===== src/Main/Start.antt =====
-- The start of the server, and the rounds in which a call of the system fails.
use network_analyser_using_r.Base.{
  ℕ, ◌≡◌, refl, arith, Bool, true, false, ◌&&◌, Bytes, List, [], ◌∷◌, Option, none, some,
  if◌then◌else◌,
}
use network_analyser_using_r.Outcome.{ok, exit, ◌>>=◌}
use network_analyser_using_r.State.{Platform, Server}
use network_analyser_using_r.Main.{
  Connection, System, exited, port_of, serve, initial_server, start_server, start_trace, main,
  check, handle_connection,
}

-- There is one argument, and the server gets a socket, its port and a queue.
unfoldable pub is_started : System → List Bytes → Bool
is_started sys (name ∷ port ∷ []) = sys.socket && (sys.bind (port_of (sys.atoi port)) && sys.listen)
is_started sys argv = false

-- The body of main, with its guards as one test.
pub main_lem :
    (p : Platform) (fuel : ℕ) (sys : System) (argv : List Bytes) (cs : List Connection)
    → main p fuel sys argv cs
      ≡ (if is_started sys argv then serve p fuel cs initial_server else exited 1)
unfolding main is_started start_server
main_lem p fuel sys [] cs = refl
main_lem p fuel sys (name ∷ []) cs = refl
main_lem p fuel sys (name ∷ port ∷ []) cs =
    cases sys.socket (sys.bind (port_of (sys.atoi port))) sys.listen
  where
    cases :
        (socket bound listening : Bool)
        → start_trace
            (serve p fuel cs initial_server)
            (check socket >>= λ _. check bound >>= λ _. check listening)
          ≡ (if socket && (bound && listening) then serve p fuel cs initial_server else exited 1)
    cases true true true = refl
    cases true true false = refl
    cases true false listening = refl
    cases false bound listening = refl
main_lem p fuel sys (name ∷ port ∷ extra ∷ argv) cs = refl

abbrev is_some : Option Bytes → Bool
is_some none = false
is_some (some bytes) = true

-- The calls before the command succeed.
unfoldable pub is_received : Connection → Bool
is_received c = c.accepted && (c.resolved && (c.named && is_some c.received))

-- Where accept, gethostbyaddr, inet_ntoa or read fails, the round ends the program with status 1.
pub handle_connection_failed :
    (p : Platform) (fuel : ℕ) (c : Connection) (s : Server)
    → is_received c ≡ false
    → handle_connection p fuel c s ≡ exit 1
unfolding is_received handle_connection
handle_connection_failed p fuel c s h = ground arith

pub is_started-start_server :
    (sys : System) (name port : Bytes)
    → start_server sys port ≡ ok tt
    → is_started sys (name ∷ port ∷ []) ≡ true
unfolding is_started start_server
is_started-start_server sys name port h = ground arith
