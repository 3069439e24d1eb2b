-- ===== src/Client/Stuck.antt =====
-- Two tasks that both connect before either takes its output stream come to wait for ever.
use network_analyser_using_r.Base.{
  ℕ, ◌<◌, ◌≡◌, Bool, true, false, Bytes, List, [], ◌∷◌, ◌++◌, Option, none, some, length,
}
use network_analyser_using_r.Client.Sockets.{
  Channel, new_channel, SocketState, TaskPlace, connecting, taking_out, writing, taking_input,
  reading, step, serve_next, Actor, first, second,
}
use network_analyser_using_r.Client.Deadlock.{idle}
use network_analyser_using_r.Client.Crossing.{opened}

-- Both tasks connect, in one order or the other, before either takes its output stream.
abbrev pub connects : Bool → List Actor → List Actor
connects true turns = first ∷ second ∷ turns
connects false turns = second ∷ first ∷ turns

-- The calls of a task before it reads.
abbrev pub calls_left : TaskPlace → ℕ
calls_left connecting = 4
calls_left taking_out = 3
calls_left writing = 2
calls_left taking_input = 1
calls_left _ = 0

-- The task waits for an answer that is not there, or can go on, with fewer calls before it reads.
pub data IsStanding (a : TaskPlace) (w : SocketState) : Type 0 where
  waits : a ≡ reading → step a w ≡ none → IsStanding a w
  goes_on :
      (a' : TaskPlace) (w' : SocketState)
      → step a w ≡ some (a', w')
      → calls_left a' < calls_left a
      → IsStanding a w

-- Neither task has ended, and the server waits after `n` connections that it has answered.
pub record IsStuck (answer : ℕ → Bytes → Bytes) (n : ℕ) (a b : TaskPlace) (w : SocketState)
    : Type 0 where
  pub one : IsStanding a w
  pub other : IsStanding b w
  pub answered : w.answered ≡ n
  pub serves : serve_next answer w ≡ none

module _ (answer : ℕ → Bytes → Bytes) (channels : List Channel) where
  module _ (socket out input : Option ℕ) where
    -- Both tasks have connected, and the first has no command.
    abbrev connected : SocketState
    connected = record (idle socket out input channels) {
      socket = some (length (opened channels));
      channels = opened channels ++ (new_channel ∷ []);
    }
