-- ===== src/Client/Sockets.antt =====
-- The socket calls of RpiServiceImpl.getNetworkInfoFromClient in
-- rpi-local-client/src/main/java/com/eurekabits, in steps up to the answer, and the server that
-- answers one connection after the other. All tasks share the one service and its fields.
use network_analyser_using_r.Base.{
  ℕ, ◌+◌, Bytes, List, [], ◌∷◌, ◌++◌, Option, none, some, length, get_elem?, set,
}
use network_analyser_using_r.Json.Value.{and_then}
use network_analyser_using_r.Client.Service.{client_capture_command}

-- A connection: the bytes that the client wrote to it, and the answer of the server.
pub record Channel : Type 0 where
  pub sent : Bytes
  pub replied : Option Bytes

abbrev pub new_channel : Channel
new_channel = record { sent = []; replied = none }

-- The fields of the service, as numbers of connections, and the connections in the order in which
-- the server takes them, with the number of those that it has answered.
pub record SocketState : Type 0 where
  pub socket : Option ℕ
  pub out : Option ℕ
  pub input : Option ℕ
  pub channels : List Channel
  pub answered : ℕ

-- Where a task stands; an exception ends it as `failed`.
pub data TaskPlace : Type 0 where
  connecting taking_out writing taking_input reading failed : TaskPlace
  read : Bytes → TaskPlace

-- A write appends to what the connection holds.
abbrev pub write_to : ℕ → Bytes → SocketState → Option Channel → TaskPlace × SocketState
write_to n bytes w none = (failed, w)
write_to n bytes w (some ch) = (
  taking_input,
  record w { channels = set (w.channels) n (record ch { sent = ch.sent ++ bytes }) },
)

abbrev pub write : Option ℕ → Bytes → SocketState → TaskPlace × SocketState
write none bytes w = (failed, w)
write (some n) bytes w = write_to n bytes w (get_elem? (w.channels) n)

-- A read waits for the answer.
abbrev pub receive : Option ℕ → SocketState → Option (TaskPlace × SocketState)
receive none w = some (failed, w)
receive (some n) w =
    and_then (get_elem? w.channels n) λ ch. and_then ch.replied λ text. some (read text, w)

-- A step of a task; none where the call waits, or where the task has ended.
unfoldable pub step : TaskPlace → SocketState → Option (TaskPlace × SocketState)
step connecting w = some (
  taking_out,
  record w { socket = some (length (w.channels)); channels = w.channels ++ (new_channel ∷ []) },
)
step taking_out w = some (writing, record w { out = w.socket })
step writing w = some (write w.out client_capture_command w)
step taking_input w = some (reading, record w { input = w.socket })
step reading w = receive w.input w
step failed w = none
step (read text) w = none

pub data Actor : Type 0 where
  first second server : Actor

-- `answer` is what the server answers to a command on its n-th connection.
module _ (answer : ℕ → Bytes → Bytes) where
  -- The server waits in `accept` without a connection, and in `read` without a command.
  abbrev pub replied_to : Channel → SocketState → Option SocketState
  replied_to ch w = elim ch.sent [
    | [] ↦ none
    | c ∷ command ↦ some (record w {
      channels =
          set (w.channels) (w.answered)
            (record ch { replied = some (answer (w.answered) (c ∷ command)) });
      answered = w.answered + 1;
    })
  ]

  unfoldable pub serve_next : SocketState → Option SocketState
  serve_next w = and_then (get_elem? w.channels w.answered) λ ch. replied_to ch w

  -- Two tasks and the server take turns; none where one is to go on that waits.
  unfoldable pub interleave :
      List Actor
      → TaskPlace
      → TaskPlace
      → SocketState
      → Option (TaskPlace × TaskPlace × SocketState)
  unfolding step serve_next
  interleave [] a b w = some (a, b, w)
  interleave (first ∷ turns) a b w = and_then (step a w) λ (a', w'). interleave turns a' b w'
  interleave (second ∷ turns) a b w = and_then (step b w) λ (b', w'). interleave turns a b' w'
  interleave (server ∷ turns) a b w = and_then (serve_next w) λ w'. interleave turns a b w'
