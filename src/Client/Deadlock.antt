-- ===== src/Client/Deadlock.antt =====
-- Tasks that use the fields of RpiServiceImpl one after the other.
use network_analyser_using_r.Base.{
  ℕ, ◌≡◌, refl, ap, ◌∙◌, Bytes, List, [], ◌∷◌, ◌++◌, Option, none, some, length, length-append,
  get_elem?, set, set-append,
}
use network_analyser_using_r.Client.Service.{client_capture_command}
use network_analyser_using_r.Client.Sockets.{
  Channel, new_channel, SocketState, TaskPlace, connecting, taking_input, read, write, write_to,
  first, server, interleave,
}

pub get_elem?-middle {ℓ} :
    {A : Type ℓ} (xs : List A) (a : A) (ys : List A)
    → get_elem? (xs ++ (a ∷ ys)) (length xs) ≡ some a
get_elem?-middle [] a ys = refl
get_elem?-middle (x ∷ xs) a ys = get_elem?-middle xs a ys

pub write-middle :
    (xs : List Channel) (ch : Channel) (bytes : Bytes) (w : SocketState)
    → w.channels ≡ xs ++ (ch ∷ [])
    → write (some (length xs)) bytes w
      ≡ (taking_input, record w { channels = xs ++ (record ch { sent = ch.sent ++ bytes } ∷ []) })
write-middle xs ch bytes w e =
    ap (write_to (length xs) bytes w)
      (ap (λ l. get_elem? l (length xs)) e ∙ get_elem?-middle xs ch [])
    ∙ ap (λ l. (taking_input, record w { channels = l }))
        (ap (λ l. set l (length xs) (record ch { sent = ch.sent ++ bytes })) e
          ∙ set-append xs ch [] (record ch { sent = ch.sent ++ bytes }))

-- The server has answered all connections.
abbrev pub idle : Option ℕ → Option ℕ → Option ℕ → List Channel → SocketState
idle socket out input channels = record {
  socket = socket;
  out = out;
  input = input;
  channels = channels;
  answered = length channels;
}

module _ (answer : ℕ → Bytes → Bytes) (socket out input : Option ℕ) (channels : List Channel)
    (b : TaskPlace) where
  abbrev n : ℕ
  n = length channels

  abbrev own : Option Bytes → Channel
  own text = record { sent = client_capture_command; replied = text }

  -- Where the server has answered all connections so far, whatever the fields of the service
  -- hold, a task that no other task interrupts reads what the server answers to the command
  -- capture on its own connection, and the server has answered all connections again.
  pub interleave_alone :
      interleave answer
        (first ∷ first ∷ first ∷ first ∷ server ∷ first ∷ [])
        connecting
        b
        (idle socket out input channels)
      ≡ some (
        read (answer n client_capture_command),
        b,
        idle
            (some n)
            (some n)
            (some n)
            (channels ++ (own (some (answer n client_capture_command)) ∷ [])),
      )
  unfolding interleave
  interleave_alone =
      rw
        (
          get_elem?-middle channels new_channel [],
          set-append channels new_channel [] (own none),
          get_elem?-middle channels (own none) [],
          set-append channels (own none) [] (own (some (answer n client_capture_command))),
          get_elem?-middle channels (own (some (answer n client_capture_command))) [],
          length-append channels (own (some (answer n client_capture_command)) ∷ []),
        )
        refl
