-- ===== src/Command.antt =====
-- `process_client_command`: the four commands that the server knows.
pub mod Laws
pub mod Reply
use network_analyser_using_r.Base.{
  ℕ, Bool, true, false, Bytes, List, [], ◌∷◌, ◌++◌, some, codes, if◌then◌else◌, Option, String,
}
use network_analyser_using_r.Outcome.{Outcome, ok, exit, fault, or_fault, ◌>>=◌}
use network_analyser_using_r.CString.{same_string, c_string}
use network_analyser_using_r.State.{Server, Platform, max_packet_capture_count}
use network_analyser_using_r.Capture.{Pcap, capture_packets}
use network_analyser_using_r.Json.{generate_json}

-- A string literal: its characters and the NUL.
abbrev pub literal : String → Bytes
literal text = codes text ++ (0 ∷ [])

abbrev pub crlf : String → Bytes
crlf text = codes text ++ (13 ∷ 10 ∷ 0 ∷ [])

module _ (p : Platform) (fuel : ℕ) where
  -- `capture_packets` on the monitor interface, for beacons, and `generateJson`.
  unfoldable pub capture_command : Pcap → Server → Outcome Server
  capture_command c s = do
    s' ←
        capture_packets p fuel c (some (codes "mon1")) max_packet_capture_count
          (some (codes "subtype beacon")) s
    generate_json p s'

  -- `else`: `printf` of the command, which wants a NUL in the buffer.
  unfoldable pub unknown_command : Bytes → Server → Outcome Server
  unknown_command client_cmd_buf s = do _ ← or_fault (c_string client_cmd_buf); ok s

  -- The chain of `if`s: each command is compared only where those before it differ.
  unfoldable pub process_client_command : Pcap → Bytes → Server → Outcome Server
  process_client_command c client_cmd_buf s =
      same_string client_cmd_buf (crlf "exit") >>= λ is_exit_line.
      if is_exit_line
      then exit 0
      else (same_string client_cmd_buf (literal "exit") >>= λ is_exit.
          if is_exit
          then exit 0
          else (same_string client_cmd_buf (crlf "capture") >>= λ is_capture_line.
              if is_capture_line
              then capture_command c s
              else (same_string client_cmd_buf (literal "capture") >>= λ is_capture.
                  if is_capture then capture_command c s else unknown_command client_cmd_buf s)))
