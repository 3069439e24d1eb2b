-- ===== src/Main/Laws.antt =====
-- One round of the loop, by the bytes that the client sends.
use network_analyser_using_r.Base.{
  ℕ, zero, suc, ◌-◌, ◌≡◌, ◌≤◌, ◌<◌, refl, ap, ◌∙◌, arith, Bool, true, false, Bytes, [], ◌∷◌, ◌++◌,
  none, some, codes, if◌then◌else◌, ltb, ltb→lt, Bool-cases, inl, inr, length, take, replicate,
}
use network_analyser_using_r.Outcome.{Outcome, ok, exit, fault, or_fault, ◌>>=◌}
use network_analyser_using_r.CString.{c_string, until_nul}
use network_analyser_using_r.State.{
  Server, Platform, max_packet_capture_count, max_output_buffer_size,
}
use network_analyser_using_r.State.Slots.{IsServer}
use network_analyser_using_r.Capture.{capture_packets}
use network_analyser_using_r.Json.{generate_json}
use network_analyser_using_r.Json.Sprintf.{written}
use network_analyser_using_r.Json.Text.{document_of}
use network_analyser_using_r.Json.Document.{generate_json-document}
use network_analyser_using_r.Command.{capture_command}
use network_analyser_using_r.Command.Laws.{is_exit, is_capture, process_client_command_lem}
use network_analyser_using_r.Main.{Connection, bufsize, check, command_buffer, handle_connection}

-- `n` cells after `bzero` and a `read` of these bytes.
abbrev filled : ℕ → Bytes → Bytes
filled n bytes = take n bytes ++ replicate (n - length bytes) 0

c_string-zeros : (n : ℕ) → 0 < n → c_string (replicate n 0) ≡ some []
unfolding c_string
c_string-zeros zero h = absurd (omega arith)
c_string-zeros (suc n) h = refl

c_string-filled :
    (n : ℕ) (bytes : Bytes)
    → length (until_nul bytes) < n
    → c_string (filled n bytes) ≡ some (until_nul bytes)
unfolding c_string until_nul
c_string-filled zero [] h = absurd (omega arith)
c_string-filled (suc n) [] h = c_string-zeros (suc n - 0) (omega arith)
c_string-filled zero (x ∷ bytes) h = absurd (omega arith)
c_string-filled (suc n) (x ∷ bytes) h = ground (arith, c_string-filled n bytes)

c_string-filled-none :
    (n : ℕ) (bytes : Bytes) → n ≤ length (until_nul bytes) → c_string (filled n bytes) ≡ none
unfolding c_string until_nul
c_string-filled-none zero [] h = refl
c_string-filled-none (suc n) [] h = absurd (omega arith)
c_string-filled-none zero (x ∷ bytes) h =
    let e : 0 - suc (length bytes) ≡ 0 = omega arith in rw e refl
c_string-filled-none (suc n) (x ∷ bytes) h = ground (arith, c_string-filled-none n bytes)

-- A command that leaves room for a NUL ends at the first NUL that it holds, or at its end.
pub command_buffer-text :
    (bytes : Bytes)
    → length (until_nul bytes) < bufsize
    → c_string (command_buffer bytes) ≡ some (until_nul bytes)
unfolding command_buffer
command_buffer-text bytes h = c_string-filled bufsize bytes h

command_buffer-none :
    (bytes : Bytes) → bufsize ≤ length (until_nul bytes) → c_string (command_buffer bytes) ≡ none
unfolding command_buffer
command_buffer-none bytes h = c_string-filled-none bufsize bytes h

-- The answer with what `output_buff` holds.
abbrev pub reply : Connection → Server → Outcome (Bytes × Server)
reply c s = do text ← or_fault (c_string s.output_buff); _ ← check c.written; ok (text, s)

-- The system calls before the command succeed, and these bytes came.
pub record IsReceived (c : Connection) (bytes : Bytes) : Type 0 where
  pub accepted : c.accepted ≡ true
  pub resolved : c.resolved ≡ true
  pub named : c.named ≡ true
  pub received : c.received ≡ some bytes

module _ (p : Platform) (fuel : ℕ) (c : Connection) (bytes : Bytes) (s : Server)
    (r : IsReceived c bytes) where
  -- Where the system calls before the command succeed, a command with less than 1024 bytes before
  -- its first NUL, or in all, is taken up to there: exit ends the program with status 0, capture
  -- runs a capture and answers with the output, each with or without a line end, and any other
  -- text is answered with the globals as they are.
  pub handle_connection_lem :
      length (until_nul bytes) < bufsize
      → handle_connection p fuel c s ≡ (
          if is_exit (until_nul bytes)
          then exit 0
          else if is_capture (until_nul bytes)
          then capture_command p fuel c.pcap s >>= reply c
          else reply c s)
  unfolding handle_connection
  handle_connection_lem h =
      rw
        (
          r.accepted,
          r.resolved,
          r.named,
          r.received,
          command_buffer-text bytes h,
          process_client_command_lem p fuel c.pcap (command_buffer bytes) (until_nul bytes) s
              (command_buffer-text bytes h),
        )
        (chosen (is_exit (until_nul bytes)) (is_capture (until_nul bytes)))
    where
      chosen :
          (b d : Bool)
          → ((if b then exit 0 else if d then capture_command p fuel c.pcap s else ok s)
              >>= reply c)
            ≡ (if b
                then exit 0
                else if d
                then capture_command p fuel c.pcap s >>= reply c
                else reply c s)
      chosen true d = refl
      chosen false true = refl
      chosen false false = refl

  -- Where the system calls before the command succeed, a command whose first 1024 bytes have no
  -- NUL is read beyond the end of its buffer.
  pub handle_connection_unterminated :
      bufsize ≤ length (until_nul bytes) → handle_connection p fuel c s ≡ fault
  unfolding handle_connection
  handle_connection_unterminated h =
      rw (r.accepted, r.resolved, r.named, r.received, command_buffer-none bytes h) refl

  -- Where the system calls before the command succeed, whatever bytes came: where there are 1024
  -- or more before the first NUL, the round reads beyond the end of the command buffer. Else the
  -- text up to the first NUL, or all of it, is the command: exit ends the program with status 0,
  -- capture runs a capture and answers with the output, each with or without a line end, and any
  -- other text is answered with the globals as they are.
  pub handle_connection_command : handle_connection p fuel c s ≡ (
      if ltb (length (until_nul bytes)) bufsize
      then (if is_exit (until_nul bytes)
          then exit 0
          else if is_capture (until_nul bytes)
          then capture_command p fuel c.pcap s >>= reply c
          else reply c s)
      else fault)
  handle_connection_command = elim (Bool-cases (ltb (length (until_nul bytes)) bufsize)) [
    | inl short ↦ rw short (handle_connection_lem (ltb→lt _ _ short))
    | inr long ↦ rw long (handle_connection_unterminated (ground arith))
  ]

  -- Where the system calls succeed, a command with a text of less than 1024 bytes that is neither
  -- exit nor capture is answered with the text that output_buff held before, and changes nothing.
  pub handle_connection_unknown :
      (text : Bytes)
      → length (until_nul bytes) < bufsize
      → is_exit (until_nul bytes) ≡ false
      → is_capture (until_nul bytes) ≡ false
      → c.written ≡ true
      → c_string s.output_buff ≡ some text
      → handle_connection p fuel c s ≡ ok (text, s)
  handle_connection_unknown text h not_exit not_capture sent holds =
      handle_connection_lem h ∙ rw (not_exit, not_capture, holds, sent) refl

  -- Where the system calls succeed, the text of the command has less than 1024 bytes and is
  -- capture, the capture returns with globals that keep the invariant, and the document for them
  -- has less than 8192 characters, the answer is that document, and the globals are those with it
  -- in output_buff.
  pub handle_connection_capture :
      (s' : Server)
      → length (until_nul bytes) < bufsize
      → is_exit (until_nul bytes) ≡ false
      → is_capture (until_nul bytes) ≡ true
      → c.written ≡ true
      → capture_packets p fuel c.pcap
          (some (codes "mon1"))
          max_packet_capture_count
          (some (codes "subtype beacon"))
          s
        ≡ ok s'
      → IsServer s'
      → length (document_of p s') < max_output_buffer_size
      → (rest : Bytes) × (handle_connection p fuel c s
          ≡ ok (document_of p s', written s' (document_of p s') (0 ∷ rest)))
  handle_connection_capture s' h not_exit capture sent captured v fits =
      let (rest, e, text, _) = generate_json-document p s' v fits in
      (
        rest,
        handle_connection_lem h
            ∙ rw (not_exit, capture) (ap (λ m. m >>= reply c) (made ∙ e) ∙ rw (text, sent) refl),
      )
    where
      made : capture_command p fuel c.pcap s ≡ generate_json p s'
      made = unfold capture_command in rw captured
