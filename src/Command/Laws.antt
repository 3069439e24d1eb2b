-- ===== src/Command/Laws.antt =====
-- The commands by their texts.
use network_analyser_using_r.Base.{
  ℕ, ◌≡◌, refl, arith, Bool, ◌||◌, Bytes, ◌++◌, [], ◌∷◌, some, codes, if◌then◌else◌,
}
use network_analyser_using_r.Outcome.{ok, exit}
use network_analyser_using_r.CString.{same_string, c_string, same_text}
use network_analyser_using_r.CString.Compare.{same_string_lem}
use network_analyser_using_r.State.{Server, Platform}
use network_analyser_using_r.Capture.{Pcap}
use network_analyser_using_r.Command.{
  literal, crlf, capture_command, unknown_command, process_client_command,
}

-- The text is the word, alone or as a line.
unfoldable pub is_word : Bytes → Bytes → Bool
unfolding same_text
is_word word text = same_text text (word ++ (13 ∷ 10 ∷ [])) || same_text text word

unfoldable pub is_exit : Bytes → Bool
unfolding is_word
is_exit text = is_word (codes "exit") text

unfoldable pub is_capture : Bytes → Bool
unfolding is_word
is_capture text = is_word (codes "capture") text

-- For a command buffer that holds a text with its NUL, exit ends the program with status 0,
-- capture runs a capture and writes the document, each with or without a line end, and any other
-- text changes nothing.
pub process_client_command_lem :
    (p : Platform) (fuel : ℕ) (c : Pcap) (client_cmd_buf text : Bytes) (s : Server)
    → c_string client_cmd_buf ≡ some text
    → process_client_command p fuel c client_cmd_buf s ≡ (
        if is_exit text
        then exit 0
        else if is_capture text
        then capture_command p fuel c s
        else ok s)
unfolding process_client_command unknown_command is_exit is_capture is_word
process_client_command_lem p fuel c client_cmd_buf text s h =
    rw
      (
        compared (crlf "exit") (codes "exit" ++ (13 ∷ 10 ∷ [])) (unfold c_string in refl),
        compared (literal "exit") (codes "exit") (unfold c_string in refl),
        compared (crlf "capture") (codes "capture" ++ (13 ∷ 10 ∷ [])) (unfold c_string in refl),
        compared (literal "capture") (codes "capture") (unfold c_string in refl),
        h,
      )
      (ground arith)
  where
    compared :
        (word t : Bytes)
        → c_string word ≡ some t
        → same_string client_cmd_buf word ≡ ok (same_text text t)
    compared word t e = same_string_lem client_cmd_buf word text t h e
