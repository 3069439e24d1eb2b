-- ===== src/Command/Reply.antt =====
-- What `output_buff` holds after a command: a document for distinct packets, or what it held.
use network_analyser_using_r.Base.{
  ◌⊎◌, ◌≡◌, refl, ◌∙◌, sym, arith, true, false, Bytes, [], ◌∷◌, some, codes, if◌then◌else◌, ltb,
  ltb→lt, Bool-cases, inl, inr, length, ℕ, List,
}
use mathlib.Core.List.{Memᴰ}
use network_analyser_using_r.Outcome.{Outcome, ok, exit, fault, bind_inv, ok-injective}
use network_analyser_using_r.CString.{c_string}
use network_analyser_using_r.State.{
  Server, Platform, IsPlatform, max_packet_capture_count, max_output_buffer_size,
}
use network_analyser_using_r.State.Slots.{IsServer}
use network_analyser_using_r.Dedup.Spec.{captured}
use network_analyser_using_r.Dedup.Distinct.{AreDistinct}
use network_analyser_using_r.Capture.{Pcap, IsPcap, capture_packets}
use network_analyser_using_r.Capture.Correct.{capture_packets-IsCapture}
use network_analyser_using_r.Json.{generate_json}
use network_analyser_using_r.Json.Sprintf.{written}
use network_analyser_using_r.Json.Text.{document_of}
use network_analyser_using_r.Json.Document.{generate_json-document, generate_json-overflow}
use network_analyser_using_r.Command.{capture_command, process_client_command}
use network_analyser_using_r.Command.Laws.{is_exit, is_capture, process_client_command_lem}

-- The capture of the command `capture`.
abbrev pub capture : Platform → ℕ → Pcap → Server → Outcome Server
capture p fuel c s =
    capture_packets p fuel c (some (codes "mon1")) max_packet_capture_count
      (some (codes "subtype beacon")) s

-- A text that the server sends: none, or the document for the packets that the globals hold after
-- a capture from one of these packet sources, at most 50 by `IsServer`, where no beacon has the key
-- of a packet before it.
pub data IsReply (p : Platform) (fuel : ℕ) (pcaps : List Pcap) (t : Bytes) : Type 0 where
  nothing : t ≡ [] → IsReply p fuel pcaps t
  packets :
      (c : Pcap) (s s' : Server)
      → Memᴰ c pcaps
      → IsServer s
      → capture p fuel c s ≡ ok s'
      → IsServer s'
      → AreDistinct (captured s')
      → t ≡ document_of p s'
      → IsReply p fuel pcaps t

-- The globals between two commands.
pub record IsAnswering (p : Platform) (fuel : ℕ) (pcaps : List Pcap) (s : Server) : Type 0 where
  pub valid : IsServer s
  pub text : Bytes
  pub holds : c_string s.output_buff ≡ some text
  pub reply : IsReply p fuel pcaps text

generate_json-IsAnswering :
    (p : Platform) (fuel : ℕ) (pcaps : List Pcap) (c : Pcap) (s0 s s' : Server)
    → Memᴰ c pcaps
    → IsServer s0
    → capture p fuel c s0 ≡ ok s
    → IsServer s
    → AreDistinct (captured s)
    → generate_json p s ≡ ok s'
    → IsAnswering p fuel pcaps s'
generate_json-IsAnswering p fuel pcaps c s0 s s' among v0 ran v d h =
    elim (Bool-cases (ltb (length (document_of p s)) max_output_buffer_size)) [
      | inl fits ↦
          let (rest, e, ended, size) = generate_json-document p s v (ltb→lt _ _ fits) in
          let same : written s (document_of p s) (0 ∷ rest) ≡ s' = ok-injective (sym e ∙ h) in
          rw (← same) (record {
            valid = record {
              counted = v.counted;
              within = v.within;
              size = v.size;
              slots = v.slots;
              buffer = size;
            };
            text = document_of p s;
            holds = ended;
            reply = packets c s0 s among v0 ran v d refl;
          })
      | inr over ↦ let e = generate_json-overflow p s v (ground arith) in absurd (fails e)
    ]
  where
    fails : generate_json p s ≡ fault → ⊥
    fails e = cc

pub capture_command-IsAnswering :
    (p : Platform) (fuel : ℕ) (pcaps : List Pcap) (c : Pcap) (s s' : Server)
    → IsPlatform p
    → IsPcap c
    → Memᴰ c pcaps
    → IsServer s
    → capture_command p fuel c s ≡ ok s'
    → IsAnswering p fuel pcaps s'
unfolding capture_command
capture_command-IsAnswering p fuel pcaps c s s' documented pcap among v h =
    let (s1, e, made) = bind_inv (capture p fuel c s) _ h in
    let left =
      capture_packets-IsCapture p fuel max_packet_capture_count c _ _ s s1 documented pcap v
        (omega arith) e in
    generate_json-IsAnswering p fuel pcaps c s s1 s' among v e left.valid left.distinct made

-- A command that returns leaves such globals again.
pub process_client_command-IsAnswering :
    (p : Platform) (fuel : ℕ) (pcaps : List Pcap) (c : Pcap) (client_cmd_buf text : Bytes)
    (s s' : Server)
    → IsPlatform p
    → IsPcap c
    → Memᴰ c pcaps
    → c_string client_cmd_buf ≡ some text
    → IsAnswering p fuel pcaps s
    → process_client_command p fuel c client_cmd_buf s ≡ ok s'
    → IsAnswering p fuel pcaps s'
process_client_command-IsAnswering p fuel pcaps c client_cmd_buf text s s' documented pcap among
      received a h =
    chosen (Bool-cases (is_exit text)) (Bool-cases (is_capture text))
      (sym (process_client_command_lem p fuel c client_cmd_buf text s received) ∙ h)
  where
    chosen :
        (is_exit text ≡ true) ⊎ (is_exit text ≡ false)
        → (is_capture text ≡ true) ⊎ (is_capture text ≡ false)
        → (if is_exit text
            then exit 0
            else if is_capture text
            then capture_command p fuel c s
            else ok s)
          ≡ ok s'
        → IsAnswering p fuel pcaps s'
    chosen (inl e) _ g = absurd (ground arith)
    chosen (inr e) (inl f) g =
        capture_command-IsAnswering p fuel pcaps c s s' documented pcap among a.valid
          (rw (e, f) at g)
    chosen (inr e) (inr f) g = rw (← ok-injective (rw (e, f) at g)) a
