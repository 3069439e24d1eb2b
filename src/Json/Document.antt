-- ===== src/Json/Document.antt =====
-- `generateJson` as a whole: the document for the counted packets, where it fits.
use network_analyser_using_r.Base.{
  ℕ, zero, suc, ◌+◌, ◌-◌, ◌<◌, ◌≤◌, ◌≡◌, refl, ap, ◌∙◌, sym, arith, Bytes, List, [], ◌∷◌, ◌++◌,
  codes, length, take, drop, get_elem?, Bool-cases, ltb, ltb→lt, inl, inr, some, All, All-take,
  length-append, length-take, take-append-drop, length-drop,
}
use network_analyser_using_r.Outcome.{Outcome, ok, fault, ◌>>=◌, >>=-assoc}
use network_analyser_using_r.CString.{c_string, until_nul}
use network_analyser_using_r.CString.Text.{c_string-append_nul}
use network_analyser_using_r.State.{PacketInfo, Server, Platform, max_output_buffer_size}
use network_analyser_using_r.State.Slots.{IsSlot, IsServer}
use network_analyser_using_r.Json.{
  sprintf, packet_text, write_packet, write_comma, write_packets, generate_json,
}
use network_analyser_using_r.Json.Sprintf.{
  written, HasOutput, Emits, Emits-sprintf, Emits-ok, Emits-bind, Emits-cong, sprintf_lem,
  sprintf-fault,
}
use network_analyser_using_r.Json.Text.{
  members_of, members_lem, packets_text, document, document_of, document-HasNoNul,
}
use native.Mathlib.Numerals.{towards_suc}
use mathlib.Core.List.{map, append-nil, append_assoc}

-- A list from `k` on, opened at its first element.
drop-cons_inv :
    (k : ℕ) (xs : List PacketInfo) {q : PacketInfo} {rest : List PacketInfo}
    → drop k xs ≡ q ∷ rest
    → (get_elem? xs k ≡ some q) × (drop (k + 1) xs ≡ rest)
drop-cons_inv zero [] h = absurd cc
drop-cons_inv zero (x ∷ xs) h = (cc, cc)
drop-cons_inv (suc k) [] h = absurd cc
drop-cons_inv (suc k) (x ∷ xs) h =
    let (f, e) = drop-cons_inv k xs h in (f, simp towards_suc (simp towards_suc at e))

module _ (p : Platform) (g : Server) where
  Emits-write_packet :
      (k : ℕ) (q : PacketInfo)
      → get_elem? g.cap_info.packet_info_array k ≡ some q
      → IsSlot q
      → Emits g (packet_text (members_of p q)) (write_packet p k)
  unfolding write_packet
  Emits-write_packet k q found w =
      Emits-cong g _ _ (sprintf (packet_text (members_of p q))) (Emits-sprintf g _)
        λ t s h. rw (ap (λ (s : Server). s.cap_info) h.same, found, members_lem p q w) refl

  Emits-write_comma :
      (k : ℕ) → k < g.cap_info.packet_info_count - 1 → Emits g (codes ",") (write_comma p k)
  unfolding write_comma
  Emits-write_comma k lt =
      Emits-cong g _ _ (sprintf (codes ",")) (Emits-sprintf g _)
        λ t s h. rw (ap (λ (s : Server). s.cap_info) h.same) (ground arith)

  Emits-write_comma_last :
      (k : ℕ) → g.cap_info.packet_info_count ≤ k + 1 → Emits g [] (write_comma p k)
  unfolding write_comma
  Emits-write_comma_last k le =
      Emits-cong g _ _ ok (Emits-ok g)
        λ t s h. rw (ap (λ (s : Server). s.cap_info) h.same) (ground arith)

  -- The loop from packet `k` on, where `qs` are the packets that are left.
  Emits-write_packets :
      (qs : List PacketInfo) (k : ℕ) (rest : List PacketInfo)
      → drop k g.cap_info.packet_info_array ≡ qs ++ rest
      → k + length qs ≡ g.cap_info.packet_info_count
      → All IsSlot qs
      → Emits g (packets_text (map (members_of p) qs)) (write_packets p (length qs) k)
  unfolding write_packets packets_text
  Emits-write_packets [] k rest e n w = Emits-ok g
  Emits-write_packets (q ∷ []) k rest e n (w, ws) =
      rw (sym (append-nil (packet_text (members_of p q)))) (
        Emits-bind g _ [] _ _ (Emits-write_packet k q (drop-cons_inv k _ e).0 w)
          (Emits-bind g [] [] _ ok (Emits-write_comma_last k (omega arith)) (Emits-ok g)))
  Emits-write_packets (q ∷ r ∷ qs) k rest e n (w, ws) =
      Emits-bind g _ _ _ _ (Emits-write_packet k q (drop-cons_inv k _ e).0 w) (
        Emits-bind g (codes ",") _ _ _ (Emits-write_comma k (omega arith))
          (Emits-write_packets (r ∷ qs) (k + 1) rest (drop-cons_inv k _ e).1 (omega arith) ws))

  -- The whole of `generateJson` but its last two characters.
  body : Bytes
  body =
      codes "{\"packets\":["
      ++ packets_text
          (map (members_of p) (take g.cap_info.packet_info_count g.cap_info.packet_info_array))

  write_body : Server → Outcome Server
  write_body s = do
    s1 ← sprintf (codes "{\"packets\":[") s
    write_packets p s1.cap_info.packet_info_count 0 s1

  Emits-write_body : IsServer g → Emits g body write_body
  unfolding body write_body
  Emits-write_body v = Emits-bind g (codes "{\"packets\":[") _ _ _ (Emits-sprintf g _) (
      Emits-cong g _ _ (λ s. write_packets p (length qs) 0 s)
        (Emits-write_packets qs 0 (drop g.cap_info.packet_info_count g.cap_info.packet_info_array)
          (sym (take-append-drop _ _)) (omega (arith, counted)) (All-take IsSlot _ _ v.slots))
        λ t s h.
          ap (λ n. write_packets p n 0 s)
            (ap (λ (s : Server). s.cap_info.packet_info_count) h.same ∙ sym counted))
    where
      qs : List PacketInfo
      qs = take g.cap_info.packet_info_count g.cap_info.packet_info_array

      counted : length qs ≡ g.cap_info.packet_info_count
      counted = length-take _ _ (omega (arith, v.counted, v.within, v.size))

  start : IsServer g → HasOutput g [] (record g { buff_ptr = 0 })
  start v = record {
    rest = g.output_buff;
    same = refl;
    size = omega (arith, v.buffer);
    room = omega arith;
  }

  generate_json-write_body :
      generate_json p g ≡ (write_body (record g { buff_ptr = 0 }) >>= λ s. sprintf (codes "]}") s)
  unfolding generate_json write_body
  generate_json-write_body =
      sym (>>=-assoc (sprintf (codes "{\"packets\":[") (record g { buff_ptr = 0 })) _ _)

  document_of-body : document_of p g ≡ body ++ codes "]}"
  unfolding document_of document body
  document_of-body = simp append_assoc

  document_of-HasNoNul : until_nul (document_of p g) ≡ document_of p g
  unfolding document_of
  document_of-HasNoNul = document-HasNoNul p _

  -- Where the globals keep the invariant and the document for the counted packets has less than
  -- 8192 characters, generateJson returns. The string in output_buff is the document then,
  -- buff_ptr stands at its NUL, output_buff keeps its size, and nothing else changes.
  pub generate_json-document :
      IsServer g
      → length (document_of p g) < max_output_buffer_size
      → (rest : Bytes) × (generate_json p g ≡ ok (written g (document_of p g) (0 ∷ rest)))
        × (c_string (document_of p g ++ (0 ∷ rest)) ≡ some (document_of p g))
        × (length (document_of p g ++ (0 ∷ rest)) ≡ max_output_buffer_size)
  generate_json-document v lt =
      let (s1, e1, h1) = (Emits-write_body v).fits [] _ (start v) (omega (arith, long)) in
      let wrote =
        ap (sprintf (codes "]}")) h1.same
        ∙ sprintf_lem g body h1.rest (codes "]}") (omega (arith, long, h1.size)) in
      (
        drop 3 h1.rest,
        generate_json-write_body
            ∙ ap (λ m. m >>= λ s. sprintf (codes "]}") s) e1
            ∙ wrote
            ∙ ap (λ t. ok (written g t (0 ∷ drop 3 h1.rest))) (sym document_of-body),
        c_string-append_nul (document_of p g) (drop 3 h1.rest) ∙ ap some document_of-HasNoNul,
        omega (
          arith,
          long,
          h1.size,
          length-append (document_of p g) (0 ∷ drop 3 h1.rest),
          length-drop 3 h1.rest,
        ),
      )
    where
      long : length (document_of p g) ≡ length body + 2
      long = ap length document_of-body ∙ length-append body (codes "]}")

  -- Where they do not fit, it writes behind the end of `output_buff`.
  pub generate_json-overflow :
      IsServer g → max_output_buffer_size ≤ length (document_of p g) → generate_json p g ≡ fault
  generate_json-overflow v le = elim (Bool-cases (ltb (length body) max_output_buffer_size)) [
    | inl body_fits ↦
        let (s1, e1, h1) =
          (Emits-write_body v).fits [] _ (start v)
            (omega (arith, ltb→lt (length body) max_output_buffer_size body_fits)) in
        generate_json-write_body
        ∙ ap (λ m. m >>= λ s. sprintf (codes "]}") s) e1
        ∙ ap (sprintf (codes "]}")) h1.same
        ∙ sprintf-fault g body h1.rest (codes "]}") (omega (arith, long, h1.size))
    | inr body_over ↦
        generate_json-write_body
        ∙ ap (λ m. m >>= λ s. sprintf (codes "]}") s)
            ((Emits-write_body v).over [] _ (start v) (ground arith))
  ]
    where
      long : length (document_of p g) ≡ length body + 2
      long = ap length document_of-body ∙ length-append body (codes "]}")
