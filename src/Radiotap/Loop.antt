-- ===== src/Radiotap/Loop.antt =====
-- The loop over the radiotap fields, on the list of the fields that the iterator yields.
use network_analyser_using_r.Base.{
  ℕ, zero, suc, ◌<◌, ◌≡◌, refl, ap, ◌∙◌, sym, arith, Bytes, List, [], ◌∷◌, Option, true, false, ℤ,
  pos, equal_int, length, ◌⊎◌, inl, inr, Bool-cases, length-set,
}
use mathlib.Core.Path.{fun_ext}
use network_analyser_using_r.Outcome.{Outcome, ok, exit, fault, hang, ◌>>=◌, bind_inv}
use network_analyser_using_r.State.{Platform, PacketInfo, Server, current, put_current}
use network_analyser_using_r.State.Slots.{
  with_current, put_current_lem, with_current_self, current-with_current, with_current-with_current,
}
use network_analyser_using_r.Radiotap.{minus_one, store_field, radiotap_loop}

-- A field: its index, and where its argument is.
abbrev pub Field : Type 0
Field = ℤ × Option ℕ

module _ (p : Platform) (packet : Bytes) where
  open p use {radiotap as rt}

  -- From `it` the iterator yields these fields, errors included, and then -1.
  abbrev pub Yields : rt.Iterator → List Field → Type 0
  Yields it [] = equal_int (rt.next packet it).0 minus_one ≡ true
  Yields it (f ∷ fs) =
      (equal_int (rt.next packet it).0 minus_one ≡ false)
      × (f ≡ (rt.this_arg_index (rt.next packet it).1, rt.this_arg (rt.next packet it).1))
      × Yields (rt.next packet it).1 fs

  -- The slot after the fields, one by one.
  unfoldable pub store_fields : List Field → PacketInfo → Outcome PacketInfo
  store_fields [] q = ok q
  store_fields ((index, arg) ∷ fs) q = store_field p packet index arg q >>= store_fields fs

  -- The rest of a round, from the iterator after the call.
  abbrev pub round : ℕ → rt.Iterator → Server → Outcome (ℤ × Server)
  round fuel it' s = current s >>= λ q.
      store_field p packet (rt.this_arg_index it') (rt.this_arg it') q >>= λ q'.
      put_current s q' >>= radiotap_loop p packet fuel it'

  pub radiotap_loop-last :
      (fuel : ℕ) (it : rt.Iterator) (s : Server)
      → equal_int (rt.next packet it).0 minus_one ≡ true
      → radiotap_loop p packet (suc fuel) it s ≡ ok (pos 0, s)
  unfolding radiotap_loop
  radiotap_loop-last fuel it s h = rw (h, radiotap_loop)

  pub radiotap_loop-more :
      (fuel : ℕ) (it : rt.Iterator) (s : Server)
      → equal_int (rt.next packet it).0 minus_one ≡ false
      → radiotap_loop p packet (suc fuel) it s ≡ round fuel (rt.next packet it).1 s
  unfolding radiotap_loop
  radiotap_loop-more fuel it s h = rw (h, radiotap_loop)

  -- With fuel for every field and one call more, the loop ends: it returns 0 with the fields stored
  -- in the current slot, or faults as storing them does.
  pub radiotap_loop_lem :
      (fs : List Field) (fuel : ℕ) (it : rt.Iterator) (s : Server) (q : PacketInfo)
      → Yields it fs
      → length fs < fuel
      → current s ≡ ok q
      → s.cur_packet_count < length s.cap_info.packet_info_array
      → radiotap_loop p packet fuel it s
        ≡ (store_fields fs q >>= λ q'. ok (pos 0, with_current s q'))
  unfolding store_fields
  radiotap_loop_lem fs zero it s q h enough found room = absurd (omega arith)
  radiotap_loop_lem [] (suc fuel) it s q h enough found room =
      radiotap_loop-last fuel it s h ∙ ap (λ s'. ok (pos 0, s')) (sym (with_current_self s q found))
  radiotap_loop_lem (f ∷ fs) (suc fuel) it s q h enough found room =
      let it' = (rt.next packet it).1 in
      let same : store_field p packet f.0 f.1 q
          ≡ store_field p packet (rt.this_arg_index it') (rt.this_arg it') q =
        ap (λ g. store_field p packet g.0 g.1 q) h.1 in
      radiotap_loop-more fuel it s h.0
      ∙ rw (found, same)
          (stored it' (radiotap_loop_lem fs fuel it') h.2
            (store_field p packet (rt.this_arg_index it') (rt.this_arg it') q))
    where
      stored :
          (it' : rt.Iterator)
          → ((s : Server) (q : PacketInfo)
              → Yields it' fs
              → length fs < fuel
              → current s ≡ ok q
              → s.cur_packet_count < length s.cap_info.packet_info_array
              → radiotap_loop p packet fuel it' s
                ≡ (store_fields fs q >>= λ q'. ok (pos 0, with_current s q')))
          → Yields it' fs
          → (m : Outcome PacketInfo)
          → (m >>= λ q'. put_current s q' >>= radiotap_loop p packet fuel it')
            ≡ (m >>= store_fields fs >>= λ q'. ok (pos 0, with_current s q'))
      stored it' ih y (ok q') =
          let moved : s.cur_packet_count < length (with_current s q').cap_info.packet_info_array =
            omega (arith, length-set s.cap_info.packet_info_array s.cur_packet_count q') in
          rw
            (
              put_current_lem s q' room,
              ih (with_current s q') q' y (omega arith) (current-with_current s q' room) moved,
            )
            (ap (λ (k : PacketInfo → Server). store_fields fs q' >>= λ q''. ok (pos 0, k q''))
              (fun_ext (with_current-with_current s q')))
      stored it' ih y (exit c) = refl
      stored it' ih y fault = refl
      stored it' ih y hang = refl

  -- A loop that returns has seen the end of the fields.
  pub radiotap_loop-Yields :
      (fuel : ℕ) (it : rt.Iterator) (s : Server) (r : ℤ × Server)
      → radiotap_loop p packet fuel it s ≡ ok r
      → (fs : List Field) × Yields it fs × (length fs < fuel)
  radiotap_loop-Yields zero it s r h = absurd (unfold radiotap_loop in ground arith)
  radiotap_loop-Yields (suc fuel) it s r h =
      seen (radiotap_loop-Yields fuel (rt.next packet it).1)
        (Bool-cases (equal_int (rt.next packet it).0 minus_one))
    where
      it' : rt.Iterator
      it' = (rt.next packet it).1

      seen :
          ((s : Server) (r : ℤ × Server)
            → radiotap_loop p packet fuel it' s ≡ ok r
            → (fs : List Field) × Yields it' fs × (length fs < fuel))
          → (equal_int (rt.next packet it).0 minus_one ≡ true)
            ⊎ (equal_int (rt.next packet it).0 minus_one ≡ false)
          → (fs : List Field) × Yields it fs × (length fs < suc fuel)
      seen ih (inl last) = ([], last, omega arith)
      seen ih (inr more) =
          let (q, found, h1) =
            bind_inv (current s) _ (sym (radiotap_loop-more fuel it s more) ∙ h) in
          let (q', stored, h2) =
            bind_inv (store_field p packet (rt.this_arg_index it') (rt.this_arg it') q) _ h1 in
          let (s', put, h3) = bind_inv (put_current s q') _ h2 in
          let (fs, y, less) = ih s' r h3 in
          ((rt.this_arg_index it', rt.this_arg it') ∷ fs, (more, refl, y), omega arith)
