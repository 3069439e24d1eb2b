-- ===== src/Json/Sprintf.antt =====
-- Writing at `buff_ptr`: the text that was written so far, and how parts of it join.
use network_analyser_using_r.Base.{
  ◌+◌, ◌≤◌, ◌<◌, ◌≡◌, refl, ap, ◌∙◌, sym, arith, Bytes, [], ◌∷◌, ◌++◌, length, take, drop,
  length-append, length-drop, take_all, ltb, Bool-cases, ltb→lt, inl, inr,
}
use network_analyser_using_r.Outcome.{Outcome, ok, fault, ◌>>=◌}
use network_analyser_using_r.CString.{copy}
use network_analyser_using_r.CString.Copy.{copy_lem, copy-fault}
use network_analyser_using_r.State.{Server, max_output_buffer_size}
use network_analyser_using_r.Json.{sprintf}
use mathlib.Core.List.{append_assoc, append-nil}

-- The globals `g` with `t` written into the output, and `rest` behind it.
abbrev pub written : Server → Bytes → Bytes → Server
written g t rest = record g { output_buff = t ++ rest; buff_ptr = length t }

-- `s` is `g` with `t` written, and room for a NUL.
pub record HasOutput (g : Server) (t : Bytes) (s : Server) : Type 0 where
  pub rest : Bytes
  pub same : s ≡ written g t rest
  pub size : length t + length rest ≡ max_output_buffer_size
  pub room : length t < max_output_buffer_size

-- Where the text and a NUL fit, `sprintf` writes both and moves `buff_ptr` to the NUL.
pub sprintf_lem :
    (g : Server) (t rest text : Bytes)
    → length text + 1 ≤ length rest
    → sprintf text (written g t rest) ≡ ok (written g (t ++ text) (0 ∷ drop (length text + 1) rest))
unfolding sprintf
sprintf_lem g t rest text h = rw copied (
    ap
      (λ n.
        ok (record g {
          output_buff = (t ++ text) ++ (0 ∷ drop (length text + 1) rest);
          buff_ptr = n;
        }))
      (sym (length-append t text)))
  where
    whole : length (text ++ (0 ∷ [])) ≡ length text + 1
    whole = omega (arith, length-append text (0 ∷ []))

    copied :
        copy (length text + 1) 0 (length t) (text ++ (0 ∷ [])) (t ++ rest)
        ≡ ok ((t ++ text) ++ (0 ∷ drop (length text + 1) rest))
    copied =
        copy_lem (length text + 1) 0 (length t) (text ++ (0 ∷ [])) t rest refl
          (omega (arith, whole)) h
        ∙ ap (λ x. ok (t ++ (x ++ drop (length text + 1) rest)))
            (ap (λ n. take n (text ++ (0 ∷ []))) (sym whole) ∙ take_all (text ++ (0 ∷ [])))
        ∙ ap ok (simp append_assoc)

pub sprintf-fault :
    (g : Server) (t rest text : Bytes)
    → length rest < length text + 1
    → sprintf text (written g t rest) ≡ fault
unfolding sprintf
sprintf-fault g t rest text h = rw (
    copy-fault (length text + 1) 0 (length t) (text ++ (0 ∷ [])) (t ++ rest)
      (omega (arith, length-append t rest)) (omega (arith, length-append t rest)))

-- `m` writes `text` behind what is written, or faults, exactly where text and NUL do not fit.
pub record Emits (g : Server) (text : Bytes) (m : Server → Outcome Server) : Type 0 where
  pub fits :
      (t : Bytes) (s : Server)
      → HasOutput g t s
      → length t + length text < max_output_buffer_size
      → (s' : Server) × (m s ≡ ok s') × HasOutput g (t ++ text) s'
  pub over :
      (t : Bytes) (s : Server)
      → HasOutput g t s
      → max_output_buffer_size ≤ length t + length text
      → m s ≡ fault

module _ (g : Server) where
  pub Emits-sprintf : (text : Bytes) → Emits g text (sprintf text)
  Emits-sprintf text = record {
    fits = λ t s h lt. (
      written g (t ++ text) (0 ∷ drop (length text + 1) h.rest),
      ap (sprintf text) h.same ∙ sprintf_lem g t h.rest text (omega (arith, h.size)),
      record {
        rest = 0 ∷ drop (length text + 1) h.rest;
        same = refl;
        size = omega (arith, h.size, length-append t text, length-drop (length text + 1) h.rest);
        room = omega (arith, length-append t text);
      },
    );
    over = λ t s h le.
        ap (sprintf text) h.same ∙ sprintf-fault g t h.rest text (omega (arith, h.size));
  }

  pub Emits-ok : Emits g [] ok
  Emits-ok = record {
    fits = λ t s h lt. (s, refl, rw append-nil h);
    over = λ t s h le. absurd (omega (arith, h.room));
  }

  pub Emits-bind :
      (x y : Bytes) (m k : Server → Outcome Server)
      → Emits g x m
      → Emits g y k
      → Emits g (x ++ y) (λ s. m s >>= k)
  Emits-bind x y m k em ek = record {
    fits = λ t s h lt.
        let (s1, e1, h1) = em.fits t s h (omega (arith, length-append x y)) in
        let (s2, e2, h2) =
          ek.fits (t ++ x) s1 h1 (omega (arith, length-append x y, length-append t x)) in
        (s2, rw e1 e2, rw append_assoc at h2);
    over = λ t s h le. elim (Bool-cases (ltb (length t + length x) max_output_buffer_size)) [
      | inl first_fits ↦
          let (s1, e1, h1) = em.fits t s h (ltb→lt _ _ first_fits) in
          rw e1 (ek.over (t ++ x) s1 h1 (omega (arith, length-append x y, length-append t x)))
      | inr first_over ↦ rw (em.over t s h (ground arith))
    ];
  }

  -- Only the globals in `HasOutput` matter.
  pub Emits-cong :
      (text : Bytes) (m k : Server → Outcome Server)
      → Emits g text k
      → ((t : Bytes) (s : Server) → HasOutput g t s → m s ≡ k s)
      → Emits g text m
  Emits-cong text m k ek e = record {
    fits = λ t s h lt. let (s', f, h') = ek.fits t s h lt in (s', e t s h ∙ f, h');
    over = λ t s h le. e t s h ∙ ek.over t s h le;
  }
