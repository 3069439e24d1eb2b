-- ===== src/Json/Cut.antt =====
-- JSON texts that are cut off and filled up with NULs, under the reader.
use network_analyser_using_r.Base.{
  ℕ, zero, suc, ◌≡◌, refl, ap, ◌∙◌, sym, subst, arith, Bool, true, false, ◌&&◌, ltb, not, Bytes, [],
  ◌∷◌, ◌++◌, some, replicate,
}
use network_analyser_using_r.Json.Value.{
  Json, Items, Fields, string, array, object, end_items, item, end_fields, field, quoted, comma,
  render, render_items, render_fields,
}
use network_analyser_using_r.Json.RoundTrip.{
  IsPlain, IsPlainJson, ArePlainItems, ArePlainFields, read_json, read_json-render,
}
use network_analyser_using_r.Json.Sound.{read_value_sound}
use mathlib.Core.Option.{some-injective}
use mathlib.Core.List.{append_assoc, append-nil}

-- No control characters.
abbrev all_shown : Bytes → Bool
all_shown [] = true
all_shown (c ∷ cs) = not (ltb c 32) && all_shown cs

all_shown-append :
    (a b : Bytes) → all_shown a ≡ true → all_shown b ≡ true → all_shown (a ++ b) ≡ true
all_shown-append [] b h k = k
all_shown-append (c ∷ a) b h k = ground (arith, all_shown-append a b)

all_shown-after : (a b : Bytes) → all_shown (a ++ b) ≡ true → all_shown b ≡ true
all_shown-after [] b h = h
all_shown-after (c ∷ a) b h = ground (arith, all_shown-after a b)

all_shown-IsPlain : (t : Bytes) → IsPlain t → all_shown t ≡ true
all_shown-IsPlain [] h = refl
all_shown-IsPlain (c ∷ t) h = ground (arith, all_shown-IsPlain t)

all_shown-quoted : (t : Bytes) → IsPlain t → all_shown (quoted t) ≡ true
all_shown-quoted t h = all_shown-append t (b'"' ∷ []) (all_shown-IsPlain t h) refl

all_shown-comma : (first : Bool) → all_shown (comma first) ≡ true
all_shown-comma true = refl
all_shown-comma false = refl

mutual
  unfolding render IsPlainJson

  all_shown-render : (v : Json) → IsPlainJson v → all_shown (render v) ≡ true
  all_shown-render (string t) h = all_shown-quoted t h
  all_shown-render (array vs) h = all_shown-render_items true vs h
  all_shown-render (object fs) h = all_shown-render_fields true fs h

  all_shown-render_items :
      (first : Bool) (vs : Items) → ArePlainItems vs → all_shown (render_items first vs) ≡ true
  all_shown-render_items first end_items h = refl
  all_shown-render_items first (item v vs) h =
      all_shown-append (comma first) _ (all_shown-comma first) (
        all_shown-append (render v) _ (all_shown-render v h.0)
          (all_shown-render_items false vs h.1))

  all_shown-render_fields :
      (first : Bool) (fs : Fields) → ArePlainFields fs → all_shown (render_fields first fs) ≡ true
  all_shown-render_fields first end_fields h = refl
  all_shown-render_fields first (field k v fs) h =
      all_shown-append (comma first) _ (all_shown-comma first) (
        all_shown-append (quoted k) _ (all_shown-quoted k h.0) (
          all_shown-append (render v) _ (all_shown-render v h.1)
            (all_shown-render_fields false fs h.2)))

-- Two ways to split one text.
data Splits (a b c d : Bytes) : Type 0 where
  within : (r : Bytes) → a ≡ c ++ r → d ≡ r ++ b → Splits a b c d
  beyond : (x : ℕ) (r : Bytes) → c ≡ a ++ (x ∷ r) → b ≡ x ∷ (r ++ d) → Splits a b c d

splits : (a b c d : Bytes) → a ++ b ≡ c ++ d → Splits a b c d
splits a b [] d h = within a refl (sym h)
splits [] b (x ∷ c) d h = beyond x c refl h
splits (y ∷ a) b (x ∷ c) d h =
    let heads : y ≡ x = cc in
    let tails : a ++ b ≡ c ++ d = cc in
    elim (splits a b c d tails) [
      | within r e f ↦ within r (rw (heads, e) refl) f
      | beyond z r e f ↦ beyond z r (rw (heads, e) refl) f
    ]

zeros_shown : (n x : ℕ) (r : Bytes) → replicate n 0 ≡ x ∷ r → not (ltb x 32) ≡ false
zeros_shown zero x r h = absurd cc
zeros_shown (suc n) x r h =
    let zeroed : 0 ≡ x = cc in subst (λ c. not (ltb c 32) ≡ false) zeroed refl

nil_after : (r back : Bytes) → [] ≡ r ++ back → back ≡ []
nil_after [] back h = sym h
nil_after (c ∷ r) back h = absurd cc

-- The reader takes a front part of the text of a value, with NULs behind it, only where it is the whole text.
pub read_json-cut :
    (v u : Json) (front back rest : Bytes) (n : ℕ)
    → IsPlainJson v
    → render v ≡ front ++ back
    → read_json (front ++ replicate n 0) ≡ some (u, rest)
    → back ≡ []
unfolding read_json
read_json-cut v u front back rest n plain same h =
    let (split, plain_u) = read_value_sound _ _ u rest h in
    elim (splits front (replicate n 0) (render u) rest split) [
      | within r e f ↦
          let whole : render v ≡ render u ++ (r ++ back) =
            same ∙ ap (λ t. t ++ back) e ∙ append_assoc (render u) r back in
          let start : some (v, []) ≡ some (u, r ++ back) =
            sym (read_json-render v [] plain)
            ∙ ap read_json (append-nil (render v) ∙ whole)
            ∙ read_json-render u (r ++ back) plain_u in
          nil_after r back (ap (λ (q : Json × Bytes). q.1) (some-injective _ _ start))
      | beyond x r e f ↦
          let shown =
            all_shown-after front (x ∷ r) (ap all_shown (sym e) ∙ all_shown-render u plain_u) in
          let control = zeros_shown n x (r ++ rest) f in absurd (ground arith)
    ]
