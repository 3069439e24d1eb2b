-- ===== src/Json/Inversion.antt =====
-- What the reader of JSON values has read where it returns.
use network_analyser_using_r.Base.{
  ℕ, suc, ◌≡◌, refl, ap, ◌∙◌, sym, arith, Bool, true, false, ◌==◌, ◌||◌, ltb, Bytes, [], ◌∷◌, ◌++◌,
  Option, none, some, ==_iff, Bool-cases, Option-cases, inl, inr,
}
use network_analyser_using_r.Json.Value.{
  Json, Items, Fields, string, array, object, end_items, item, end_fields, field, quoted, comma,
  read_text, read_quoted, expect, expect_comma, Start, quote, bracket, brace, other_start, start,
  rest_of, read_value, read_items, read_fields, and_then,
}
use network_analyser_using_r.Json.RoundTrip.{IsPlain}
use mathlib.Core.Option.{some-injective}
use mathlib.Core.List.{append_assoc}

and_then_inv {ℓ κ} :
    {A : Type ℓ} {B : Type κ} (m : Option A) (f : A → Option B) {b : B}
    → and_then m f ≡ some b
    → (a : A) × (m ≡ some a) × (f a ≡ some b)
and_then_inv none f h = absurd (cc)
and_then_inv (some a) f h = (a, refl, h)

expect_inv : (d : ℕ) (cs rest : Bytes) → expect d cs ≡ some rest → cs ≡ d ∷ rest
unfolding expect
expect_inv d [] rest h = absurd (cc)
expect_inv d (c ∷ cs) rest h = ground arith

expect_comma_inv :
    (first : Bool) (cs rest : Bytes) → expect_comma first cs ≡ some rest → cs ≡ comma first ++ rest
unfolding expect_comma
expect_comma_inv true cs rest h = some-injective _ _ h
expect_comma_inv false cs rest h = expect_inv b',' cs rest h

-- A text ends at its quote and needs no escapes.
read_text_inv :
    (cs t rest : Bytes) → read_text cs ≡ some (t, rest) → (cs ≡ t ++ (b'"' ∷ rest)) × IsPlain t
unfolding read_text
read_text_inv [] t rest h = absurd (cc)
read_text_inv (c ∷ cs) t rest h = elim (Bool-cases (c == b'"')) [
  | inl closing ↦
      let e = some-injective _ _ (rw closing at h) in
      rw (← ap (λ x. x.0) e, ← ap (λ x. x.1) e) (ap (λ d. d ∷ cs) ((==_iff c b'"').0 closing), refl)
  | inr inside ↦ elim (Bool-cases (c == b'\\' || ltb c 32)) [
    | inl refused ↦ absurd (refuses (rw (inside, refused) at h))
    | inr taken ↦
        let (u, e, g) =
          and_then_inv (read_text cs) (λ u. some (c ∷ u.0, u.1)) (rw (inside, taken) at h) in
        let f = some-injective _ _ g in
        let (split, plain) = read_text_inv cs u.0 u.1 e in
        rw (← ap (λ x. x.0) f, ← ap (λ x. x.1) f) (ap (◌∷◌ c) split, rw (inside, taken) plain)
  ]
]
  where
    refuses : ◌≡◌ {A = Option (Bytes × Bytes)} none (some (t, rest)) → ⊥
    refuses e = cc

pub read_quoted_inv :
    (cs t rest : Bytes) → read_quoted cs ≡ some (t, rest) → (cs ≡ quoted t ++ rest) × IsPlain t
unfolding read_quoted
read_quoted_inv cs t rest h =
    let (cs1, e, g) = and_then_inv (expect b'"' cs) read_text h in
    let (split, plain) = read_text_inv cs1 t rest g in
    (
      expect_inv b'"' cs cs1 e ∙ ap (◌∷◌ b'"') (split ∙ sym (append_assoc t (b'"' ∷ []) rest)),
      plain,
    )

-- The three kinds of values.
pub data ReadsValue (fuel : ℕ) (cs : Bytes) (v : Json) (rest : Bytes) : Type 0 where
  reads_string :
      (t : Bytes) → read_quoted cs ≡ some (t, rest) → v ≡ string t → ReadsValue fuel cs v rest
  reads_array :
      (vs : Items) (cs1 : Bytes)
      → cs ≡ b'[' ∷ cs1
      → read_items fuel true cs1 ≡ some (vs, rest)
      → v ≡ array vs
      → ReadsValue fuel cs v rest
  reads_object :
      (fs : Fields) (cs1 : Bytes)
      → cs ≡ b'{' ∷ cs1
      → read_fields fuel true cs1 ≡ some (fs, rest)
      → v ≡ object fs
      → ReadsValue fuel cs v rest

start_bracket : (cs : Bytes) → start cs ≡ bracket → cs ≡ b'[' ∷ rest_of cs
unfolding start
start_bracket [] h = absurd (cc)
start_bracket (c ∷ cs) h = ground arith

start_brace : (cs : Bytes) → start cs ≡ brace → cs ≡ b'{' ∷ rest_of cs
unfolding start
start_brace [] h = absurd (cc)
start_brace (c ∷ cs) h = ground arith

pair_inv {ℓ} :
    {A : Type ℓ} {a b : A} {r s : Bytes}
    → ◌≡◌ {A = Option (A × Bytes)} (some (a, r)) (some (b, s))
    → (b ≡ a) × (r ≡ s)
pair_inv h = let e = some-injective _ _ h in (sym (ap (λ x. x.0) e), ap (λ x. x.1) e)

pub read_value_inv :
    (fuel : ℕ) (cs : Bytes) (v : Json) (rest : Bytes)
    → read_value (suc fuel) cs ≡ some (v, rest)
    → ReadsValue fuel cs v rest
unfolding read_value
read_value_inv fuel cs v rest h = go (start cs) refl h
  where
    go :
        (st : Start)
        → start cs ≡ st
        → ◌≡◌ {A = Option (Json × Bytes)}
            (elim st [
              | quote ↦ and_then (read_quoted cs) (λ (t, rest). some (string t, rest))
              | bracket ↦
                  and_then (read_items fuel true (rest_of cs)) (λ (vs, rest). some (array vs, rest))
              | brace ↦
                  and_then
                    (read_fields fuel true (rest_of cs))
                    (λ (fs, rest). some (object fs, rest))
              | other_start ↦ none
            ])
            (some (v, rest))
        → ReadsValue fuel cs v rest
    go quote s e =
        let (x, f, g) = and_then_inv (read_quoted cs) _ e in
        let (same, r) = pair_inv g in reads_string x.0 (f ∙ ap (λ y. some (x.0, y)) r) same
    go bracket s e =
        let (x, f, g) = and_then_inv (read_items fuel true (rest_of cs)) _ e in
        let (same, r) = pair_inv g in
        reads_array x.0 (rest_of cs) (start_bracket cs s) (f ∙ ap (λ y. some (x.0, y)) r) same
    go brace s e =
        let (x, f, g) = and_then_inv (read_fields fuel true (rest_of cs)) _ e in
        let (same, r) = pair_inv g in
        reads_object x.0 (rest_of cs) (start_brace cs s) (f ∙ ap (λ y. some (x.0, y)) r) same
    go other_start s e = absurd (cc)

-- The end of an array or one more item, and the same for the members of an object.
pub data ReadsItems (fuel : ℕ) (first : Bool) (cs : Bytes) (vs : Items) (rest : Bytes)
    : Type 0 where
  reads_no_item : cs ≡ b']' ∷ rest → vs ≡ end_items → ReadsItems fuel first cs vs rest
  reads_item :
      (v : Json) (ws : Items) (cs1 cs2 : Bytes)
      → cs ≡ comma first ++ cs1
      → read_value fuel cs1 ≡ some (v, cs2)
      → read_items fuel false cs2 ≡ some (ws, rest)
      → vs ≡ item v ws
      → ReadsItems fuel first cs vs rest

abbrev item_step : ℕ → Bool → Bytes → Option Bytes → Option (Items × Bytes)
item_step fuel first cs (some rest) = some (end_items, rest)
item_step fuel first cs none = and_then (expect_comma first cs) λ cs1.
    and_then (read_value fuel cs1)
      λ (v, cs2). and_then (read_items fuel false cs2) λ (vs, rest). some (item v vs, rest)

pub read_items_inv :
    (fuel : ℕ) (first : Bool) (cs : Bytes) (vs : Items) (rest : Bytes)
    → read_items (suc fuel) first cs ≡ some (vs, rest)
    → ReadsItems fuel first cs vs rest
unfolding read_items
read_items_inv fuel first cs vs rest h = elim (Option-cases (expect b']' cs)) [
  | inr (cs1, e) ↦
      let (same, r) = pair_inv (sym (ap (item_step fuel first cs) e) ∙ h) in
      reads_no_item (expect_inv b']' cs cs1 e ∙ ap (◌∷◌ b']') r) same
  | inl e ↦
      let (cs1, f, g) =
        and_then_inv (expect_comma first cs) _ (sym (ap (item_step fuel first cs) e) ∙ h) in
      let (x, f1, g1) = and_then_inv (read_value fuel cs1) _ g in
      let (y, f2, g2) = and_then_inv (read_items fuel false x.1) _ g1 in
      let (same, r) = pair_inv g2 in
      reads_item x.0 y.0 cs1 x.1 (expect_comma_inv first cs cs1 f) f1
        (f2 ∙ ap (λ z. some (y.0, z)) r) same
]

pub data ReadsFields (fuel : ℕ) (first : Bool) (cs : Bytes) (fs : Fields) (rest : Bytes)
    : Type 0 where
  reads_no_field : cs ≡ b'}' ∷ rest → fs ≡ end_fields → ReadsFields fuel first cs fs rest
  reads_field :
      (k : Bytes) (v : Json) (gs : Fields) (cs1 cs2 cs3 : Bytes)
      → cs ≡ comma first ++ cs1
      → read_quoted cs1 ≡ some (k, b':' ∷ cs2)
      → read_value fuel cs2 ≡ some (v, cs3)
      → read_fields fuel false cs3 ≡ some (gs, rest)
      → fs ≡ field k v gs
      → ReadsFields fuel first cs fs rest

abbrev field_step : ℕ → Bool → Bytes → Option Bytes → Option (Fields × Bytes)
field_step fuel first cs (some rest) = some (end_fields, rest)
field_step fuel first cs none = and_then (expect_comma first cs) λ cs1.
    and_then (read_quoted cs1) λ (k, cs2). and_then (expect b':' cs2) λ cs3.
      and_then (read_value fuel cs3)
        λ (v, cs4). and_then (read_fields fuel false cs4) λ (fs, rest). some (field k v fs, rest)

pub read_fields_inv :
    (fuel : ℕ) (first : Bool) (cs : Bytes) (fs : Fields) (rest : Bytes)
    → read_fields (suc fuel) first cs ≡ some (fs, rest)
    → ReadsFields fuel first cs fs rest
unfolding read_fields
read_fields_inv fuel first cs fs rest h = elim (Option-cases (expect b'}' cs)) [
  | inr (cs1, e) ↦
      let (same, r) = pair_inv (sym (ap (field_step fuel first cs) e) ∙ h) in
      reads_no_field (expect_inv b'}' cs cs1 e ∙ ap (◌∷◌ b'}') r) same
  | inl e ↦
      let (cs1, f, g) =
        and_then_inv (expect_comma first cs) _ (sym (ap (field_step fuel first cs) e) ∙ h) in
      let (k, f1, g1) = and_then_inv (read_quoted cs1) _ g in
      let (cs2, f2, g2) = and_then_inv (expect b':' k.1) _ g1 in
      let (x, f3, g3) = and_then_inv (read_value fuel cs2) _ g2 in
      let (y, f4, g4) = and_then_inv (read_fields fuel false x.1) _ g3 in
      let (same, r) = pair_inv g4 in
      reads_field k.0 x.0 y.0 cs1 cs2 x.1 (expect_comma_inv first cs cs1 f)
        (f1 ∙ ap (λ z. some (k.0, z)) (expect_inv b':' k.1 cs2 f2)) f3
        (f4 ∙ ap (λ z. some (y.0, z)) r) same
]
