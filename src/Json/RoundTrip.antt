-- ===== src/Json/RoundTrip.antt =====
-- Written JSON values under the reader.
use network_analyser_using_r.Base.{
  ℕ, zero, suc, ◌+◌, ◌≤◌, ◌≡◌, refl, arith, Bool, true, false, Bytes, [], ◌∷◌, ◌++◌, Option, none,
  some, length, length-append, ◌==◌, ◌&&◌, ◌||◌, not, ltb,
}
use network_analyser_using_r.Json.Value.{
  Json, Items, Fields, string, array, object, end_items, item, end_fields, field, comma, quoted,
  render, render_items, render_fields, read_text, read_quoted, expect, expect_comma, start,
  read_value, read_items, read_fields,
}
use mathlib.Core.List.{append_assoc}

-- Characters that need no escape in a JSON string.
abbrev pub plain_char : ℕ → Bool
plain_char c = not (c == b'"' || (c == b'\\' || ltb c 32))

abbrev pub all_plain : Bytes → Bool
all_plain [] = true
all_plain (c ∷ cs) = plain_char c && all_plain cs

abbrev pub IsPlain : Bytes → Type 0
IsPlain t = all_plain t ≡ true

unfoldable mutual
  pub IsPlainJson : Json → Type 0
  IsPlainJson (string t) = IsPlain t
  IsPlainJson (array vs) = ArePlainItems vs
  IsPlainJson (object fs) = ArePlainFields fs

  pub ArePlainItems : Items → Type 0
  ArePlainItems end_items = Unit
  ArePlainItems (item v vs) = IsPlainJson v × ArePlainItems vs

  pub ArePlainFields : Fields → Type 0
  ArePlainFields end_fields = Unit
  ArePlainFields (field k v fs) = IsPlain k × IsPlainJson v × ArePlainFields fs

read_text-plain : (t rest : Bytes) → IsPlain t → read_text (t ++ (b'"' ∷ rest)) ≡ some (t, rest)
unfolding read_text
read_text-plain [] rest h = refl
read_text-plain (c ∷ t) rest h = ground (arith, read_text-plain t rest)

pub read_quoted-plain :
    (t rest : Bytes) → IsPlain t → read_quoted (quoted t ++ rest) ≡ some (t, rest)
unfolding read_quoted expect
read_quoted-plain t rest h = rw append_assoc (read_text-plain t rest h)

-- A value does not begin like the end of an array.
expect-render : (v : Json) (rest : Bytes) → expect b']' (render v ++ rest) ≡ none
unfolding expect render
expect-render (string t) rest = refl
expect-render (array vs) rest = refl
expect-render (object fs) rest = refl

length-render_pos : (v : Json) → 1 ≤ length (render v)
unfolding render
length-render_pos (string t) = omega arith
length-render_pos (array vs) = omega arith
length-render_pos (object fs) = omega arith

length-item :
    (first : Bool) (v : Json) (vs : Items)
    → length (render_items first (item v vs))
      ≡ length (comma first) + length (render v) + length (render_items false vs)
unfolding render
length-item first v vs = omega (
  arith,
  length-append (comma first) (render v ++ render_items false vs),
  length-append (render v) (render_items false vs),
)

length-items_pos : (first : Bool) (vs : Items) → 1 ≤ length (render_items first vs)
unfolding render
length-items_pos first end_items = omega arith
length-items_pos first (item v vs) = omega (arith, length-item first v vs, length-render_pos v)

length-field :
    (first : Bool) (k : Bytes) (v : Json) (fs : Fields)
    → length (render_fields first (field k v fs))
      ≡ length (comma first) + length k + 3 + length (render v) + length (render_fields false fs)
unfolding render
length-field first k v fs = simp length-append (omega arith)

expect_colon : (cs : Bytes) → expect b':' (b':' ∷ cs) ≡ some cs
unfolding expect
expect_colon cs = refl

-- One round of the loops over items and fields.
read_items-item :
    (fuel : ℕ) (first : Bool) (cs cs1 cs2 rest : Bytes) (v : Json) (vs : Items)
    → expect b']' cs ≡ none
    → expect_comma first cs ≡ some cs1
    → read_value fuel cs1 ≡ some (v, cs2)
    → read_items fuel false cs2 ≡ some (vs, rest)
    → read_items (suc fuel) first cs ≡ some (item v vs, rest)
unfolding read_items
read_items-item fuel first cs cs1 cs2 rest v vs a b c d = ground arith

read_fields-field :
    (fuel : ℕ) (first : Bool) (cs cs1 cs2 cs3 rest k : Bytes) (v : Json) (fs : Fields)
    → expect b'}' cs ≡ none
    → expect_comma first cs ≡ some cs1
    → read_quoted cs1 ≡ some (k, b':' ∷ cs2)
    → read_value fuel cs2 ≡ some (v, cs3)
    → read_fields fuel false cs3 ≡ some (fs, rest)
    → read_fields (suc fuel) first cs ≡ some (field k v fs, rest)
unfolding read_fields
read_fields-field fuel first cs cs1 cs2 cs3 rest k v fs a b c d e = ground (arith, expect_colon cs2)

read_items-end :
    (first : Bool) (fuel : ℕ) (rest : Bytes)
    → read_items (suc fuel) first (b']' ∷ rest) ≡ some (end_items, rest)
unfolding read_items expect
read_items-end first fuel rest = refl

read_fields-end :
    (first : Bool) (fuel : ℕ) (rest : Bytes)
    → read_fields (suc fuel) first (b'}' ∷ rest) ≡ some (end_fields, rest)
unfolding read_fields expect
read_fields-end first fuel rest = refl

-- What stands behind a comma, or at the start.
expect_comma-comma : (first : Bool) (cs : Bytes) → expect_comma first (comma first ++ cs) ≡ some cs
unfolding expect_comma
expect_comma-comma true cs = refl
expect_comma-comma false cs = refl

expect-item :
    (first : Bool) (v : Json) (cs : Bytes) → expect b']' (comma first ++ (render v ++ cs)) ≡ none
expect-item true v cs = expect-render v cs
expect-item false v cs = unfold expect in refl

expect-field : (first : Bool) (k cs : Bytes) → expect b'}' (comma first ++ (quoted k ++ cs)) ≡ none
unfolding expect
expect-field true k cs = refl
expect-field false k cs = refl

mutual
  unfolding render read_value start IsPlainJson

  pub read_value-render :
      (v : Json) (fuel : ℕ) (rest : Bytes)
      → IsPlainJson v
      → length (render v) ≤ fuel
      → read_value fuel (render v ++ rest) ≡ some (v, rest)
  read_value-render (string t) zero rest h le = absurd (omega arith)
  read_value-render (array vs) zero rest h le = absurd (omega arith)
  read_value-render (object fs) zero rest h le = absurd (omega arith)
  read_value-render (string t) (suc fuel) rest h le = rw (read_quoted-plain t rest h)
  read_value-render (array vs) (suc fuel) rest h le =
      rw (read_items-render vs true fuel rest h (omega arith))
  read_value-render (object fs) (suc fuel) rest h le =
      rw (read_fields-render fs true fuel rest h (omega arith))

  read_items-render :
      (vs : Items) (first : Bool) (fuel : ℕ) (rest : Bytes)
      → ArePlainItems vs
      → length (render_items first vs) ≤ fuel
      → read_items fuel first (render_items first vs ++ rest) ≡ some (vs, rest)
  read_items-render end_items first zero rest h le = absurd (omega arith)
  read_items-render (item v vs) first zero rest h le =
      absurd (omega (arith, length-items_pos first (item v vs)))
  read_items-render end_items first (suc fuel) rest h le = read_items-end first fuel rest
  read_items-render (item v vs) first (suc fuel) rest h le = simp append_assoc (
      read_items-item fuel first (comma first ++ (render v ++ (render_items false vs ++ rest)))
        (render v ++ (render_items false vs ++ rest)) (render_items false vs ++ rest) rest v vs
        (expect-item first v (render_items false vs ++ rest))
        (expect_comma-comma first (render v ++ (render_items false vs ++ rest)))
        (read_value-render v fuel (render_items false vs ++ rest) h.0
          (omega (arith, length-item first v vs, length-items_pos false vs)))
        (read_items-render vs false fuel rest h.1
          (omega (arith, length-item first v vs, length-render_pos v))))

  read_fields-render :
      (fs : Fields) (first : Bool) (fuel : ℕ) (rest : Bytes)
      → ArePlainFields fs
      → length (render_fields first fs) ≤ fuel
      → read_fields fuel first (render_fields first fs ++ rest) ≡ some (fs, rest)
  read_fields-render end_fields first zero rest h le = absurd (omega arith)
  read_fields-render (field k v fs) first zero rest h le =
      absurd (omega (arith, length-field first k v fs))
  read_fields-render end_fields first (suc fuel) rest h le = read_fields-end first fuel rest
  read_fields-render (field k v fs) first (suc fuel) rest h le = simp append_assoc (
      simp append_assoc at (
        read_fields-field fuel first
          (comma first ++ (quoted k ++ (b':' ∷ (render v ++ (render_fields false fs ++ rest)))))
          (quoted k ++ (b':' ∷ (render v ++ (render_fields false fs ++ rest))))
          (render v ++ (render_fields false fs ++ rest)) (render_fields false fs ++ rest) rest k v
          fs (expect-field first k (b':' ∷ (render v ++ (render_fields false fs ++ rest))))
          (expect_comma-comma first
            (quoted k ++ (b':' ∷ (render v ++ (render_fields false fs ++ rest)))))
          (read_quoted-plain k (b':' ∷ (render v ++ (render_fields false fs ++ rest))) h.0)
          (read_value-render v fuel (render_fields false fs ++ rest) h.1
            (omega (arith, length-field first k v fs)))
          (read_fields-render fs false fuel rest h.2 (omega (arith, length-field first k v fs)))))

-- The reader on a whole text: fuel for its length is enough.
unfoldable pub read_json : Bytes → Option (Json × Bytes)
read_json cs = read_value (length cs) cs

pub read_json-render :
    (v : Json) (rest : Bytes) → IsPlainJson v → read_json (render v ++ rest) ≡ some (v, rest)
unfolding read_json
read_json-render v rest h =
    read_value-render v (length (render v ++ rest)) rest h
      (omega (arith, length-append (render v) rest))
