-- ===== src/Json/Value.antt =====
-- JSON values of strings, arrays and objects: how they are written, and a reader for them.
use network_analyser_using_r.Base.{
  ℕ, zero, suc, Bool, true, false, ◌||◌, ◌==◌, ltb, Bytes, [], ◌∷◌, ◌++◌, Option, none, some,
  if◌then◌else◌,
}

mutual
  pub data Json : Type 0 where
    string : Bytes → Json
    array : Items → Json
    object : Fields → Json

  pub data Items : Type 0 where
    end_items : Items
    item : Json → Items → Items

  pub data Fields : Type 0 where
    end_fields : Fields
    field : Bytes → Json → Fields → Fields

-- The comma in front of all parts but the first.
abbrev pub comma : Bool → Bytes
comma true = []
comma false = b',' ∷ []

-- A string in quotes, with no escapes.
abbrev pub quoted : Bytes → Bytes
quoted t = b'"' ∷ (t ++ (b'"' ∷ []))

unfoldable mutual
  pub render : Json → Bytes
  render (string t) = quoted t
  render (array vs) = b'[' ∷ render_items true vs
  render (object fs) = b'{' ∷ render_fields true fs

  pub render_items : Bool → Items → Bytes
  render_items first end_items = b']' ∷ []
  render_items first (item v vs) = comma first ++ (render v ++ render_items false vs)

  pub render_fields : Bool → Fields → Bytes
  render_fields first end_fields = b'}' ∷ []
  render_fields first (field k v fs) =
      comma first ++ (quoted k ++ (b':' ∷ (render v ++ render_fields false fs)))

abbrev pub and_then {ℓ κ} : {A : Type ℓ} {B : Type κ} → Option A → (A → Option B) → Option B
and_then none f = none
and_then (some a) f = f a

-- A string from behind its opening quote, with what follows its closing one. A backslash or a
-- control character is refused.
unfoldable pub read_text : Bytes → Option (Bytes × Bytes)
read_text [] = none
read_text (c ∷ cs) =
    if c == b'"'
    then some ([], cs)
    else if c == b'\\' || ltb c 32
    then none
    else and_then (read_text cs) (λ (t, rest). some (c ∷ t, rest))

unfoldable pub expect : ℕ → Bytes → Option Bytes
expect d [] = none
expect d (c ∷ cs) = if c == d then some cs else none

unfoldable pub expect_comma : Bool → Bytes → Option Bytes
unfolding expect
expect_comma true cs = some cs
expect_comma false cs = expect b',' cs

unfoldable pub read_quoted : Bytes → Option (Bytes × Bytes)
unfolding expect read_text
read_quoted cs = and_then (expect b'"' cs) read_text

-- How a value begins.
pub data Start : Type 0 where
  quote bracket brace other_start : Start

unfoldable pub start : Bytes → Start
start [] = other_start
start (c ∷ cs) =
    if c == b'"'
    then quote
    else if c == b'['
    then bracket
    else if c == b'{'
    then brace
    else other_start

abbrev pub rest_of : Bytes → Bytes
rest_of [] = []
rest_of (c ∷ cs) = cs

-- Each call takes a unit of fuel and reads at least one character of its value.
unfoldable mutual
  unfolding start expect expect_comma read_text read_quoted

  pub read_value : ℕ → Bytes → Option (Json × Bytes)
  read_value zero cs = none
  read_value (suc fuel) cs = elim (start cs) [
    | quote ↦ and_then (read_quoted cs) (λ (t, rest). some (string t, rest))
    | bracket ↦ and_then (read_items fuel true (rest_of cs)) (λ (vs, rest). some (array vs, rest))
    | brace ↦ and_then (read_fields fuel true (rest_of cs)) (λ (fs, rest). some (object fs, rest))
    | other_start ↦ none
  ]

  pub read_items : ℕ → Bool → Bytes → Option (Items × Bytes)
  read_items zero first cs = none
  read_items (suc fuel) first cs = elim (expect b']' cs) [
    | some rest ↦ some (end_items, rest)
    | none ↦ and_then (expect_comma first cs) λ cs1.
        and_then (read_value fuel cs1)
          λ (v, cs2). and_then (read_items fuel false cs2) λ (vs, rest). some (item v vs, rest)
  ]

  pub read_fields : ℕ → Bool → Bytes → Option (Fields × Bytes)
  read_fields zero first cs = none
  read_fields (suc fuel) first cs = elim (expect b'}' cs) [
    | some rest ↦ some (end_fields, rest)
    | none ↦ and_then (expect_comma first cs) λ cs1. and_then (read_quoted cs1) λ (k, cs2).
        and_then (expect b':' cs2) λ cs3.
          and_then (read_value fuel cs3) λ (v, cs4).
            and_then (read_fields fuel false cs4) λ (fs, rest). some (field k v fs, rest)
  ]
