-- ===== src/Decimal/Laws.antt =====
-- Decimal texts: they have no NUL, their length is bounded, and they read back.
use network_analyser_using_r.Base.{
  ℕ, zero, suc, ◌+◌, ◌-◌, ◌*◌, ◌/◌, ◌%◌, ◌^◌, ◌≤◌, ◌<◌, ◌≡◌, ◌≢◌, refl, ap, ◌∙◌, sym, arith, [],
  ◌∷◌, Bytes, length, ltb, ℤ, pos, negsuc, Bool-cases, inl, inr,
}
use native.Mathlib.Nat.{pow-suc}
use native.Mathlib.Numerals.{add-one}
use network_analyser_using_r.CString.{until_nul}
use network_analyser_using_r.Decimal.{digits_onto, decimal, show_int}

until_nul-digits_onto :
    (fuel n : ℕ) (acc : Bytes)
    → until_nul acc ≡ acc
    → until_nul (digits_onto fuel n acc) ≡ digits_onto fuel n acc
unfolding until_nul digits_onto
until_nul-digits_onto zero n acc h = h
until_nul-digits_onto (suc fuel) n acc h =
    ground (arith, until_nul-digits_onto fuel (n / 10) ((48 + n % 10) ∷ acc))

pub until_nul-show_int : (i : ℤ) → until_nul (show_int i) ≡ show_int i
unfolding show_int
until_nul-show_int (pos n) = until_nul-digits_onto (n + 1) n [] (unfold until_nul in refl)
until_nul-show_int (negsuc n) =
    unfold until_nul in
    ap (◌∷◌ b'-') (until_nul-digits_onto (n + 1 + 1) (n + 1) [] (unfold until_nul in refl))

length-digits_onto_ge : (fuel n : ℕ) (acc : Bytes) → length acc ≤ length (digits_onto fuel n acc)
unfolding digits_onto
length-digits_onto_ge zero n acc = omega arith
length-digits_onto_ge (suc fuel) n acc =
    ground (arith, length-digits_onto_ge fuel (n / 10) ((48 + n % 10) ∷ acc))

digits_onto-pos : (fuel n : ℕ) (acc : Bytes) → length acc < length (digits_onto (suc fuel) n acc)
unfolding digits_onto
digits_onto-pos fuel n acc =
    ground (arith, length-digits_onto_ge fuel (n / 10) ((48 + n % 10) ∷ acc))

-- A number has at least one digit.
pub length-show_int_pos : (i : ℤ) → 1 ≤ length (show_int i)
unfolding show_int
length-show_int_pos (pos n) = rw add-one (digits_onto-pos n n [])
length-show_int_pos (negsuc n) = omega arith

-- A number below 10 ^ k has at most k digits.
length-digits_onto_le :
    (k fuel n : ℕ) (acc : Bytes)
    → n < 10 ^ suc k
    → length (digits_onto fuel n acc) ≤ length acc + suc k
unfolding digits_onto
length-digits_onto_le k zero n acc h = omega arith
length-digits_onto_le zero (suc fuel) n acc h = ground (arith)
length-digits_onto_le (suc k) (suc fuel) n acc h =
    ground (arith, pow-suc 10 (suc k), length-digits_onto_le k fuel (n / 10) ((48 + n % 10) ∷ acc))

pub length-decimal_le : (k n : ℕ) → n < 10 ^ suc k → length (decimal n) ≤ suc k
unfolding decimal
length-decimal_le k n h = omega (arith, length-digits_onto_le k (n + 1) n [] h)

pow-ten_pos : (k : ℕ) → 1 ≤ 10 ^ k
pow-ten_pos zero = omega arith
pow-ten_pos (suc k) = omega (arith, pow-suc 10 k, pow-ten_pos k)

-- A number from 10 ^ k on has more than k digits.
length-digits_onto_gt :
    (k fuel n : ℕ) (acc : Bytes)
    → 10 ^ k ≤ n
    → n < fuel
    → length acc + suc k ≤ length (digits_onto fuel n acc)
unfolding digits_onto
length-digits_onto_gt k zero n acc h lt = absurd (omega arith)
length-digits_onto_gt zero (suc fuel) n acc h lt = omega (arith, digits_onto-pos fuel n acc)
length-digits_onto_gt (suc k) (suc fuel) n acc h lt =
    let large : 10 ^ k ≤ n / 10 = omega (arith, pow-suc 10 k, pow-ten_pos k) in
    let two : 10 ≤ n = omega (arith, pow-suc 10 k, pow-ten_pos k) in
    ground (arith, length-digits_onto_gt k fuel (n / 10) ((48 + n % 10) ∷ acc) large (omega arith))

pub length-decimal_gt : (k n : ℕ) → 10 ^ k ≤ n → suc k ≤ length (decimal n)
unfolding decimal
length-decimal_gt k n h = omega (arith, length-digits_onto_gt k (n + 1) n [] h (omega arith))

-- The number that a text of digits stands for, behind those read already.
unfoldable pub value_onto : ℕ → Bytes → ℕ
value_onto n [] = n
value_onto n (c ∷ cs) = value_onto (n * 10 + (c - 48)) cs

value_onto-digits_onto :
    (fuel n : ℕ) (acc : Bytes) → n < fuel → value_onto 0 (digits_onto fuel n acc) ≡ value_onto n acc
unfolding digits_onto value_onto
value_onto-digits_onto zero n acc h = absurd (omega arith)
value_onto-digits_onto (suc fuel) n acc h = elim (Bool-cases (ltb n 10)) [
  | inl small ↦ rw small (ap (λ m. value_onto m acc) (omega arith))
  | inr large ↦ rw large (
      value_onto-digits_onto fuel (n / 10) ((48 + n % 10) ∷ acc) (ground arith)
      ∙ ap (λ m. value_onto m acc) (omega arith))
]

pub value-decimal : (n : ℕ) → value_onto 0 (decimal n) ≡ n
unfolding decimal
value-decimal n = value_onto-digits_onto (n + 1) n [] (omega arith) ∙ unfold value_onto in refl

decimal-injective : (m n : ℕ) → decimal m ≡ decimal n → m ≡ n
decimal-injective m n e = sym (value-decimal m) ∙ ap (value_onto 0) e ∙ value-decimal n

-- A sign is no digit.
decimal-ne-minus : (m n : ℕ) → decimal m ≢ b'-' ∷ decimal (n + 1)
decimal-ne-minus m n e =
    let same : m ≡ n + 1 =
      sym (value-decimal m) ∙ ap (value_onto 0) e ∙ unfold value_onto in value-decimal (n + 1) in
    omega (arith, ap length (ap decimal same), ap length e)

-- A text stands for one number.
pub show_int-injective : (i j : ℤ) → show_int i ≡ show_int j → i ≡ j
unfolding show_int
show_int-injective (pos m) (pos n) e = ap pos (decimal-injective m n e)
show_int-injective (pos m) (negsuc n) e = absurd (decimal-ne-minus m n e)
show_int-injective (negsuc m) (pos n) e = absurd (decimal-ne-minus n m (sym e))
show_int-injective (negsuc m) (negsuc n) e =
    ap negsuc (omega (arith, decimal-injective (m + 1) (n + 1) (cc)))
