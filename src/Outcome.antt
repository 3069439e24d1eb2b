-- ===== src/Outcome.antt =====
-- How a call of the C code ends: it returns, it ends the process, it reads or writes outside an
-- object (which C leaves undefined), or it is still looping when the fuel of the model runs out.
use network_analyser_using_r.Base.{
  ℕ, ◌≡◌, refl, Option, none, some, if◌then◌else◌, ltb, length, get_elem?, set, List,
}

pub data Outcome {ℓ} (A : Type ℓ) : Type ℓ where
  ok : A → Outcome A
  exit : ℕ → Outcome A
  fault : Outcome A
  hang : Outcome A

infixl 5 ◌>>=◌
abbrev pub ◌>>=◌ {ℓ κ} : {A : Type ℓ} {B : Type κ} → Outcome A → (A → Outcome B) → Outcome B
ok a >>= f = f a
exit c >>= f = exit c
fault >>= f = fault
hang >>= f = hang

-- Inversion of a successful bind.
pub bind_inv {ℓ κ} :
    {A : Type ℓ} {B : Type κ} (call : Outcome A) (after : A → Outcome B) {r : B}
    → call >>= after ≡ ok r
    → (first : A) × (call ≡ ok first) × (after first ≡ ok r)
bind_inv (exit code) after h = cc
bind_inv fault after h = cc
bind_inv hang after h = cc
bind_inv (ok first) after h = (first, refl, h)

pub >>=-assoc {ℓ κ μ} :
    {A : Type ℓ} {B : Type κ} {C : Type μ} (m : Outcome A) (f : A → Outcome B) (g : B → Outcome C)
    → (m >>= f >>= g) ≡ (m >>= λ a. f a >>= g)
>>=-assoc (ok a) f g = refl
>>=-assoc (exit c) f g = refl
>>=-assoc fault f g = refl
>>=-assoc hang f g = refl

pub ok-injective {ℓ} : {A : Type ℓ} {a b : A} → ok a ≡ ok b → a ≡ b
ok-injective h = cc

abbrev pub or_fault {ℓ} : {A : Type ℓ} → Option A → Outcome A
or_fault none = fault
or_fault (some a) = ok a

module _ {ℓ} {A : Type ℓ} where
  -- `xs[i]`, and `xs[i] = v`.
  abbrev pub load : List A → ℕ → Outcome A
  load xs i = or_fault (get_elem? xs i)

  abbrev pub store : List A → ℕ → A → Outcome (List A)
  store xs i v = if ltb i (length xs) then ok (set xs i v) else fault

-- A call that returns with a result in `P`, or faults.
abbrev pub Checked {ℓ} : {A : Type ℓ} → (A → Type 0) → Outcome A → Type 0
Checked P (ok a) = P a
Checked P (exit c) = ⊥
Checked P fault = Unit
Checked P hang = ⊥

module _ {ℓ κ} {A : Type ℓ} {B : Type κ} (P : A → Type 0) where
  -- What follows a checked call faults if it faults on every result.
  pub >>=-fault :
      (m : Outcome A) (f : A → Outcome B)
      → Checked P m
      → ((a : A) → P a → f a ≡ fault)
      → (m >>= f) ≡ fault
  >>=-fault (ok a) f h k = k a h
  >>=-fault (exit c) f h k = absurd h
  >>=-fault fault f h k = refl
  >>=-fault hang f h k = absurd h
