-- ===== src/CString/Compare.antt =====
-- `strcmp` on arrays that hold a NUL is equality of the texts that they hold.
use network_analyser_using_r.Base.{
  ℕ, [], ◌∷◌, Option, none, some, true, false, ◌≡◌, refl, arith, ◌==◌, Bytes, ◌⊎◌, inl, inr,
  Bool-cases,
}
use network_analyser_using_r.Outcome.{ok}
use network_analyser_using_r.CString.{c_string, same_string, same_text}

-- What a text says of the first character of the array and of the rest.
pub c_string-cons_inv :
    (c : ℕ) (cs t : Bytes)
    → c_string (c ∷ cs) ≡ some t
    → ((c ≡ 0) × (t ≡ [])) ⊎ ((u : Bytes) × (¬ (c ≡ 0)) × (c_string cs ≡ some u) × (t ≡ c ∷ u))
unfolding c_string
c_string-cons_inv c cs t h = go (Bool-cases (c == 0)) (c_string cs) refl
  where
    go :
        ((c == 0) ≡ true) ⊎ ((c == 0) ≡ false)
        → (o : Option Bytes) → c_string cs ≡ o
        → ((c ≡ 0) × (t ≡ [])) ⊎ ((u : Bytes) × (¬ (c ≡ 0)) × (c_string cs ≡ some u) × (t ≡ c ∷ u))
    go (inl z) o e = inl (ground arith, ground arith)
    go (inr n) none e = absurd (ground arith)
    go (inr n) (some u) e = inr (u, ground arith, e, ground arith)

pub same_string_lem :
    (a b x y : Bytes)
    → c_string a ≡ some x
    → c_string b ≡ some y
    → same_string a b ≡ ok (same_text x y)
unfolding same_string same_text
same_string_lem [] b x y p q = absurd (unfold c_string in ground arith)
same_string_lem (c ∷ a) [] x y p q = absurd (unfold c_string in ground arith)
same_string_lem (c ∷ a) (d ∷ b) x y p q = elim (c_string-cons_inv c a x p) [
  | inl cz ↦ elim (c_string-cons_inv d b y q) [
    | inl dz ↦ ground arith
    | inr (v, dn, qv, ye) ↦ ground arith
  ]
  | inr (u, cn, pu, xe) ↦ elim (c_string-cons_inv d b y q) [
    | inl dz ↦ ground arith
    | inr (v, dn, qv, ye) ↦ ground (arith, same_string_lem a b u v pu qv)
  ]
]
