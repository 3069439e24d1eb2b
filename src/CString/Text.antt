-- ===== src/CString/Text.antt =====
-- The text of an array: it is what stands before the first NUL.
use network_analyser_using_r.Base.{
  ℕ, zero, suc, ◌+◌, ◌≤◌, [], ◌∷◌, ◌++◌, some, ◌≡◌, refl, arith, Bytes, inl, inr, length, take, ap,
}
use network_analyser_using_r.CString.{c_string, until_nul}
use network_analyser_using_r.CString.Compare.{c_string-cons_inv}

pub c_string-until_nul : (a : Bytes) {t : Bytes} → c_string a ≡ some t → t ≡ until_nul a
unfolding until_nul
c_string-until_nul [] h = absurd (unfold c_string in ground arith)
c_string-until_nul (c ∷ cs) {t} h = elim (c_string-cons_inv c cs t h) [
  | inl z ↦ ground arith
  | inr (u, n, e, te) ↦ ground (arith, c_string-until_nul cs e)
]

pub c_string-append_nul : (xs ys : Bytes) → c_string (xs ++ (0 ∷ ys)) ≡ some (until_nul xs)
unfolding c_string until_nul
c_string-append_nul [] ys = refl
c_string-append_nul (x ∷ xs) ys = ground (arith, c_string-append_nul xs ys)

-- The text of an array survives when all but its last cell are copied.
pub until_nul-take :
    (n : ℕ) (a : Bytes) {t : Bytes}
    → c_string a ≡ some t
    → length a ≤ n + 1
    → until_nul (take n a) ≡ t
unfolding until_nul
until_nul-take n [] h le = absurd (unfold c_string in ground arith)
until_nul-take zero (c ∷ []) {t} h le = elim (c_string-cons_inv c [] t h) [
  | inl z ↦ ground arith
  | inr (u, n, e, te) ↦ absurd (unfold c_string in ground arith)
]
until_nul-take zero (c ∷ d ∷ cs) h le = absurd (omega arith)
until_nul-take (suc n) (c ∷ cs) {t} h le = elim (c_string-cons_inv c cs t h) [
  | inl z ↦ ground arith
  | inr (u, ne, e, te) ↦ ground (arith, until_nul-take n cs e (omega arith))
]

-- A text is no longer than the array without its NUL.
pub length-c_string : (a : Bytes) {t : Bytes} → c_string a ≡ some t → length t + 1 ≤ length a
length-c_string [] h = absurd (unfold c_string in ground arith)
length-c_string (c ∷ cs) {t} h = elim (c_string-cons_inv c cs t h) [
  | inl z ↦ omega (arith, ap length z.1)
  | inr (u, ne, e, te) ↦ omega (arith, ap length te, length-c_string cs e)
]
