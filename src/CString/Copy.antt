-- ===== src/CString/Copy.antt =====
-- What `copy` leaves in the target, and the text of an array that begins with a copied text.
use network_analyser_using_r.Base.{
  ℕ, zero, suc, ◌+◌, ◌≤◌, ◌<◌, [], ◌∷◌, ◌++◌, some, ◌≡◌, refl, arith, ap, sym, ◌∙◌, Bytes, length,
  take, drop, set, get_elem?, get_elem?-some, drop-get_elem?, set-append, length-append,
  Option-cases, length-set, inl, inr,
}
use network_analyser_using_r.Outcome.{ok, fault, store}
use network_analyser_using_r.CString.{copy}
use mathlib.Core.List.{append_assoc}

pub store_front :
    (pre : Bytes) (d : ℕ) (ds : Bytes) (c i : ℕ)
    → i ≡ length pre
    → store (pre ++ (d ∷ ds)) i c ≡ ok (pre ++ (c ∷ ds))
store_front pre d ds c i e =
    ground (arith, length-append pre (d ∷ ds), set-append pre d ds c, ap (set (pre ++ (d ∷ ds))) e)

copy-suc :
    (n j i : ℕ) (src pre : Bytes) (d : ℕ) (ds : Bytes) (c : ℕ)
    → i ≡ length pre
    → get_elem? src j ≡ some c
    → copy (suc n) j i src (pre ++ (d ∷ ds)) ≡ copy n (j + 1) (i + 1) src (pre ++ (c ∷ ds))
unfolding copy
copy-suc n j i src pre d ds c e found = ground (arith, store_front pre d ds c i e)

-- Within bounds, the loop replaces the next `n` cells of the target by those of the source.
pub copy_lem :
    (n j i : ℕ) (src pre dst : Bytes)
    → i ≡ length pre
    → j + n ≤ length src
    → n ≤ length dst
    → copy n j i src (pre ++ dst) ≡ ok (pre ++ (take n (drop j src) ++ drop n dst))
copy_lem zero j i src pre dst e hs hd = unfold copy in refl
copy_lem (suc n) j i src pre [] e hs hd = absurd (omega arith)
copy_lem (suc n) j i src pre (d ∷ dst) e hs hd =
    step (copy_lem n (j + 1) (i + 1) src) (get_elem?-some src j (omega arith))
  where
    step :
        ((pre' dst' : Bytes)
          → i + 1 ≡ length pre'
          → j + 1 + n ≤ length src
          → n ≤ length dst'
          → copy n (j + 1) (i + 1) src (pre' ++ dst')
            ≡ ok (pre' ++ (take n (drop (j + 1) src) ++ drop n dst')))
        → (c : ℕ) × (get_elem? src j ≡ some c)
        → copy (suc n) j i src (pre ++ (d ∷ dst))
          ≡ ok (pre ++ (take (suc n) (drop j src) ++ drop n dst))
    step ih (c, found) =
        copy-suc n j i src pre d dst c e found
        ∙ simp append_assoc at (
            ih (pre ++ (c ∷ [])) dst (omega (arith, e, length-append pre (c ∷ []))) (omega arith)
              (omega arith))
        ∙ rw (drop-get_elem? j src found)

-- A loop that would write behind the end of the target faults, whatever the source holds.
pub copy-fault :
    (n j i : ℕ) (src dst : Bytes) → i ≤ length dst → length dst < i + n → copy n j i src dst ≡ fault
unfolding copy
copy-fault zero j i src dst le h = absurd (omega arith)
copy-fault (suc n) j i src dst le h = step (copy-fault n (j + 1) (i + 1) src)
  where
    step :
        ((dst' : Bytes)
          → i + 1 ≤ length dst'
          → length dst' < i + 1 + n
          → copy n (j + 1) (i + 1) src dst' ≡ fault)
        → copy (suc n) j i src dst ≡ fault
    step ih = elim (Option-cases (get_elem? src j)) [
      | inl outside ↦ ground arith
      | inr (c, found) ↦ ground (arith, found, ih (set dst i c), length-set dst i c)
    ]

-- A store just behind a front of `len` cells.
pub store-drop :
    (xs old : Bytes) (len c : ℕ)
    → length xs ≡ len
    → len < length old
    → store (xs ++ drop len old) len c ≡ ok (xs ++ (c ∷ drop (len + 1) old))
store-drop xs old len c e h = step (get_elem?-some old len h)
  where
    step :
        (d : ℕ) × (get_elem? old len ≡ some d)
        → store (xs ++ drop len old) len c ≡ ok (xs ++ (c ∷ drop (len + 1) old))
    step (d, found) =
        rw (drop-get_elem? len old found) (store_front xs d (drop (len + 1) old) c len (sym e))
