-- ===== src/CString.antt =====
-- Character arrays: the string that an array holds, `strcmp`, and loops that copy characters.
pub mod Compare
pub mod Copy
pub mod Text
use network_analyser_using_r.Base.{
  ℕ, zero, suc, ◌+◌, List, [], ◌∷◌, Option, none, some, Bool, true, false, ◌&&◌, ◌==◌,
  if◌then◌else◌, Bytes,
}
use network_analyser_using_r.Outcome.{Outcome, ok, fault, load, store, ◌>>=◌}
use Prim.Native.Nat.{compare, Ordering}
use mathlib.Core.Option

-- The characters before the first NUL; `none` where the array holds no NUL.
unfoldable pub c_string : Bytes → Option Bytes
c_string [] = none
c_string (c ∷ cs) = if c == 0 then some [] else Option.map (λ t. c ∷ t) (c_string cs)

-- `strcmp`, by the sign of its result. It runs to the first difference or the common NUL, and
-- faults where an array ends before.
unfoldable pub strcmp : Bytes → Bytes → Outcome Ordering
strcmp [] b = fault
strcmp (x ∷ a) [] = fault
strcmp (x ∷ a) (y ∷ b) = elim (compare x y) [
  | Ordering.lt ↦ ok Ordering.lt
  | Ordering.gt ↦ ok Ordering.gt
  | Ordering.eq ↦ if x == 0 then ok Ordering.eq else strcmp a b
]

abbrev is_zero : Ordering → Bool
is_zero Ordering.eq = true
is_zero _ = false

-- `strcmp(a, b) == 0`.
unfoldable pub same_string : Bytes → Bytes → Outcome Bool
unfolding strcmp
same_string a b = strcmp a b >>= λ o. ok (is_zero o)

-- Equality of two texts.
unfoldable pub same_text : Bytes → Bytes → Bool
same_text (c ∷ text) (d ∷ other) = c == d && same_text text other
same_text [] (d ∷ other) = false
same_text (c ∷ text) [] = false
same_text [] [] = true

-- `for (; i < i + n; i++) dst[i] = src[j++]`.
unfoldable pub copy : ℕ → ℕ → ℕ → Bytes → Bytes → Outcome Bytes
copy zero j i src dst = ok dst
copy (suc n) j i src dst =
    load src j >>= λ c. store dst i c >>= λ dst'. copy n (j + 1) (i + 1) src dst'

-- The characters before the first NUL, or all of them.
unfoldable pub until_nul : Bytes → Bytes
until_nul [] = []
until_nul (c ∷ cs) = if c == 0 then [] else c ∷ until_nul cs
