-- ===== src/Ethernet/Ssid.antt =====
-- The SSID of a beacon: what the two copies hold, and the fault on one that does not fit.
use network_analyser_using_r.Base.{
  ℕ, zero, suc, ◌+◌, ◌≤◌, ◌<◌, ◌≡◌, refl, arith, Bytes, [], ◌∷◌, ◌++◌, some, none, ◌⊎◌, inl, inr,
  if◌then◌else◌, ltb, length, take, drop, set, get_elem?, Option-cases, length-set, get_elem?-lt,
  length-take, length-drop, length-append, lt→ltb, le→ltb,
}
use network_analyser_using_r.Outcome.{ok, fault, >>=-fault, Checked}
use network_analyser_using_r.CString.{copy, until_nul}
use network_analyser_using_r.CString.Copy.{copy_lem, store-drop}
use network_analyser_using_r.CString.Text.{c_string-append_nul}
use network_analyser_using_r.State.{max_ssid_char_count}
use network_analyser_using_r.State.Slots.{IsText}
use network_analyser_using_r.Ethernet.{fill_ssid, read_ssid, tag_length, ssid_start}

-- The loop makes the two copies side by side.
fill_ssid-copy :
    (n i : ℕ) (packet a b a' b' : Bytes)
    → copy n (ssid_start + i) i packet a ≡ ok a'
    → copy n (ssid_start + i) i packet b ≡ ok b'
    → fill_ssid n i packet a b ≡ ok (a', b')
unfolding copy fill_ssid
fill_ssid-copy zero i packet a b a' b' h k = ground arith
fill_ssid-copy (suc n) i packet a b a' b' h k =
    step (fill_ssid-copy n (i + 1) packet) (Option-cases (get_elem? packet (ssid_start + i)))
  where
    step :
        ((a b a' b' : Bytes)
          → copy n (ssid_start + (i + 1)) (i + 1) packet a ≡ ok a'
          → copy n (ssid_start + (i + 1)) (i + 1) packet b ≡ ok b'
          → fill_ssid n (i + 1) packet a b ≡ ok (a', b'))
        → (get_elem? packet (ssid_start + i) ≡ none)
          ⊎ ((c : ℕ) × (get_elem? packet (ssid_start + i) ≡ some c))
        → fill_ssid (suc n) i packet a b ≡ ok (a', b')
    step ih (inl outside) = ground arith
    step ih (inr (c, found)) = ground (arith, found, ih (set a i c) (set b i c) a' b')

-- The array after the SSID of `len` bytes and its NUL are written over `old`.
abbrev pub ssid_cells : ℕ → Bytes → Bytes → Bytes
ssid_cells len packet old = take len (drop ssid_start packet) ++ (0 ∷ drop (len + 1) old)

abbrev slice : ℕ → Bytes → Bytes
slice len packet = take len (drop ssid_start packet)

filled :
    (len : ℕ) (packet a b : Bytes)
    → ssid_start + len ≤ length packet
    → len ≤ length a
    → len ≤ length b
    → (if ltb 0 len then fill_ssid len 0 packet a b else ok (a, b))
      ≡ ok (slice len packet ++ drop len a, slice len packet ++ drop len b)
filled zero packet a b fits ha hb = refl
filled (suc n) packet a b fits ha hb = rw (lt→ltb 0 (suc n) (omega arith)) (
    fill_ssid-copy (suc n) 0 packet a b _ _ (copy_lem (suc n) ssid_start 0 packet [] a refl fits ha)
      (copy_lem (suc n) ssid_start 0 packet [] b refl fits hb))

-- An SSID of fewer than 15 bytes is copied whole and terminated, in both arrays.
pub read_ssid_lem :
    (packet a b : Bytes) (len : ℕ)
    → get_elem? packet tag_length ≡ some len
    → len < max_ssid_char_count
    → ssid_start + len ≤ length packet
    → length a ≡ max_ssid_char_count
    → length b ≡ max_ssid_char_count
    → read_ssid packet a b ≡ ok (ssid_cells len packet a, ssid_cells len packet b)
unfolding read_ssid
read_ssid_lem packet a b len found short fits la lb =
    let size : length (slice len packet) ≡ len =
      length-take len (drop ssid_start packet) (omega (arith, length-drop ssid_start packet)) in
    rw (
      found,
      filled len packet a b fits (omega arith) (omega arith),
      lt→ltb len max_ssid_char_count short,
      store-drop (slice len packet) a len 0 size (omega arith),
      store-drop (slice len packet) b len 0 size (omega arith),
    )

-- The loop returns only if the SSID ends inside the array, whose size it keeps, and inside the
-- packet.
pub fill_ssid-Checked :
    (n i : ℕ) (packet a b : Bytes)
    → i ≤ length a
    → ssid_start + i ≤ length packet
    → Checked
        (λ r. (length r.0 ≡ length a) × (i + n ≤ length a) × (ssid_start + (i + n) ≤ length packet))
        (fill_ssid n i packet a b)
unfolding fill_ssid
fill_ssid-Checked zero i packet a b h l = omega arith
fill_ssid-Checked (suc n) i packet a b h l = step (fill_ssid-Checked n (i + 1) packet)
  where
    step :
        ((a b : Bytes)
          → i + 1 ≤ length a
          → ssid_start + (i + 1) ≤ length packet
          → Checked
              (λ r.
                (length r.0 ≡ length a)
                × (i + 1 + n ≤ length a)
                × (ssid_start + (i + 1 + n) ≤ length packet))
              (fill_ssid n (i + 1) packet a b))
        → Checked
            (λ r.
              (length r.0 ≡ length a)
              × (i + suc n ≤ length a)
              × (ssid_start + (i + suc n) ≤ length packet))
            (fill_ssid (suc n) i packet a b)
    step ih = elim (Option-cases (get_elem? packet (ssid_start + i))) [
      | inl outside ↦ ground arith
      | inr (c, found) ↦ ground (
        arith,
        found,
        length-set a i c,
        get_elem?-lt packet (ssid_start + i) found,
        ih (set a i c) (set b i c),
      )
    ]

-- An SSID of 15 bytes or more makes the code write outside the arrays, whatever the packet holds.
pub read_ssid-fault :
    (packet a b : Bytes) (len : ℕ)
    → get_elem? packet tag_length ≡ some len
    → max_ssid_char_count ≤ len
    → length a ≡ max_ssid_char_count
    → read_ssid packet a b ≡ fault
unfolding read_ssid
read_ssid-fault packet a b len found long la =
    rw (found, lt→ltb 0 len (omega arith), le→ltb len max_ssid_char_count long)
      (>>=-fault _ (fill_ssid len 0 packet a b) _
        (fill_ssid-Checked len 0 packet a b (omega arith) (get_elem?-lt packet tag_length found))
        (λ r h. ground arith))

-- The array after a short SSID holds it as a string.
pub ssid_cells-IsText :
    (packet old : Bytes) (len : ℕ)
    → len < max_ssid_char_count
    → ssid_start + len ≤ length packet
    → length old ≡ max_ssid_char_count
    → IsText max_ssid_char_count (ssid_cells len packet old)
ssid_cells-IsText packet old len short fits size = record {
  size = omega (
    arith,
    length-append (slice len packet) (0 ∷ drop (len + 1) old),
    length-take len (drop ssid_start packet) (omega (arith, length-drop ssid_start packet)),
    length-drop (len + 1) old,
  );
  text = until_nul (slice len packet);
  reads = c_string-append_nul (slice len packet) (drop (len + 1) old);
}

-- An SSID that the packet does not hold whole makes the code read behind the packet.
pub read_ssid_truncated :
    (packet a b : Bytes) (len : ℕ)
    → get_elem? packet tag_length ≡ some len
    → length packet < ssid_start + len
    → read_ssid packet a b ≡ fault
unfolding read_ssid
read_ssid_truncated packet a b len found truncated =
    rw (found, lt→ltb 0 len (omega (arith, get_elem?-lt packet tag_length found)))
      (>>=-fault _ (fill_ssid len 0 packet a b) _
        (fill_ssid-Checked len 0 packet a b (omega arith) (get_elem?-lt packet tag_length found))
        (λ r h. absurd (omega arith)))
