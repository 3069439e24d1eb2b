-- ===== src/Ethernet/Address.antt =====
-- The three addresses: 17 characters of the text of `ether_ntoa` and a NUL.
use network_analyser_using_r.Base.{
  ℕ, ◌+◌, ◌≤◌, ◌≡◌, refl, ap, ◌∙◌, arith, Bytes, [], ◌∷◌, ◌++◌, some, length, take, drop,
  length-take, length-drop, length-append, le→ltb,
}
use network_analyser_using_r.Outcome.{ok}
use network_analyser_using_r.CString.{c_string}
use network_analyser_using_r.CString.Copy.{copy_lem, store-drop}
use network_analyser_using_r.CString.Text.{c_string-append_nul, until_nul-take}
use network_analyser_using_r.State.{Platform, IsPlatform}
use network_analyser_using_r.State.Slots.{IsText}
use network_analyser_using_r.Ethernet.{copy_address}

-- The six bytes of an address, and a field after the text of `ether_ntoa` is written over it.
abbrev pub mac_at : Bytes → ℕ → Bytes
mac_at packet offset = take 6 (drop offset packet)

abbrev pub address_cells : Bytes → Bytes → Bytes
address_cells addr_ptr field = take 17 addr_ptr ++ (0 ∷ drop 18 field)

pub length-mac_at :
    (packet : Bytes) (offset : ℕ) → offset + 6 ≤ length packet → length (mac_at packet offset) ≡ 6
length-mac_at packet offset h =
    length-take 6 (drop offset packet) (omega (arith, length-drop offset packet))

module _ (p : Platform) (documented : IsPlatform p) (packet ntoa_buffer field : Bytes) (offset : ℕ)
    (fits : offset + 6 ≤ length packet) (size : length field ≡ 18) where
  abbrev addr_ptr : Bytes
  addr_ptr = p.ether_ntoa (mac_at packet offset) ntoa_buffer

  addr_ptr_size : length addr_ptr ≡ 18
  addr_ptr_size =
      documented.ntoa_length (mac_at packet offset) ntoa_buffer (length-mac_at packet offset fits)

  pub copy_address_lem :
      copy_address p packet offset ntoa_buffer field ≡ ok (addr_ptr, address_cells addr_ptr field)
  unfolding copy_address
  copy_address_lem = rw (
    le→ltb (length packet) (offset + 6) fits,
    copy_lem 17 0 0 addr_ptr [] field refl (omega (arith, addr_ptr_size)) (omega arith),
    store-drop (take 17 addr_ptr) field 17 0
        (length-take 17 addr_ptr (omega (arith, addr_ptr_size))) (omega arith),
  )

  -- The field holds the text of the address, whatever the static buffer held before.
  pub address_cells-text :
      c_string (address_cells addr_ptr field)
      ≡ some (documented.address_text (mac_at packet offset))
  address_cells-text =
      c_string-append_nul (take 17 addr_ptr) (drop 18 field)
      ∙ ap some (
          until_nul-take 17 addr_ptr
            (documented.ntoa_text (mac_at packet offset) ntoa_buffer
              (length-mac_at packet offset fits))
            (omega (arith, addr_ptr_size)))

  pub address_cells-IsText : IsText 18 (address_cells addr_ptr field)
  address_cells-IsText = record {
    size = omega (
      arith,
      length-append (take 17 addr_ptr) (0 ∷ drop 18 field),
      length-take 17 addr_ptr (omega (arith, addr_ptr_size)),
      length-drop 18 field,
    );
    text = documented.address_text (mac_at packet offset);
    reads = address_cells-text;
  }
