-- ===== src/Tests/Machine.antt =====
-- A concrete machine, and two radiotap libraries for it.
use network_analyser_using_r.Base.{
  ℕ, ◌+◌, ◌*◌, ◌/◌, ◌%◌, ◌≡◌, refl, arith, false, Bytes, ◌++◌, List, [], ◌∷◌, Option, none, some,
  if◌then◌else◌, ltb, length, replicate, ℤ, pos, negsuc,
}
use network_analyser_using_r.CString.{until_nul}
use network_analyser_using_r.CString.Text.{c_string-append_nul}
use network_analyser_using_r.State.{RadiotapParser, Platform, IsPlatform}
use network_analyser_using_r.Radiotap.Loop.{Field}

-- A parser that reports the rate, the channel, the power and the antenna at fixed offsets. The
-- iterator is the list of the fields from the last one that it gave.
abbrev pub some_fields : List Field
some_fields = (pos 2, some 9) ∷ (pos 3, some 10) ∷ (pos 5, some 14) ∷ (pos 11, some 16) ∷ []

abbrev next_field : List Field → ℤ × List Field
next_field [] = (negsuc 0, [])
next_field (f ∷ []) = (negsuc 0, f ∷ [])
next_field (f ∷ g ∷ fs) = (pos 0, g ∷ fs)

abbrev field_index : List Field → ℤ
field_index [] = pos 0
field_index (f ∷ fs) = f.0

abbrev field_arg : List Field → Option ℕ
field_arg [] = none
field_arg (f ∷ fs) = f.1

abbrev some_parser : RadiotapParser
some_parser = record {
  Iterator = List Field;
  stack = [];
  init = λ it packet len. (pos 0, (pos 0, none) ∷ some_fields);
  next = λ packet it. next_field it;
  this_arg_index = field_index;
  this_arg = field_arg;
}

-- A parser that reports -EINVAL (-22) again and again.
abbrev stuck_parser : RadiotapParser
stuck_parser = record {
  Iterator = ℕ;
  stack = 0;
  init = λ it packet len. (negsuc 21, 0);
  next = λ packet it. (negsuc 21, it);
  this_arg_index = λ it. pos 0;
  this_arg = λ it. none;
}

abbrev pub hex_digit : ℕ → ℕ
hex_digit n = if ltb n 10 then 48 + n else 87 + n

abbrev hex_byte : ℕ → Bytes
hex_byte n = hex_digit (n / 16 % 16) ∷ hex_digit (n % 16) ∷ []

abbrev pub mac_text : Bytes → Bytes
mac_text (a ∷ b ∷ c ∷ d ∷ e ∷ f ∷ []) =
    hex_byte a
    ++ (58
        ∷ (hex_byte b
            ++ (58
                ∷ (hex_byte c ++ (58 ∷ (hex_byte d ++ (58 ∷ (hex_byte e ++ (58 ∷ hex_byte f)))))))))
mac_text _ = replicate 17 48

-- A little-endian machine with an unsigned `char`.
abbrev machine : RadiotapParser → Platform
machine rt = record {
  load_u16 = λ a b. a + 256 * b;
  ntohs = λ n. n % 256 * 256 + n / 256;
  char_is_signed = false;
  ether_ntoa = λ mac old. mac_text mac ++ (0 ∷ []);
  ssid_stack = replicate 15 0;
  radiotap = rt;
}

abbrev pub some_platform : Platform
some_platform = machine some_parser

abbrev pub stuck_platform : Platform
stuck_platform = machine stuck_parser

pub length-mac_text : (mac : Bytes) → length (mac_text mac ++ (0 ∷ [])) ≡ 18
length-mac_text [] = refl
length-mac_text (a ∷ []) = refl
length-mac_text (a ∷ b ∷ []) = refl
length-mac_text (a ∷ b ∷ c ∷ []) = refl
length-mac_text (a ∷ b ∷ c ∷ d ∷ []) = refl
length-mac_text (a ∷ b ∷ c ∷ d ∷ e ∷ []) = refl
length-mac_text (a ∷ b ∷ c ∷ d ∷ e ∷ f ∷ []) = refl
length-mac_text (a ∷ b ∷ c ∷ d ∷ e ∷ f ∷ g ∷ mac) = refl

abbrev pub some_platform-IsPlatform : IsPlatform some_platform
some_platform-IsPlatform = record {
  ntohs-load_u16 = λ a b ha hb. omega arith;
  load_u16-lt = λ a b ha hb. omega arith;
  address_text = λ mac. until_nul (mac_text mac);
  ntoa_length = λ mac old h. length-mac_text mac;
  ntoa_text = λ mac old h. c_string-append_nul (mac_text mac) [];
  ssid_stack_length = refl;
}
