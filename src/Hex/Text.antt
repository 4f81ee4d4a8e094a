-- ===== src/Hex/Text.antt =====
-- `to_hex` and `parse_hex` of libsplinter/src/hex.rs. A text is the list of its UTF-8 bytes; `panicked`
-- stands for a slice that cuts a character or ends behind the text.
use Prim.Native.Nat.{◌/◌, ◌%◌}
use splinter.Prelude.{
  ℕ, ◌+◌, ◌-◌, ◌*◌, Bool, true, false, ◌&&◌, ◌||◌, Option, none, some, [], ◌∷◌, Bytes, length,
  nat_beq, ltb, leb, if◌then◌else◌,
}
use splinter.Prelude.Exec.{Result, ok, err}

-- `{:x}` of a number below 16
abbrev pub hex_char : ℕ → ℕ
hex_char d = if ltb d 10 then b'0' + d else 87 + d

unfoldable pub to_hex : Bytes → Bytes
to_hex [] = []
to_hex (b ∷ bs) = hex_char (b / 16) ∷ hex_char (b % 16) ∷ to_hex bs

-- `char::to_digit(16)`
abbrev pub hex_digit : ℕ → Option ℕ
hex_digit c =
    if leb b'0' c && leb c b'9'
    then some (c - b'0')
    else if leb b'a' c && leb c b'f'
    then some (c - 87)
    else if leb b'A' c && leb c b'F'
    then some (c - 55)
    else none

-- the digits of a `u8`, with its checked arithmetic
abbrev pub add_digit : ℕ → Option ℕ → Option ℕ
add_digit acc none = none
add_digit acc (some d) = if ltb (acc * 16 + d) 256 then some (acc * 16 + d) else none

unfoldable pub scan_digits : Bytes → ℕ → Option ℕ
scan_digits [] acc = some acc
scan_digits (c ∷ cs) acc = elim (add_digit acc (hex_digit c)) [
  | none ↦ none
  | some acc' ↦ scan_digits cs acc'
]

-- `u8::from_str_radix(src, 16)`: digits behind an optional plus sign
unfoldable pub from_str_radix : Bytes → Option ℕ
unfolding scan_digits
from_str_radix [] = none
from_str_radix (c ∷ []) = scan_digits (c ∷ []) 0
from_str_radix (c ∷ d ∷ cs) =
    if nat_beq c b'+' then scan_digits (d ∷ cs) 0 else scan_digits (c ∷ d ∷ cs) 0

pub data HexError : Type 0 where
  odd_digits invalid_hex : HexError

pub data HexOutcome : Type 0 where
  returned : Result HexError Bytes → HexOutcome
  panicked : HexOutcome

-- whether a character starts here
abbrev pub is_char_boundary : Bytes → Bool
is_char_boundary [] = true
is_char_boundary (c ∷ cs) = ltb c 128 || leb 192 c

abbrev pub push_front : ℕ → HexOutcome → HexOutcome
push_front b (returned (ok bs)) = returned (ok (b ∷ bs))
push_front b (returned (err e)) = returned (err e)
push_front b panicked = panicked

-- the loop, two bytes at a time
unfoldable pub parse_pairs : Bytes → HexOutcome
unfolding from_str_radix
parse_pairs [] = returned (ok [])
parse_pairs (c ∷ []) = panicked
parse_pairs (c ∷ d ∷ cs) = elim (is_char_boundary cs) [
  | false ↦ panicked
  | true ↦ elim (from_str_radix (c ∷ d ∷ [])) [
    | none ↦ returned (err invalid_hex)
    | some b ↦ push_front b (parse_pairs cs)
  ]
]

unfoldable pub parse_hex : Bytes → HexOutcome
unfolding parse_pairs
parse_hex hex = if nat_beq (length hex % 2) 0 then parse_pairs hex else returned (err odd_digits)
