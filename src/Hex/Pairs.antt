-- ===== src/Hex/Pairs.antt =====
-- What the reader of libsplinter/src/hex.rs makes of a pair of digits, and what the writer writes for it.
use Prim.Native.Nat.{◌/◌, ◌%◌}
use splinter.Prelude.{
  ℕ, ◌+◌, ◌*◌, ◌<◌, ◌≡◌, ◌≢◌, refl, ◌∙◌, true, ◌&&◌, Option, none, some, [], ◌∷◌, Bytes, length,
  nat_beq, leb, if◌then◌else◌, nat_beq_iff, ap, sym, All, arith, map,
}
use splinter.Prelude.Exec.{ok}
use splinter.Hex.Text.{
  hex_char, to_hex, hex_digit, add_digit, scan_digits, from_str_radix, returned, is_char_boundary,
  push_front, parse_pairs, parse_hex,
}

abbrev pub IsByte : ℕ → Type 0
IsByte b = b < 256

abbrev pub IsAscii : ℕ → Type 0
IsAscii c = c < 128

-- ASCII letters in lower case
abbrev pub to_lower : ℕ → ℕ
to_lower c = if leb b'A' c && leb c b'Z' then c + 32 else c

abbrev pub IsSignless : ℕ → Type 0
IsSignless c = c ≢ b'+'

pub parse_pairs-step :
    (c d b : ℕ) (cs : Bytes)
    → is_char_boundary cs ≡ true
    → from_str_radix (c ∷ d ∷ []) ≡ some b
    → parse_pairs (c ∷ d ∷ cs) ≡ push_front b (parse_pairs cs)
unfolding parse_pairs
parse_pairs-step c d b cs e f = rw (e, parse_pairs) (rw (f, parse_pairs))

-- a pair that spells a byte, in any case
pub from_str_radix-pair :
    (c d b : ℕ)
    → IsByte b
    → to_lower c ≡ hex_char (b / 16)
    → to_lower d ≡ hex_char (b % 16)
    → from_str_radix (c ∷ d ∷ []) ≡ some b
unfolding from_str_radix
from_str_radix-pair c d b h e f = ground arith

pub hex_digit-to_lower : (c d : ℕ) → hex_digit c ≡ some d → (to_lower c ≡ hex_char d) × (d < 16)
hex_digit-to_lower c d h = ground arith

-- two digits
abbrev pub pair_value : Option ℕ → Option ℕ → Option ℕ
pair_value none y = none
pair_value (some x) none = none
pair_value (some x) (some y) = some (x * 16 + y)

pub scan_two :
    (x y : Option ℕ)
    → ((d : ℕ) → x ≡ some d → d < 16)
    → ((d : ℕ) → y ≡ some d → d < 16)
    → (elim (add_digit 0 x) [ none ↦ none | some acc ↦ add_digit acc y ]) ≡ pair_value x y
scan_two none y hx hy = refl
scan_two (some x) none hx hy = let lt = hx x refl in ground arith
scan_two (some x) (some y) hx hy = let lt = hx x refl in let lt' = hy y refl in ground arith

pub scan_digits-pair :
    (c d : ℕ) → scan_digits (c ∷ d ∷ []) 0 ≡ pair_value (hex_digit c) (hex_digit d)
unfolding scan_digits
scan_digits-pair c d =
    scan_last (add_digit 0 (hex_digit c)) (hex_digit d)
    ∙ scan_two (hex_digit c) (hex_digit d) (λ x e. (hex_digit-to_lower c x e).1)
        (λ y e. (hex_digit-to_lower d y e).1)
  where
    last : (o : Option ℕ) → (elim o [ none ↦ none | some acc ↦ some acc ]) ≡ o
    last none = refl
    last (some x) = refl

    scan_last :
        (o y : Option ℕ)
        → (elim o [
          | none ↦ none
          | some acc ↦ elim (add_digit acc y) [ none ↦ none | some acc' ↦ some acc' ]
        ])
          ≡ (elim o [ none ↦ none | some acc ↦ add_digit acc y ])
    scan_last none y = refl
    scan_last (some acc) y = last (add_digit acc y)

pub values_of :
    (x y : Option ℕ) (b : ℕ)
    → pair_value x y ≡ some b
    → (m : ℕ) × (n : ℕ) × (x ≡ some m) × (y ≡ some n) × (b ≡ m * 16 + n)
values_of none y b h = cc
values_of (some m) none b h = cc
values_of (some m) (some n) b h = (m, n, refl, refl, ground arith)

pub pair-from_str_radix :
    (c d b : ℕ)
    → IsSignless c
    → from_str_radix (c ∷ d ∷ []) ≡ some b
    → IsByte b × (to_lower c ≡ hex_char (b / 16)) × (to_lower d ≡ hex_char (b % 16))
unfolding from_str_radix
pair-from_str_radix c d b ne h =
    let e : pair_value (hex_digit c) (hex_digit d) ≡ some b =
      ground (arith, h, ne, scan_digits-pair c d) in
    let (m, n, x, y, v) = values_of (hex_digit c) (hex_digit d) b e in
    let (lower_c, m_lt) = hex_digit-to_lower c m x in
    let (lower_d, n_lt) = hex_digit-to_lower d n y in
    let high : b / 16 ≡ m = omega (arith, v, n_lt) in
    let low : b % 16 ≡ n = omega (arith, v, n_lt) in
    (
      omega (arith, v, m_lt, n_lt),
      lower_c ∙ ap hex_char (sym high),
      lower_d ∙ ap hex_char (sym low),
    )

pub lower-boundary : (c d : ℕ) → to_lower c ≡ hex_char d → d < 16 → is_char_boundary (c ∷ []) ≡ true
lower-boundary c d e h = ground arith

pub boundary-cons : (c : ℕ) (cs : Bytes) → is_char_boundary (c ∷ []) ≡ is_char_boundary (c ∷ cs)
boundary-cons c cs = refl

pub to_hex-spelled-boundary :
    (bs cs : Bytes) → All IsByte bs → to_hex bs ≡ map to_lower cs → is_char_boundary cs ≡ true
unfolding to_hex
to_hex-spelled-boundary bs [] h e = refl
to_hex-spelled-boundary [] (c ∷ cs) h e = cc
to_hex-spelled-boundary (b ∷ bs) (c ∷ cs) h e =
    lower-boundary c (b / 16) (ground (arith, e)) (let lt = h.0 in omega arith)

-- A text that spells bytes in either case reads as them.
pub parse_pairs-spelled :
    (bs s : Bytes) → All IsByte bs → to_hex bs ≡ map to_lower s → parse_pairs s ≡ returned (ok bs)
unfolding to_hex
parse_pairs-spelled [] [] h e = unfold parse_pairs in refl
parse_pairs-spelled [] (c ∷ s) h e = cc
parse_pairs-spelled (b ∷ bs) [] h e = cc
parse_pairs-spelled (b ∷ bs) (c ∷ []) h e = cc
parse_pairs-spelled (b ∷ bs) (c ∷ d ∷ s) h e =
    let rest : to_hex bs ≡ map to_lower s = cc in
    let pair = from_str_radix-pair c d b h.0 (cc) (cc) in
    parse_pairs-step c d b s (to_hex-spelled-boundary bs s h.1 rest) pair
    ∙ ap (push_front b) (parse_pairs-spelled bs s h.1 rest)

pub length-map_lower : (s : Bytes) → length (map to_lower s) ≡ length s
length-map_lower [] = refl
length-map_lower (c ∷ s) = omega (arith, length-map_lower s)

pub length-to_hex : (bs : Bytes) → length (to_hex bs) ≡ 2 * length bs
unfolding to_hex
length-to_hex [] = omega arith
length-to_hex (b ∷ bs) = omega (arith, length-to_hex bs)

pub parse_hex-spelled :
    (bs s : Bytes) → All IsByte bs → to_hex bs ≡ map to_lower s → parse_hex s ≡ returned (ok bs)
unfolding parse_hex
parse_hex-spelled bs s h e =
    let even : length s ≡ 2 * length bs =
      sym (length-map_lower s) ∙ ap length (sym e) ∙ length-to_hex bs in
    let test : nat_beq (length s % 2) 0 ≡ true =
      (nat_beq_iff (length s % 2) 0).1 (omega (arith, even)) in
    rw test (parse_pairs-spelled bs s h e)
