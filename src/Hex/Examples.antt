-- ===== src/Hex/Examples.antt =====
-- Bytes in base 16 at concrete texts.
use splinter.Prelude.{ℕ, ◌≡◌, ◌≢◌, ◌↔◌, refl, [], ◌∷◌, Bytes, length, All, map, arith}
use Prim.Native.Nat.{◌%◌}
use splinter.Prelude.Exec.{ok, err}
use splinter.Hex.Text.{to_hex, parse_hex, returned, panicked, odd_digits}
use splinter.Hex.Pairs.{IsByte, to_lower}
use splinter.Hex.RoundTrip.{parse_hex-to_hex, parse_hex_iff, parse_hex-IsAscii}

parse_hex-to_hex_example :
    parse_hex (to_hex (0 ∷ 175 ∷ 255 ∷ [])) ≡ returned (ok (0 ∷ 175 ∷ 255 ∷ []))
parse_hex-to_hex_example = parse_hex-to_hex (0 ∷ 175 ∷ 255 ∷ []) (omega arith)

-- "1aFf"
abbrev sample_text : Bytes
sample_text = b'1' ∷ b'a' ∷ b'F' ∷ b'f' ∷ []

parse_hex_iff_example :
    (parse_hex sample_text ≡ returned (ok (26 ∷ 255 ∷ [])))
    ↔ (All IsByte (26 ∷ 255 ∷ []) × (to_hex (26 ∷ 255 ∷ []) ≡ map to_lower sample_text))
parse_hex_iff_example = parse_hex_iff sample_text (26 ∷ 255 ∷ []) (omega arith)

parse_hex-IsAscii_example :
    (parse_hex (b'1' ∷ []) ≢ panicked)
    × (length {A = ℕ} (b'1' ∷ []) % 2 ≡ 1 → parse_hex (b'1' ∷ []) ≡ returned (err odd_digits))
parse_hex-IsAscii_example = parse_hex-IsAscii (b'1' ∷ []) (omega arith)

-- A sign is read as part of a byte: "+f".
sign_reads : parse_hex (b'+' ∷ b'f' ∷ []) ≡ returned (ok (15 ∷ []))
unfolding parse_hex
sign_reads = refl

-- "aé" with a byte before: a character is cut, and the slice panics.
cut_character : parse_hex (b'a' ∷ 195 ∷ 169 ∷ b'a' ∷ []) ≡ panicked
unfolding parse_hex
cut_character = refl
