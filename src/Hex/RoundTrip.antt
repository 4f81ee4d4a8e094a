-- ===== src/Hex/RoundTrip.antt =====
-- Writing and reading bytes in base 16, libsplinter/src/hex.rs.
use Prim.Native.Nat.{◌/◌, ◌%◌}
use splinter.Prelude.{
  ℕ, ◌≡◌, ◌≢◌, ◌↔◌, refl, ◌∙◌, Bool, true, false, none, some, [], ◌∷◌, Bytes, length, nat_beq,
  if◌then◌else◌, Option-cases, Bool-cases, nat_beq_iff, sym, inl, inr, All, arith, map,
}
use splinter.Prelude.Exec.{ok, err}
use splinter.Hex.Text.{
  hex_char, to_hex, from_str_radix, HexOutcome, returned, panicked, is_char_boundary, push_front,
  parse_pairs, parse_hex, odd_digits, invalid_hex,
}
use splinter.Hex.Pairs.{
  IsByte, IsAscii, to_lower, IsSignless, parse_pairs-step, pair-from_str_radix, parse_hex-spelled,
}

-- what a step of the loop that ends well has done
push_front-ok :
    (b : ℕ) (o : HexOutcome) (bs : Bytes)
    → push_front b o ≡ returned (ok bs)
    → (rest : Bytes) × (o ≡ returned (ok rest)) × (bs ≡ b ∷ rest)
push_front-ok b (returned (ok rest)) bs h = (rest, refl, ground arith)
push_front-ok b (returned (err e)) bs h = cc
push_front-ok b panicked bs h = cc

invalid-step :
    (c d : ℕ) (s : Bytes)
    → is_char_boundary s ≡ true
    → from_str_radix (c ∷ d ∷ []) ≡ none
    → parse_pairs (c ∷ d ∷ s) ≡ returned (err invalid_hex)
unfolding parse_pairs
invalid-step c d s e f = rw (e, parse_pairs) (rw (f, parse_pairs))

cut-step : (c d : ℕ) (s : Bytes) → is_char_boundary s ≡ false → parse_pairs (c ∷ d ∷ s) ≡ panicked
unfolding parse_pairs
cut-step c d s e = rw (e, parse_pairs)

step-ok :
    (c d : ℕ) (s bs : Bytes)
    → parse_pairs (c ∷ d ∷ s) ≡ returned (ok bs)
    → (b : ℕ) × (from_str_radix (c ∷ d ∷ []) ≡ some b)
      × (push_front b (parse_pairs s) ≡ returned (ok bs))
step-ok c d s bs h = elim (Bool-cases (is_char_boundary s)) [
  | inl e ↦ elim (Option-cases (from_str_radix (c ∷ d ∷ []))) [
    | inl f ↦ cc (invalid-step c d s e f, h)
    | inr (b, f) ↦ (b, f, sym (parse_pairs-step c d b s e f) ∙ h)
  ]
  | inr e ↦ cc (cut-step c d s e, h)
]

parse_pairs_sound :
    (s bs : Bytes)
    → All IsSignless s
    → parse_pairs s ≡ returned (ok bs)
    → All IsByte bs × (to_hex bs ≡ map to_lower s)
unfolding to_hex parse_pairs
parse_pairs_sound [] bs n h = let e : [] ≡ bs = ground (arith, h) in rw (← e) (tt, refl)
parse_pairs_sound (c ∷ []) bs n h = cc
parse_pairs_sound (c ∷ d ∷ s) bs n h =
    let (b, f, g) = step-ok c d s bs h in
    let (rest, r, e) = push_front-ok b (parse_pairs s) bs g in
    let (byte, high, low) = pair-from_str_radix c d b n.0 f in
    let (bytes, spelled) = parse_pairs_sound s rest (n.1.1) r in
    rw e ((byte, bytes), cc (high, low, spelled))

odd_reads :
    {A : Type 0} {test : Bool} {bs : Bytes} (o : HexOutcome)
    → test ≡ false
    → (if test then o else returned (err odd_digits)) ≡ returned (ok bs)
    → A
odd_reads o e h = cc

-- A text without signs reads as bytes exactly when they spell it, in either case of the letters.
pub parse_hex_iff :
    (s bs : Bytes)
    → All IsSignless s
    → (parse_hex s ≡ returned (ok bs)) ↔ (All IsByte bs × (to_hex bs ≡ map to_lower s))
unfolding parse_hex
parse_hex_iff s bs n = (
  (λ h. elim (Bool-cases (nat_beq (length s % 2) 0)) [
    | inl e ↦ parse_pairs_sound s bs n (ground (arith, h, e))
    | inr e ↦ odd_reads (parse_pairs s) e h
  ]),
  (λ h. parse_hex-spelled bs s h.0 h.1),
)

boundary-IsAscii : (s : Bytes) → All IsAscii s → is_char_boundary s ≡ true
boundary-IsAscii [] a = refl
boundary-IsAscii (c ∷ s) a = let lt = a.0 in ground arith

push_front-ne-panicked : (b : ℕ) (o : HexOutcome) → o ≢ panicked → push_front b o ≢ panicked
push_front-ne-panicked b (returned (ok bs)) n h = cc
push_front-ne-panicked b (returned (err e)) n h = cc
push_front-ne-panicked b panicked n h = n refl

parse_pairs-IsAscii : (s : Bytes) → All IsAscii s → length s % 2 ≡ 0 → parse_pairs s ≢ panicked
unfolding parse_pairs
parse_pairs-IsAscii [] a e h = cc
parse_pairs-IsAscii (c ∷ []) a e h = absurd (omega (arith, e))
parse_pairs-IsAscii (c ∷ d ∷ s) a e h =
    let rest = parse_pairs-IsAscii s a.1.1 (omega (arith, e)) in
    let start = boundary-IsAscii s a.1.1 in
    elim (Option-cases (from_str_radix (c ∷ d ∷ []))) [
      | inl f ↦ cc (invalid-step c d s start f, h)
      | inr (b, f) ↦
          push_front-ne-panicked b (parse_pairs s) rest (sym (parse_pairs-step c d b s start f) ∙ h)
    ]

-- An ASCII text never makes the reader panic, and one of odd length is refused.
pub parse_hex-IsAscii :
    (s : Bytes)
    → All IsAscii s
    → (parse_hex s ≢ panicked) × (length s % 2 ≡ 1 → parse_hex s ≡ returned (err odd_digits))
unfolding parse_hex
parse_hex-IsAscii s a = (
  (λ h. elim (Bool-cases (nat_beq (length s % 2) 0)) [
    | inl e ↦ parse_pairs-IsAscii s a ((nat_beq_iff (length s % 2) 0).0 e) (rw e at h)
    | inr e ↦ ground (arith, h, e)
  ]),
  (λ odd. let e : nat_beq (length s % 2) 0 ≡ false = ground arith in rw e),
)

lower-to_hex : (bs : Bytes) → All IsByte bs → to_hex bs ≡ map to_lower (to_hex bs)
unfolding to_hex
lower-to_hex [] h = refl
lower-to_hex (b ∷ bs) h =
    let lt = h.0 in
    let high : hex_char (b / 16) ≡ to_lower (hex_char (b / 16)) = ground arith in
    let low : hex_char (b % 16) ≡ to_lower (hex_char (b % 16)) = ground arith in
    cc (high, low, lower-to_hex bs h.1)

-- Reading what was written for bytes gives them back.
pub parse_hex-to_hex : (bs : Bytes) → All IsByte bs → parse_hex (to_hex bs) ≡ returned (ok bs)
parse_hex-to_hex bs h = parse_hex-spelled bs (to_hex bs) h (lower-to_hex bs h)
