-- ===== src/Restore/Journal/Digests.antt =====
-- A digest that crates/restore/src/journal.rs writes in hexadecimal is the one that is read back.
use undelete_master.Base.{
  ℕ, ◌+◌, ◌*◌, ◌/◌, ◌%◌, ◌<◌, ◌≡◌, refl, true, false, some, List, [], ◌∷◌, length, All, ◌==◌, ok,
  arith,
}
use undelete_master.Base.Words.{IsByte}
use undelete_master.Restore.Texts.{hex_digit, hex_lower}
use undelete_master.Restore.Hashes.{
  is_continuation, starts_inside, digit, pair_value, from_str_radix, decode_pairs, decode_hash,
}

digit-hex_digit : (d : ℕ) → d < 16 → digit (hex_digit d) ≡ some d
unfolding digit hex_digit
digit-hex_digit d h = ground arith

hex_digit_plain :
    (d : ℕ) → d < 16 → (is_continuation (hex_digit d) ≡ false) × ((hex_digit d == b'+') ≡ false)
unfolding hex_digit is_continuation
hex_digit_plain d h = (ground arith, ground arith)

starts_inside-hex_lower :
    (bytes : List ℕ) → All IsByte bytes → starts_inside (hex_lower bytes) ≡ false
unfolding starts_inside hex_lower
starts_inside-hex_lower [] h = refl
starts_inside-hex_lower (b ∷ bytes) (h, _) = (hex_digit_plain (b / 16) (omega arith)).0

decode_pairs-hex_lower :
    (bytes : List ℕ) → All IsByte bytes → decode_pairs (hex_lower bytes) ≡ ok bytes
unfolding decode_pairs hex_lower from_str_radix pair_value
decode_pairs-hex_lower [] h = refl
decode_pairs-hex_lower (b ∷ bytes) (h, hs) =
    let high = hex_digit_plain (b / 16) (omega arith) in
    let whole : 16 * (b / 16) + b % 16 ≡ b = omega arith in
    rw
      (
        high.0,
        high.1,
        starts_inside-hex_lower bytes hs,
        digit-hex_digit (b / 16) (omega arith),
        digit-hex_digit (b % 16) (omega arith),
        decode_pairs-hex_lower bytes hs,
        whole,
      )
      refl

pub length-hex_lower : (bytes : List ℕ) → length (hex_lower bytes) ≡ 2 * length bytes
unfolding hex_lower
length-hex_lower [] = refl
length-hex_lower (b ∷ bytes) = omega (arith, length-hex_lower bytes)

pub decode_hash-hex_lower :
    (bytes : List ℕ)
    → length bytes ≡ 32
    → All IsByte bytes
    → decode_hash (hex_lower bytes) ≡ ok bytes
unfolding decode_hash
decode_hash-hex_lower bytes size h =
    let long : (length (hex_lower bytes) == 64) ≡ true =
      let twice = length-hex_lower bytes in ground arith in
    rw long (decode_pairs-hex_lower bytes h)
