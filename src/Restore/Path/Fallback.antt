-- ===== src/Restore/Path/Fallback.antt =====
-- The name with a digest that crates/restore/src/path.rs gives in place of one that is not safe.
use undelete_master.Base.{
  Bool, true, ◌&&◌, ◌||◌, all, leb, ◌==◌, ℕ, ◌*◌, ◌/◌, ◌%◌, ◌<◌, ◌≡◌, refl, List, [], ◌∷◌, ◌++◌,
  length, All, All-append, All-split, All-map, length-append, arith,
}
use undelete_master.Base.Texts.{codes}
use undelete_master.Base.Words.{IsByte}
use undelete_master.Restore.Texts.{utf16_count, stem, hex_digit, hex_lower, as_bytes}
use undelete_master.Restore.Path.{to_uppercase, fallback_component}
use undelete_master.Restore.Path.Safe.{IsSafe, IsPlain}

-- The characters of such a name: dashes, digits and small letters.
abbrev is_word : ℕ → Bool
is_word c = c == b'-' || leb b'0' c && leb c b'9' || leb b'a' c && leb c b'z'

abbrev IsWord : ℕ → Type 0
IsWord c = is_word c ≡ true

all-IsWord : (value : List ℕ) → all is_word value ≡ true → All IsWord value
all-IsWord [] h = tt
all-IsWord (c ∷ cs) h = (ground arith, all-IsWord cs (ground arith))

IsWord-IsPlain : (c : ℕ) → IsWord c → IsPlain c
IsWord-IsPlain c w = (ground arith, ground arith, ground arith)

hex_digit-IsWord : (d : ℕ) → d < 16 → IsWord (hex_digit d)
unfolding hex_digit
hex_digit-IsWord d h = ground arith

hex_lower-IsWord : (bytes : List ℕ) → All IsByte bytes → All IsWord (hex_lower bytes)
unfolding hex_lower
hex_lower-IsWord [] h = tt
hex_lower-IsWord (b ∷ bytes) (h, hs) = (
  hex_digit-IsWord (b / 16) (omega arith),
  (hex_digit-IsWord (b % 16) (omega arith), hex_lower-IsWord bytes hs),
)

length-hex_lower : (bytes : List ℕ) → length (hex_lower bytes) ≡ 2 * length bytes
unfolding hex_lower
length-hex_lower [] = refl
length-hex_lower (b ∷ bytes) = omega (arith, length-hex_lower bytes)

utf16_count_words : (value : List ℕ) → All IsWord value → utf16_count value ≡ length value
unfolding utf16_count
utf16_count_words [] h = refl
utf16_count_words (c ∷ cs) (h, hs) = let rest = utf16_count_words cs hs in ground arith

last_of : (P : ℕ → Type 0) (front : List ℕ) (c : ℕ) → All P (front ++ (c ∷ [])) → P c
last_of P front c h = (All-split P front (c ∷ []) h).1.0

module _ (upper : ℕ → List ℕ) (sha256 : List ℕ → List ℕ) where
  pub fallback_component-IsSafe :
      (original : List ℕ)
      → length (sha256 (as_bytes original)) ≡ 32
      → All IsByte (sha256 (as_bytes original))
      → IsSafe upper (fallback_component sha256 original)
  unfolding fallback_component to_uppercase stem
  fallback_component-IsSafe original size bytes =
      let digest = sha256 (as_bytes original) in
      let value = codes "recovered-" ++ hex_lower digest in
      let words : All IsWord value =
        All-append IsWord (codes "recovered-") (hex_lower digest)
          (all-IsWord (codes "recovered-") refl) (hex_lower-IsWord digest bytes) in
      record {
        some_character = omega arith;
        plain = All-map IsWord-IsPlain value words;
        no_dot_at_end = λ front e. let dot = last_of IsWord front b'.' (rw (← e) words) in cc;
        no_space_at_end = λ front e. let space = last_of IsWord front b' ' (rw (← e) words) in cc;
        no_device = refl;
        short = rw (utf16_count_words value words) (
            omega (
              arith,
              length-append (codes "recovered-") (hex_lower digest),
              length-hex_lower digest,
            ));
      }
