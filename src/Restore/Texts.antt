-- ===== src/Restore/Texts.antt =====
-- crates/restore/src/path.rs: what is asked of the characters of a text, which is the list of their
-- code points, and the hexadecimal form of bytes.
use undelete_master.Base.{
  ℕ, ◌+◌, ◌-◌, ◌/◌, ◌%◌, Bool, false, ◌||◌, Option, none, some, List, [], ◌∷◌, ltb, leb, ◌==◌,
  if◌then◌else◌,
}

-- `encode_utf16().count()`: a character above the basic plane takes two units.
unfoldable pub utf16_count : List ℕ → ℕ
utf16_count [] = 0
utf16_count (c ∷ cs) = (if ltb c 65_536 then 1 else 2) + utf16_count cs

-- `str::len`: the bytes of the UTF-8 form.
unfoldable pub utf8_len : List ℕ → ℕ
utf8_len [] = 0
utf8_len (c ∷ cs) =
    (if ltb c 128 then 1 else if ltb c 2_048 then 2 else if ltb c 65_536 then 3 else 4)
    + utf8_len cs

-- `str::as_bytes`
unfoldable pub as_bytes : List ℕ → List ℕ
as_bytes [] = []
as_bytes (c ∷ cs) =
    let rest = as_bytes cs in
    if ltb c 128
    then c ∷ rest
    else if ltb c 2_048
    then (192 + c / 64) ∷ (128 + c % 64) ∷ rest
    else if ltb c 65_536
    then (224 + c / 4_096) ∷ (128 + c / 64 % 64) ∷ (128 + c % 64) ∷ rest
    else (240 + c / 262_144) ∷ (128 + c / 4_096 % 64) ∷ (128 + c / 64 % 64) ∷ (128 + c % 64) ∷ rest

unfoldable pub is_control : ℕ → Bool
is_control character = leb character 31 || character == 127

unfoldable pub is_forbidden : ℕ → Bool
is_forbidden character =
    character == b'<'
    || character == b'>'
    || character == b':'
    || character == b'"'
    || character == b'|'
    || character == b'?'
    || character == b'*'

unfoldable pub ends_with : ℕ → List ℕ → Bool
ends_with character [] = false
ends_with character (c ∷ []) = c == character
ends_with character (c ∷ d ∷ cs) = ends_with character (d ∷ cs)

-- `split('.').next()`
unfoldable pub stem : List ℕ → List ℕ
stem [] = []
stem (c ∷ cs) = let rest = stem cs in if c == b'.' then [] else c ∷ rest

unfoldable pub strip_prefix : List ℕ → List ℕ → Option (List ℕ)
strip_prefix [] text = some text
strip_prefix (p ∷ prefix) [] = none
strip_prefix (p ∷ prefix) (c ∷ text) =
    let rest = strip_prefix prefix text in if p == c then rest else none

unfoldable pub hex_digit : ℕ → ℕ
hex_digit d = if ltb d 10 then b'0' + d else b'a' + (d - 10)

unfoldable pub hex_lower : List ℕ → List ℕ
hex_lower [] = []
hex_lower (byte ∷ bytes) = hex_digit (byte / 16) ∷ hex_digit (byte % 16) ∷ hex_lower bytes
