-- ===== src/Restore/Hashes.antt =====
-- crates/restore/src/journal.rs: the decoding of a digest that is written in hexadecimal.
use undelete_master.Base.{
  ℕ, ◌+◌, ◌-◌, ◌*◌, Bool, false, not, ◌&&◌, ◌||◌, Option, none, some, List, [], ◌∷◌, length, ltb,
  leb, ◌==◌, if◌then◌else◌, Result, ok, guard, ok_or, ◌>>=◌, ◌>>◌,
}
use undelete_master.Restore.Errors.{RestoreError}

-- The errors, and the panic of a slice that splits a character.
pub data JournalFailure : Type 0 where
  refused : (error : RestoreError) → JournalFailure
  panicked : JournalFailure

-- A byte of UTF-8 that does not start a character.
unfoldable pub is_continuation : ℕ → Bool
is_continuation b = leb 128 b && ltb b 192

unfoldable pub starts_inside : List ℕ → Bool
starts_inside [] = false
starts_inside (b ∷ _) = is_continuation b

-- `char::to_digit(16)`
unfoldable pub digit : ℕ → Option ℕ
digit c =
    if leb b'0' c && leb c b'9'
    then some (c - b'0')
    else if leb b'a' c && leb c b'f'
    then some (c - b'a' + 10)
    else if leb b'A' c && leb c b'F'
    then some (c - b'A' + 10)
    else none

-- `u8::from_str_radix(pair, 16)`, which takes a sign before a digit.
unfoldable pub pair_value : Option ℕ → Option ℕ → Option ℕ
pair_value (some high) (some low) = some (16 * high + low)
pair_value _ _ = none

unfoldable pub from_str_radix : ℕ → ℕ → Option ℕ
from_str_radix a b = if a == b'+' then digit b else pair_value (digit a) (digit b)

unfoldable pub decode_pairs : List ℕ → Result JournalFailure (List ℕ)
decode_pairs [] = ok []
decode_pairs (_ ∷ []) = ok []
decode_pairs (a ∷ b ∷ rest) = do
  guard (not (is_continuation a || starts_inside rest)) JournalFailure.panicked
  byte ← ok_or (from_str_radix a b) (JournalFailure.refused RestoreError.journal_audit)
  bytes ← decode_pairs rest
  ok (byte ∷ bytes)

unfoldable pub decode_hash : List ℕ → Result JournalFailure (List ℕ)
decode_hash encoded = do
  guard (length encoded == 64) (JournalFailure.refused RestoreError.journal_audit)
  decode_pairs encoded
