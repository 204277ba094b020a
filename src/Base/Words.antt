-- ===== src/Base/Words.antt =====
-- Bytes, and the standard library's little-endian conversions `to_le_bytes` and `from_le_bytes`.
use Prim.Native.Nat.{ℕ, zero, suc, ◌+◌, ◌*◌, ◌/◌, ◌%◌, ◌^◌, ◌≤◌, ◌<◌}
use mathlib.Core.Path.{◌≡◌, refl, sym}
use mathlib.Core.List.{List, [], ◌∷◌, ◌++◌}
use native.Mathlib.Omega.{arith}
use mathlib.Core.Bool.{true}
use undelete_master.Base.Tests.{ltb}
use undelete_master.Base.Lists.{
  length, All, all, take, drop, length-take, length-drop, All-take, All-drop, drop-drop,
  take-append-drop,
}

abbrev pub IsByte : ℕ → Type 0
IsByte b = b < 256

-- A list of literals is checked by running the test.
pub all_IsByte : (bs : List ℕ) → all (λ b. ltb b 256) bs ≡ true → All IsByte bs
all_IsByte [] h = tt
all_IsByte (b ∷ bs) h = (ground arith, all_IsByte bs (ground arith))

abbrev pub IsU16 : ℕ → Type 0
IsU16 v = v < 65536

abbrev pub IsU32 : ℕ → Type 0
IsU32 v = v < 2 ^ 32

abbrev pub IsU64 : ℕ → Type 0
IsU64 v = v < 2 ^ 64

-- The `w` bytes of a number, the lowest first.
abbrev pub to_le_bytes : ℕ → ℕ → List ℕ
to_le_bytes zero v = []
to_le_bytes (suc w) v = v % 256 ∷ to_le_bytes w (v / 256)

abbrev pub from_le_bytes : List ℕ → ℕ
from_le_bytes [] = 0
from_le_bytes (b ∷ bs) = b + 256 * from_le_bytes bs

pub from_le_bytes-to_le_bytes : (w v : ℕ) → v < 256 ^ w → from_le_bytes (to_le_bytes w v) ≡ v
from_le_bytes-to_le_bytes zero v h = omega arith
from_le_bytes-to_le_bytes (suc w) v h =
    omega (arith, from_le_bytes-to_le_bytes w (v / 256) (grind arith))

low_byte : (b n : ℕ) → b < 256 → (b + 256 * n) % 256 ≡ b
low_byte b n h = omega arith

high_bytes : (b n : ℕ) → b < 256 → (b + 256 * n) / 256 ≡ n
high_bytes b n h = omega arith

pub to_le_bytes-from_le_bytes :
    (bs : List ℕ) → All IsByte bs → to_le_bytes (length bs) (from_le_bytes bs) ≡ bs
to_le_bytes-from_le_bytes [] h = refl
to_le_bytes-from_le_bytes (b ∷ bs) h = cc (
  low_byte b (from_le_bytes bs) h.0,
  high_bytes b (from_le_bytes bs) h.0,
  to_le_bytes-from_le_bytes bs h.1,
)

pub from_le_bytes-lt : (bs : List ℕ) → All IsByte bs → from_le_bytes bs < 256 ^ length bs
from_le_bytes-lt [] h = omega arith
from_le_bytes-lt (b ∷ bs) h = grind (arith, from_le_bytes-lt bs h.1, h.0)

word_of :
    (xs : List ℕ) (w v : ℕ) (rest whole : List ℕ)
    → All IsByte xs
    → length xs ≡ w
    → from_le_bytes xs ≡ v
    → whole ≡ xs ++ rest
    → (whole ≡ to_le_bytes w v ++ rest) × (v < 256 ^ w)
word_of xs w v rest whole h l e p =
    rw (← l, ← e, to_le_bytes-from_le_bytes xs h) (p, from_le_bytes-lt xs h)

-- A word of `w` bytes at position `a` of a slice.
pub slice_word :
    (a w v : ℕ) (bytes : List ℕ)
    → All IsByte bytes
    → a + w ≤ length bytes
    → from_le_bytes (take w (drop a bytes)) ≡ v
    → (drop a bytes ≡ to_le_bytes w v ++ drop (a + w) bytes) × (v < 256 ^ w)
slice_word a w v bytes h l e =
    let xs = take w (drop a bytes) in
    let typed = All-take IsByte w (drop a bytes) (All-drop IsByte a bytes h) in
    let size : length xs ≡ w = omega (arith, length-take w (drop a bytes), length-drop a bytes) in
    word_of xs w v (drop (a + w) bytes) (drop a bytes) typed size e
      (rw (drop-drop a w bytes) (sym (take-append-drop w (drop a bytes))))
