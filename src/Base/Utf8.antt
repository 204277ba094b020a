-- ===== src/Base/Utf8.antt =====
-- `std::str::from_utf8`: the well-formed byte sequences of UTF-8.
use Prim.Native.Nat.{ℕ, zero, suc}
use mathlib.Core.Path.{◌≡◌, refl}
use mathlib.Core.Bool.{Bool, true, false, ◌&&◌}
use mathlib.Core.List.{List, [], ◌∷◌, ◌++◌}
use undelete_master.Base.Tests.{leb, ltb, ◌==◌, if◌then◌else◌}

abbrev within : ℕ → ℕ → ℕ → Bool
within lo hi b = leb lo b && leb b hi

abbrev continuation : ℕ → Bool
continuation b = within 0x80 0xbf b

-- The second byte that a lead byte of three or of four bytes admits.
abbrev second_of_three : ℕ → ℕ → Bool
second_of_three lead b =
    if lead == 0xe0
    then within 0xa0 0xbf b
    else if lead == 0xed
    then within 0x80 0x9f b
    else continuation b

abbrev second_of_four : ℕ → ℕ → Bool
second_of_four lead b =
    if lead == 0xf0
    then within 0x90 0xbf b
    else if lead == 0xf4
    then within 0x80 0x8f b
    else continuation b

abbrev admits : ℕ → ℕ → Bool
admits lead b =
    if within 0xe0 0xef lead
    then second_of_three lead b
    else if within 0xf0 0xf4 lead
    then second_of_four lead b
    else continuation b

-- The bytes that a character started earlier still needs, then the rest of the text. The first
-- number counts them; `lead` is the character's first byte, or 0 behind its second.
utf8_from : ℕ → ℕ → List ℕ → Bool
utf8_from zero lead [] = true
utf8_from zero lead (b ∷ bs) =
    let one = utf8_from 0 0 bs in
    let two = utf8_from 1 b bs in
    let three = utf8_from 2 b bs in
    let four = utf8_from 3 b bs in
    if ltb b 0x80
    then one
    else if within 0xc2 0xdf b
    then two
    else if within 0xe0 0xef b
    then three
    else if within 0xf0 0xf4 b
    then four
    else false
utf8_from (suc n) lead [] = false
utf8_from (suc n) lead (b ∷ bs) =
    let rest = utf8_from n 0 bs in if admits lead b then rest else false

unfoldable pub is_utf8 : List ℕ → Bool
unfolding utf8_from
is_utf8 = utf8_from 0 0

keep_if :
    (test : Bool) {a a' b b' : Bool}
    → (a ≡ true → a' ≡ true)
    → (b ≡ true → b' ≡ true)
    → (if test then a else b) ≡ true
    → (if test then a' else b') ≡ true
keep_if true h k e = h e
keep_if false h k e = k e

utf8_from-append :
    (n lead : ℕ) (xs ys : List ℕ)
    → utf8_from n lead xs ≡ true
    → utf8_from 0 0 ys ≡ true
    → utf8_from n lead (xs ++ ys) ≡ true
unfolding utf8_from
utf8_from-append zero lead [] [] h k = refl
utf8_from-append zero lead [] (y ∷ ys) h k = k
utf8_from-append (suc n) lead [] ys h k = absurd (cc)
utf8_from-append (suc n) lead (x ∷ xs) ys h k =
    keep_if (admits lead x) {b = false} (λ e. utf8_from-append n 0 xs ys e k) (λ e. e) h
utf8_from-append zero lead (x ∷ xs) ys h k =
    let keep = λ (n lead : ℕ) (e : utf8_from n lead xs ≡ true). utf8_from-append n lead xs ys e k in
    keep_if (ltb x 0x80) (keep 0 0)
      (keep_if (within 0xc2 0xdf x) (keep 1 x) (
        keep_if (within 0xe0 0xef x) (keep 2 x)
          (keep_if (within 0xf0 0xf4 x) {b = false} (keep 3 x) (λ e. e))))
      h

-- Two texts one behind the other are a text.
pub is_utf8-append :
    (xs ys : List ℕ) → is_utf8 xs ≡ true → is_utf8 ys ≡ true → is_utf8 (xs ++ ys) ≡ true
unfolding is_utf8
is_utf8-append xs ys h k = utf8_from-append 0 0 xs ys h k

two_bytes : is_utf8 (0x41 ∷ 0xc3 ∷ 0xa9 ∷ []) ≡ true
unfolding is_utf8
two_bytes = refl

surrogate : is_utf8 (0xed ∷ 0xa0 ∷ 0x80 ∷ []) ≡ false
unfolding is_utf8
surrogate = refl

four_bytes : is_utf8 (0xf0 ∷ 0x9f ∷ 0x98 ∷ 0x80 ∷ []) ≡ true
unfolding is_utf8
four_bytes = refl
