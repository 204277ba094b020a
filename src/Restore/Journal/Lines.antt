-- ===== src/Restore/Journal/Lines.antt =====
-- The text of a journal of crates/restore/src/journal.rs, cut into its lines.
use undelete_master.Base.{
  append_assoc, ap, ◌∙◌, Option-cases, inl, inr, ℕ, ◌≡◌, ◌≢◌, refl, true, false, some, List, [],
  ◌∷◌, ◌++◌, All, ◌==◌, arith,
}
use undelete_master.Base.Utf8.{is_utf8, is_utf8-append}
use undelete_master.Restore.Lines.{push_front, split_inclusive, strip_newline, ends_complete}

-- A text with no line feed.
abbrev pub IsLine : List ℕ → Type 0
IsLine line = All (λ b. b ≢ 10) line

pub split_inclusive-append :
    (line bytes : List ℕ)
    → IsLine line
    → split_inclusive (line ++ (10 ∷ bytes)) ≡ (line ++ (10 ∷ [])) ∷ split_inclusive bytes
unfolding split_inclusive push_front
split_inclusive-append [] bytes h = refl
split_inclusive-append (b ∷ line) bytes (h, hs) =
    let other : (b == 10) ≡ false = ground arith in
    rw (split_inclusive-append line bytes hs, other) refl

pub strip_newline-append : (line : List ℕ) → strip_newline (line ++ (10 ∷ [])) ≡ some line
unfolding strip_newline
strip_newline-append [] = refl
strip_newline-append (b ∷ []) = refl
strip_newline-append (b ∷ c ∷ line) = rw (strip_newline-append (c ∷ line)) refl

pub is_utf8_lines :
    (line bytes : List ℕ)
    → is_utf8 line ≡ true
    → is_utf8 bytes ≡ true
    → is_utf8 (line ++ (10 ∷ bytes)) ≡ true
unfolding is_utf8
is_utf8_lines line bytes h k = is_utf8-append line (10 ∷ bytes) h k

pub behind_line :
    (front line bytes : List ℕ)
    → (front ++ (line ++ (10 ∷ []))) ++ bytes ≡ front ++ (line ++ (10 ∷ bytes))
behind_line front line bytes =
    append_assoc front (line ++ (10 ∷ [])) bytes
    ∙ ap (◌++◌ front) (append_assoc line (10 ∷ []) bytes)

strip_newline_cons :
    (b c : ℕ) (bytes line : List ℕ)
    → strip_newline (c ∷ bytes) ≡ some line
    → strip_newline (b ∷ c ∷ bytes) ≡ some (b ∷ line)
unfolding strip_newline
strip_newline_cons b c bytes line e = rw (strip_newline, e) refl

complete_of : (bytes line : List ℕ) → strip_newline bytes ≡ some line → ends_complete bytes ≡ true
unfolding ends_complete
complete_of [] line e = refl
complete_of (b ∷ bytes) line e = rw (ends_complete, e) refl

complete_cons :
    (b c : ℕ) (bytes : List ℕ)
    → ends_complete (c ∷ bytes) ≡ true
    → ends_complete (b ∷ c ∷ bytes) ≡ true
unfolding ends_complete strip_newline
complete_cons b c bytes h = elim (Option-cases (strip_newline (c ∷ bytes))) [
  | inl e ↦ let k = rw (e, ends_complete) at h in absurd (cc)
  | inr (line, e) ↦ complete_of (b ∷ c ∷ bytes) (b ∷ line) (strip_newline_cons b c bytes line e)
]

pub complete-append :
    (line bytes : List ℕ) → ends_complete bytes ≡ true → ends_complete (line ++ (10 ∷ bytes)) ≡ true
unfolding ends_complete strip_newline
complete-append [] [] h = refl
complete-append [] (c ∷ bytes) h = complete_cons 10 c bytes h
complete-append (b ∷ []) bytes h = complete_cons b 10 bytes (complete-append [] bytes h)
complete-append (b ∷ c ∷ line) bytes h =
    complete_cons b c (line ++ (10 ∷ bytes)) (complete-append (c ∷ line) bytes h)
