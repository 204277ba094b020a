-- ===== src/Restore/Lines.antt =====
-- crates/restore/src/journal.rs: the lines of a journal, and the test for UTF-8.
use undelete_master.Base.{
  ℕ, Bool, true, false, Option, none, some, List, [], ◌∷◌, ◌==◌, if◌then◌else◌,
}

-- `split_inclusive` at the line feeds.
unfoldable pub push_front : ℕ → List (List ℕ) → List (List ℕ)
push_front b [] = (b ∷ []) ∷ []
push_front b (line ∷ lines) = (b ∷ line) ∷ lines

unfoldable pub split_inclusive : List ℕ → List (List ℕ)
split_inclusive [] = []
split_inclusive (b ∷ bytes) =
    let rest = split_inclusive bytes in if b == 10 then (b ∷ []) ∷ rest else push_front b rest

-- `strip_suffix` of a line feed, which `ends_with` tests as well.
unfoldable pub strip_newline : List ℕ → Option (List ℕ)
strip_newline [] = none
strip_newline (b ∷ []) = if b == 10 then some [] else none
strip_newline (b ∷ c ∷ bytes) = elim (strip_newline (c ∷ bytes)) [
  | none ↦ none
  | some line ↦ some (b ∷ line)
]

-- A text that is empty, or ends with a line feed.
unfoldable pub ends_complete : List ℕ → Bool
ends_complete [] = true
ends_complete (b ∷ bytes) = elim (strip_newline (b ∷ bytes)) [ none ↦ false | some _ ↦ true ]
