-- ===== src/Restore/Path/Loop.antt =====
-- The loop of `derive_for_recovery` in crates/restore/src/path.rs, with the limits at which it stops.
use undelete_master.Base.{
  ℕ, suc, ◌+◌, ◌≤◌, ◌<◌, ◌≡◌, ◌⊎◌, inl, inr, refl, List, [], ◌∷◌, length, All, ltb, leb, err,
  Result-cases, Bool-cases, none, some, u64_max, arith,
}
use undelete_master.Base.Words.{IsByte}
use undelete_master.Restore.Texts.{utf16_count, utf8_len, as_bytes}
use undelete_master.Restore.Path.{
  PathSafetyError, Chosen, substitution, PathEvidence, PathSubstitution, max_safe_path_utf16,
  max_path_evidence_bytes_per_item, separator, checked, checked_path_length, parse_component,
  fallback_component, expect_component, substitute, choose, derive_components,
}
use undelete_master.Restore.Path.Safe.{IsSafe}
use undelete_master.Restore.Path.Joined.{cost, parse_component-ok, parse_component-IsSafe}
use undelete_master.Restore.Path.Recovered.{
  IsChosen, Follows, Loses, Records, some-Follows, some-Loses, Names,
}
use undelete_master.Restore.Path.Fallback.{fallback_component-IsSafe}
use undelete_master.Restore.Path.Limits.{Gives, Gives-bind, Gives-map, IsLong, IsFull, length-Gives}

module _ (upper : ℕ → List ℕ) (sha256 : List ℕ → List ℕ)
    (size : (text : List ℕ) → length (sha256 text) ≡ 32)
    (bytes : (text : List ℕ) → All IsByte (sha256 text)) (to_json : PathEvidence → List ℕ) where
  fallback_safe : (original : List ℕ) → IsSafe upper (fallback_component sha256 original)
  fallback_safe original =
      fallback_component-IsSafe upper sha256 original (size (as_bytes original))
        (bytes (as_bytes original))

  -- What is kept as evidence of a name behind so many bytes.
  abbrev Preserves : ℕ → ℕ → List ℕ → Chosen → Type 0
  Preserves index preserved original chosen =
      (IsSafe upper original
        × (chosen.preserved_original_bytes ≡ preserved)
        × (chosen.reason ≡ none))
      ⊎ (¬ IsSafe upper original
          × (chosen.preserved_original_bytes ≡ preserved + utf8_len original)
          × ((reason : PathSafetyError) × (chosen.reason ≡ some reason)
              × (parse_component upper original index ≡ err reason)))

  -- What a name that is chosen has.
  abbrev Right : ℕ → ℕ → List ℕ → Chosen → Type 0
  Right index preserved original chosen =
      IsSafe upper chosen.component
      × IsChosen upper sha256 original chosen.component
      × Preserves index preserved original chosen

  -- The name that is replaced takes the evidence over its limit.
  abbrev IsSpent : ℕ → List ℕ → PathSafetyError → Type 0
  IsSpent preserved original e = ¬ IsSafe upper original × IsFull (preserved + utf8_len original) e

  substitute-Gives :
      (index preserved : ℕ) (original : List ℕ) (error : PathSafetyError)
      → ¬ IsSafe upper original
      → parse_component upper original index ≡ err error
      → Gives
          (IsSpent preserved original)
          (Right index preserved original)
          (substitute upper sha256 to_json index preserved original error)
  unfolding substitute expect_component
  substitute-Gives index preserved original error bad refused =
      elim (Bool-cases (leb (preserved + utf8_len original) u64_max)) [
        | inr e ↦ rw e (bad, ((_, refl), ground arith))
        | inl e ↦
            elim (Bool-cases
              (ltb max_path_evidence_bytes_per_item (preserved + utf8_len original))) [
                | inl f ↦ rw (e, f) (bad, ((_, refl), ground arith))
                | inr f ↦
                    rw
                      (
                        e,
                        f,
                        parse_component-IsSafe upper (fallback_component sha256 original) index
                            (fallback_safe original),
                      )
                      (
                        fallback_safe original,
                        inr (bad, refl),
                        inr (bad, refl, (error, refl, refused)),
                      )
              ]
      ]

  choose-Gives :
      (index preserved : ℕ) (original : List ℕ)
      → Gives
          (IsSpent preserved original)
          (Right index preserved original)
          (choose upper sha256 to_json index preserved original)
  unfolding choose
  choose-Gives index preserved original =
      elim (Result-cases (parse_component upper original index)) [
        | inl (component, e) ↦
            let (same, safe) = parse_component-ok upper original index component e in
            rw (choose, e) (rw same safe, inl (safe, same), inl (safe, refl, refl))
        | inr (error, e) ↦
            let bad : ¬ IsSafe upper original =
              λ safe. let p = parse_component-IsSafe upper original index safe in cc in
            rw (choose, e) (substitute-Gives index preserved original error bad e)
      ]

  -- What the loop has made from an index on.
  abbrev pub Made : ℕ → ℕ → List (List ℕ) → List (List ℕ) × List PathSubstitution → Type 0
  Made index total originals (components, substitutions) =
      All (IsSafe upper) components
      × Follows upper sha256 originals components
      × (total + cost index components ≤ max_safe_path_utf16)
      × Records upper sha256 index originals substitutions

  -- The limits that the names from an index on are over.
  abbrev pub Stops : ℕ → ℕ → ℕ → List (List ℕ) → PathSafetyError → Type 0
  Stops index total preserved originals e =
      (Names PathSafetyError.excessive_path_length max_safe_path_utf16 e
        × ((components : List (List ℕ)) × Follows upper sha256 originals components
            × (max_safe_path_utf16 < total + cost index components)))
      ⊎ (Names PathSafetyError.evidence_budget_exceeded max_path_evidence_bytes_per_item e
          × ((n : ℕ) × Loses upper sha256 originals n
              × (max_path_evidence_bytes_per_item < preserved + n)))

  IsSpent-Stops :
      (index total preserved : ℕ) (original : List ℕ) (originals : List (List ℕ))
      (e : PathSafetyError)
      → IsSpent preserved original e
      → Stops index total preserved (original ∷ originals) e
  IsSpent-Stops index total preserved original originals e (bad, (names, over)) =
      let (m, loses) = some-Loses upper sha256 originals in
      inr (names, (utf8_len original + m, inr (bad, (m, refl, loses)), omega arith))

  IsLong-Stops :
      (index total preserved : ℕ) (original component : List ℕ) (originals : List (List ℕ))
      (e : PathSafetyError)
      → IsChosen upper sha256 original component
      → IsLong (total + (separator index + utf16_count component)) e
      → Stops index total preserved (original ∷ originals) e
  IsLong-Stops index total preserved original component originals e chosen (names, over) =
      let (components, follows) = some-Follows upper sha256 originals in
      inl (names, (component ∷ components, (chosen, follows), omega arith))

  -- A limit that the names behind one are over, with what this one adds.
  later-Stops :
      (index total next preserved : ℕ) (original : List ℕ) (originals : List (List ℕ))
      (chosen : Chosen) (e : PathSafetyError)
      → next ≡ total + (separator index + utf16_count chosen.component)
      → Right index preserved original chosen
      → Stops (suc index) next chosen.preserved_original_bytes originals e
      → Stops index total preserved (original ∷ originals) e
  later-Stops index total next preserved original originals chosen e sum (_, choice, _)
        (inl (names, (components, follows, over))) =
      inl (names, (chosen.component ∷ components, (choice, follows), omega arith))
  later-Stops index total next preserved original originals chosen e sum (_, _, inl (safe, same, _))
        (inr (names, (n, loses, over))) =
      inr (names, (n, inl (safe, loses), omega arith))
  later-Stops index total next preserved original originals chosen e sum (_, _, inr (bad, more, _))
        (inr (names, (n, loses, over))) =
      inr (names, (utf8_len original + n, inr (bad, (n, refl, loses)), omega arith))

  recorded :
      (index preserved : ℕ) (original : List ℕ) (originals : List (List ℕ)) (chosen : Chosen)
      (substitutions : List PathSubstitution)
      → Right index preserved original chosen
      → Records upper sha256 (suc index) originals substitutions
      → Records upper sha256 index
          (original ∷ originals)
          (substitution index original chosen.component chosen.reason substitutions)
  unfolding substitution
  recorded index preserved original originals chosen substitutions (_, _, inl (safe, _, kept))
        later =
      inl (safe, rw kept later)
  recorded index preserved original originals chosen substitutions
        (_, inr (_, replaced), inr (bad, _, (reason, given, refused))) later =
      inr (bad, rw given (_, _, refl, (refl, refl, replaced, refused), later))
  recorded index preserved original originals chosen substitutions
        (_, inl (safe, _), inr (bad, _, _)) later =
      absurd (bad safe)

  pub derive_components-Gives :
      (index total preserved : ℕ) (originals : List (List ℕ))
      → total ≤ max_safe_path_utf16
      → Gives
          (Stops index total preserved originals)
          (Made index total originals)
          (derive_components upper sha256 to_json index total preserved originals)
  unfolding derive_components
  derive_components-Gives index total preserved [] h = (tt, tt, omega arith, refl)
  derive_components-Gives index total preserved (original ∷ originals) h =
      let L = Stops index total preserved (original ∷ originals) in
      let M = Made index total (original ∷ originals) in
      Gives-bind L (Right index preserved original) M
        (choose upper sha256 to_json index preserved original) _
        (Gives-map (IsSpent preserved original) L (Right index preserved original)
          (choose upper sha256 to_json index preserved original)
          (choose-Gives index preserved original)
          (IsSpent-Stops index total preserved original originals))
        (λ chosen right.
          let sum = total + (separator index + utf16_count chosen.component) in
          Gives-bind L (λ next. (next ≡ sum) × (next ≤ max_safe_path_utf16)) M
            (checked (checked_path_length total (utf16_count chosen.component) index)) _
            (Gives-map (IsLong sum) L (λ next. (next ≡ sum) × (next ≤ max_safe_path_utf16))
              (checked (checked_path_length total (utf16_count chosen.component) index))
              (length-Gives total (utf16_count chosen.component) index)
              (λ e long.
                IsLong-Stops index total preserved original chosen.component originals e right.1
                  long))
            (λ next bound.
              let kept = chosen.preserved_original_bytes in
              let loop = derive_components upper sha256 to_json (suc index) next kept originals in
              Gives-bind L (Made (suc index) next originals) M loop _
                (Gives-map (Stops (suc index) next kept originals) L
                  (Made (suc index) next originals) loop
                  (derive_components-Gives (suc index) next kept originals bound.1)
                  (λ e stops.
                    later-Stops index total next preserved original originals chosen e bound.0 right
                      stops))
                (λ rest made. (
                  (right.0, made.0),
                  (right.1, made.1),
                  omega (arith, bound.0, made.2),
                  recorded index preserved original originals chosen rest.1 right made.3,
                ))))
