-- ===== src/Restore/Path/Recovered.antt =====
-- What crates/restore/src/path.rs writes for names that were recovered, and the limits that it keeps:
-- a description that does not run the loop.
use undelete_master.Base.{
  ap, ℕ, suc, ◌+◌, ◌<◌, ◌≡◌, ◌⊎◌, inl, inr, refl, List, [], ◌∷◌, length, err, Result-cases,
}
use undelete_master.Candidate.{join}
use undelete_master.Restore.Texts.{utf16_count, utf8_len}
use undelete_master.Restore.Path.{
  PathSafetyError, PathEvidence, PathSubstitution, max_safe_path_components, max_safe_path_utf16,
  max_path_evidence_bytes_per_item, parse_component, fallback_component,
}
use undelete_master.Restore.Path.Safe.{IsSafe}
use undelete_master.Restore.Path.Joined.{parse_component-ok, parse_component-IsSafe}

-- The error is of this kind and names this limit.
abbrev pub Names : (ℕ → ℕ → PathSafetyError) → ℕ → PathSafetyError → Type 0
Names kind maximum e = (actual : ℕ) × (e ≡ kind actual maximum)

module _ (upper : ℕ → List ℕ) (sha256 : List ℕ → List ℕ) where
  -- A name that is safe is kept, and any other is replaced by the name with its digest.
  abbrev pub IsChosen : List ℕ → List ℕ → Type 0
  IsChosen original component =
      (IsSafe upper original × (component ≡ original))
      ⊎ (¬ IsSafe upper original × (component ≡ fallback_component sha256 original))

  abbrev pub Follows : List (List ℕ) → List (List ℕ) → Type 0
  Follows [] [] = Unit {0}
  Follows (o ∷ originals) (c ∷ components) = IsChosen o c × Follows originals components
  Follows _ _ = ⊥

  pub Follows-length :
      (originals components : List (List ℕ))
      → Follows originals components
      → length components ≡ length originals
  Follows-length [] [] h = refl
  Follows-length (o ∷ originals) (c ∷ components) (_, h) =
      ap suc (Follows-length originals components h)
  Follows-length [] (c ∷ components) h = absurd h
  Follows-length (o ∷ originals) [] h = absurd h

  -- The names that are replaced have so many bytes.
  abbrev pub Loses : List (List ℕ) → ℕ → Type 0
  Loses [] n = n ≡ 0
  Loses (o ∷ originals) n =
      (IsSafe upper o × Loses originals n)
      ⊎ (¬ IsSafe upper o × ((m : ℕ) × (n ≡ utf8_len o + m) × Loses originals m))

  -- One substitution for each name that is replaced, with the first reason against this name.
  abbrev pub IsSubstitution : ℕ → List ℕ → PathSubstitution → Type 0
  IsSubstitution index original s =
      (s.component_index ≡ index)
      × (s.original ≡ original)
      × (s.replacement ≡ fallback_component sha256 original)
      × (parse_component upper original index ≡ err s.reason)

  abbrev pub Records : ℕ → List (List ℕ) → List PathSubstitution → Type 0
  Records index [] substitutions = substitutions ≡ []
  Records index (o ∷ originals) substitutions =
      (IsSafe upper o × Records (suc index) originals substitutions)
      ⊎ (¬ IsSafe upper o
          × ((s : PathSubstitution) × (rest : List PathSubstitution) × (substitutions ≡ s ∷ rest)
              × IsSubstitution index o s
              × Records (suc index) originals rest))

  pub is_safe_or_not : (original : List ℕ) → IsSafe upper original ⊎ (¬ IsSafe upper original)
  is_safe_or_not original = elim (Result-cases (parse_component upper original 0)) [
    | inl (component, e) ↦ inl ((parse_component-ok upper original 0 component e).1)
    | inr (error, e) ↦
        inr (λ safe. let p = parse_component-IsSafe upper original 0 safe in absurd (cc))
  ]

  pub some-Follows :
      (originals : List (List ℕ)) → (components : List (List ℕ)) × Follows originals components
  some-Follows [] = ([], tt)
  some-Follows (o ∷ originals) =
      let (components, follows) = some-Follows originals in
      elim (is_safe_or_not o) [
        | inl safe ↦ (o ∷ components, (inl (safe, refl), follows))
        | inr bad ↦ (fallback_component sha256 o ∷ components, (inr (bad, refl), follows))
      ]

  pub some-Loses : (originals : List (List ℕ)) → (n : ℕ) × Loses originals n
  some-Loses [] = (0, refl)
  some-Loses (o ∷ originals) =
      let (m, loses) = some-Loses originals in
      elim (is_safe_or_not o) [
        | inl safe ↦ (m, inl (safe, loses))
        | inr bad ↦ (utf8_len o + m, inr (bad, (m, refl, loses)))
      ]

  -- The error names a limit that the names are over.
  abbrev pub IsOver : (PathEvidence → List ℕ) → List (List ℕ) → PathSafetyError → Type 0
  IsOver to_json originals e =
      (Names PathSafetyError.excessive_depth max_safe_path_components e
        × (max_safe_path_components < length originals))
      ⊎ ((Names PathSafetyError.excessive_path_length max_safe_path_utf16 e
            × ((components : List (List ℕ)) × Follows originals components
                × (max_safe_path_utf16 < utf16_count (join components))))
          ⊎ (Names PathSafetyError.evidence_budget_exceeded max_path_evidence_bytes_per_item e
              × (((n : ℕ) × Loses originals n × (max_path_evidence_bytes_per_item < n))
                  ⊎ ((substitutions : List PathSubstitution) × Records 0 originals substitutions
                      × (max_path_evidence_bytes_per_item
                          < length
                              (to_json (record { version = 1; substitutions = substitutions })))))))
