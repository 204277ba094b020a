-- ===== src/Restore/Path/Derived.antt =====
-- `derive_for_recovery` of crates/restore/src/path.rs: what is written for names that were recovered,
-- and when there is nothing.
use undelete_master.Base.{
  ℕ, ◌+◌, ◌≤◌, ◌<◌, ◌≡◌, inl, inr, refl, not, List, [], ◌∷◌, ◌++◌, length, All, ltb, ok, guard,
  Bool-cases, checked_add, u64_max, ok_or, ◌>>=◌, length-append, arith,
}
use undelete_master.Base.Words.{IsByte}
use undelete_master.Restore.Path.{
  PathSafetyError, PathFailure, PathEvidence, PathSubstitution, DerivedSafePath,
  max_safe_path_components, max_safe_path_utf16, max_path_evidence_bytes_per_item, checked,
  validate_depth, derive_components, derive_for_recovery, to_slash_string,
}
use undelete_master.Restore.Path.Safe.{IsSafe}
use undelete_master.Restore.Path.Joined.{IsSafePath, cost, cost-join}
use undelete_master.Restore.Path.Recovered.{Follows, Follows-length, Records, IsOver}
use undelete_master.Restore.Path.Limits.{
  Gives, Gives-bind, Gives-map, IsDeep, depth-Gives, count-Gives,
}
use undelete_master.Restore.Path.Loop.{Made, Stops, derive_components-Gives}

module _ (upper : ℕ → List ℕ) (sha256 : List ℕ → List ℕ)
    (size : (text : List ℕ) → length (sha256 text) ≡ 32)
    (bytes : (text : List ℕ) → All IsByte (sha256 text)) (to_json : PathEvidence → List ℕ) where
  -- What the names come to: a path that is safe and follows them, with the evidence of what was
  -- replaced.
  abbrev pub IsDerived : List (List ℕ) → DerivedSafePath → Type 0
  IsDerived originals derived =
      IsSafePath upper derived.path
      × Follows upper sha256 originals derived.path.components
      × ((substitutions : List PathSubstitution) × Records upper sha256 0 originals substitutions
          × (derived.evidence_json
              ≡ to_json (record { version = 1; substitutions = substitutions }))
          × (length derived.evidence_json ≤ max_path_evidence_bytes_per_item))

  safe_path :
      (originals components : List (List ℕ))
      → 0 < length originals
      → length originals ≤ max_safe_path_components
      → All (IsSafe upper) components
      → Follows upper sha256 originals components
      → cost 0 components ≤ max_safe_path_utf16
      → IsSafePath upper (record { components = components })
  unfolding to_slash_string
  safe_path originals components h k safe follows bound =
      let same = Follows-length upper sha256 originals components follows in
      record {
        some_component = rw same h;
        depth = rw same k;
        safe = safe;
        short = rw (cost-join components) bound;
      }

  Stops-IsOver :
      (originals : List (List ℕ)) (e : PathSafetyError)
      → Stops upper sha256 size bytes to_json 0 0 0 originals e
      → IsOver upper sha256 to_json originals e
  Stops-IsOver originals e (inl (names, (components, follows, over))) =
      inr (inl (names, (components, follows, rw (cost-join components) (omega arith))))
  Stops-IsOver originals e (inr (names, (n, loses, over))) =
      inr (inr (names, inl (n, loses, omega arith)))

  -- The end of the call: the evidence has a limit of its own.
  evidence-Gives :
      (originals components : List (List ℕ)) (substitutions : List PathSubstitution)
      → 0 < length originals
      → length originals ≤ max_safe_path_components
      → Made upper sha256 size bytes to_json 0 0 originals (components, substitutions)
      → let evidence = to_json (record { version = 1; substitutions = substitutions }) in
        Gives (IsOver upper sha256 to_json originals) (IsDerived originals) (
          guard (not (ltb max_path_evidence_bytes_per_item (length evidence))) (
            PathFailure.refused (
              PathSafetyError.evidence_budget_exceeded
                (length evidence)
                max_path_evidence_bytes_per_item))
          >>= λ _.
              ok (record { path = record { components = components }; evidence_json = evidence }))
  evidence-Gives originals components substitutions h k (safe, follows, bound, records) =
      let evidence = to_json (record { version = 1; substitutions = substitutions }) in
      elim (Bool-cases (ltb max_path_evidence_bytes_per_item (length evidence))) [
        | inl e ↦ rw e (inr (inr ((_, refl), inr (substitutions, records, ground arith))))
        | inr e ↦ rw e (
          safe_path originals components h k safe follows (omega arith),
          follows,
          (substitutions, records, refl, ground arith),
        )
      ]

  -- For whatever names were recovered, the call never panics, and gives a path or an error that names
  -- a limit. The path has from 1 to 256 components, every one of them a safe name, and at most 32,000
  -- units of UTF-16 with its slashes; a name that is safe is kept as it is, and any other is replaced
  -- by the one with the digest of its bytes, in the same order. With it comes the evidence, of at most
  -- 256 KiB: for each name that was replaced, its place, the name, the replacement and the first reason
  -- against it. There is an error only where the names are over the limit that it names: there are
  -- more than 256 of them, the path of the chosen names is longer than 32,000 units, or the names that
  -- are replaced, or their evidence, take more than 256 KiB. The digest is of 32 bytes.
  pub derive_for_recovery-Gives :
      (recovered_parents : List (List ℕ)) (recovered_name : List ℕ)
      → let originals = recovered_parents ++ (recovered_name ∷ []) in
        Gives
          (IsOver upper sha256 to_json originals)
          (IsDerived originals)
          (derive_for_recovery upper sha256 to_json recovered_parents recovered_name)
  unfolding derive_for_recovery
  derive_for_recovery-Gives parents name =
      let originals = parents ++ (name ∷ []) in
      let long = length-append parents (name ∷ []) in
      let same : length originals ≡ length parents + 1 = omega arith in
      let L = IsOver upper sha256 to_json originals in
      let deep : (e : PathSafetyError) → IsDeep (length parents + 1) e → L e =
        λ e (names, over). inl (names, rw same over) in
      Gives-bind L (λ count. count ≡ length parents + 1) (IsDerived originals)
        (ok_or (checked_add (length parents) 1)
          (PathFailure.refused (PathSafetyError.excessive_depth u64_max max_safe_path_components)))
        _
        (Gives-map (IsDeep (length parents + 1)) L (λ count. count ≡ length parents + 1) _
          (count-Gives (length parents)) deep)
        (λ count number. rw number (
          Gives-bind L (λ _. length parents + 1 ≤ max_safe_path_components) (IsDerived originals)
            (checked (validate_depth (length parents + 1))) _
            (Gives-map (IsDeep (length parents + 1)) L
              (λ _. length parents + 1 ≤ max_safe_path_components)
              (checked (validate_depth (length parents + 1))) (depth-Gives (length parents)) deep)
            (λ _ few.
              Gives-bind L (Made upper sha256 size bytes to_json 0 0 originals)
                (IsDerived originals) (derive_components upper sha256 to_json 0 0 0 originals) _
                (Gives-map (Stops upper sha256 size bytes to_json 0 0 0 originals) L
                  (Made upper sha256 size bytes to_json 0 0 originals)
                  (derive_components upper sha256 to_json 0 0 0 originals)
                  (derive_components-Gives upper sha256 size bytes to_json 0 0 0 originals
                    (omega arith))
                  (Stops-IsOver originals))
                (λ r made. evidence-Gives originals r.0 r.1 (omega arith) (omega arith) made))))
