-- ===== src/Restore/Path/Tests.antt =====
-- Runs of the checks on names, and their theorems at a few names.
use undelete_master.Base.{All, ℕ, ◌≡◌, ◌↔◌, refl, List, [], ◌∷◌, ◌++◌, replicate, ok, err}
use undelete_master.Base.Texts.{codes}
use undelete_master.Base.Words.{IsByte, all_IsByte}
use undelete_master.Restore.Texts.{
  utf16_count, is_control, is_forbidden, ends_with, stem, strip_prefix, hex_digit, hex_lower,
  utf8_len, as_bytes,
}
use undelete_master.Restore.Path.{
  PathSafetyError, PathEvidence, validate_component, try_from_components, to_uppercase,
  is_numbered_device, is_reserved_windows_name, separator, checked, validate_depth,
  checked_path_length, parse_component, parse_components, fallback_component, expect_component,
  substitute, choose, substitution, derive_components, derive_for_recovery,
}
use undelete_master.Restore.Path.Safe.{IsSafe, validate_component_iff}
use undelete_master.Restore.Path.Joined.{IsSafePath, try_from_components_iff}
use undelete_master.Restore.Path.Derived.{IsDerived, derive_for_recovery-Gives}
use undelete_master.Restore.Path.Limits.{Gives}
use undelete_master.Restore.Path.Recovered.{IsOver}

-- Capitals for no letter beyond ASCII, a digest of zeros, and no text of the evidence.
abbrev plain_upper : ℕ → List ℕ
plain_upper c = c ∷ []

abbrev zero_digest : List ℕ → List ℕ
zero_digest _ = replicate 32 0

abbrev no_text : PathEvidence → List ℕ
no_text _ = []

device :
    validate_component plain_upper (codes "aux.txt") 4
    ≡ err (PathSafetyError.reserved_windows_name 4)
unfolding validate_component is_control is_forbidden ends_with is_reserved_windows_name to_uppercase
    stem
device = refl

third_printer :
    validate_component plain_upper (codes "lpt" ++ (179 ∷ [])) 0
    ≡ err (PathSafetyError.reserved_windows_name 0)
unfolding validate_component is_control is_forbidden ends_with is_reserved_windows_name to_uppercase
    stem is_numbered_device strip_prefix
third_printer = refl

abbrev notes : List (List ℕ)
notes = codes "docs" ∷ codes "notes.txt" ∷ []

takes_notes : try_from_components plain_upper notes ≡ ok (record { components = notes })
unfolding try_from_components validate_depth parse_components parse_component validate_component
    is_control is_forbidden ends_with is_reserved_windows_name to_uppercase stem is_numbered_device
    strip_prefix utf16_count checked_path_length separator
takes_notes = refl

-- A parent that would lead upwards, and a name that is a device.
abbrev hostile : List (List ℕ)
hostile = codes ".." ∷ codes "docs" ∷ []

abbrev zero_name : List ℕ
zero_name = codes "recovered-" ++ replicate 64 b'0'

replaced :
    derive_for_recovery plain_upper zero_digest no_text hostile (codes "CON")
    ≡ ok (record {
      path = record { components = zero_name ∷ codes "docs" ∷ zero_name ∷ [] };
      evidence_json = [];
    })
unfolding derive_for_recovery checked validate_depth derive_components choose parse_component
    validate_component substitute utf8_len expect_component fallback_component hex_lower hex_digit
    is_control is_forbidden ends_with is_reserved_windows_name to_uppercase as_bytes
    checked_path_length is_numbered_device separator stem strip_prefix substitution utf16_count
replaced = refl

validate_component_iff_example :
    (validate_component plain_upper (codes "notes.txt") 0 ≡ ok tt)
    ↔ IsSafe plain_upper (codes "notes.txt")
validate_component_iff_example = validate_component_iff plain_upper (codes "notes.txt") 0

try_from_components_iff_example :
    (try_from_components plain_upper notes ≡ ok (record { components = notes }))
    ↔ ((notes ≡ notes) × IsSafePath plain_upper (record { components = notes }))
try_from_components_iff_example =
    try_from_components_iff plain_upper notes (record { components = notes })

abbrev hostile_names : List (List ℕ)
hostile_names = hostile ++ (codes "CON" ∷ [])

zero_bytes : (text : List ℕ) → All IsByte (zero_digest text)
zero_bytes text = all_IsByte (replicate 32 0) refl

derive_for_recovery-Gives_example :
    Gives
      (IsOver plain_upper zero_digest no_text hostile_names)
      (IsDerived plain_upper zero_digest (λ _. refl) zero_bytes no_text hostile_names)
      (derive_for_recovery plain_upper zero_digest no_text hostile (codes "CON"))
derive_for_recovery-Gives_example =
    derive_for_recovery-Gives plain_upper zero_digest (λ _. refl) zero_bytes no_text hostile
      (codes "CON")
