-- ===== src/Restore/Path.antt =====
-- crates/restore/src/path.rs: the names under which recovered files are written. A text is here the
-- list of its characters, each its code point.
pub mod Reserved
pub mod Safe
pub mod Joined
pub mod Fallback
pub mod Recovered
pub mod Limits
pub mod Loop
pub mod Derived
mod Tests
use undelete_master.Base.{
  ℕ, zero, suc, ◌-◌, ◌*◌, Bool, false, not, ◌&&◌, ◌||◌, Option, none, some, List, [], ◌∷◌, ◌++◌,
  any, length, ltb, leb, ◌==◌, if◌then◌else◌, bytes_eq, Result, ok, err, guard, ok_or, ◌>>=◌, ◌>>◌,
  checked_add, u64_max,
}
use undelete_master.Base.Texts.{codes}
use undelete_master.Candidate.{join}
use undelete_master.Restore.Texts.{
  utf16_count, utf8_len, as_bytes, is_control, is_forbidden, ends_with, stem, strip_prefix,
  hex_lower,
}

abbrev pub max_safe_component_utf16 : ℕ
max_safe_component_utf16 = 255

abbrev pub max_safe_path_components : ℕ
max_safe_path_components = 256

abbrev pub max_safe_path_utf16 : ℕ
max_safe_path_utf16 = 32_000

abbrev pub max_path_evidence_bytes_per_item : ℕ
max_path_evidence_bytes_per_item = 256 * 1024

pub data PathSafetyError : Type 0 where
  empty_path : PathSafetyError
  excessive_depth excessive_path_length : (actual maximum : ℕ) → PathSafetyError
  empty_component traversal path_injection : (index : ℕ) → PathSafetyError
  forbidden_character control_character : (index : ℕ) → PathSafetyError
  trailing_dot_or_space reserved_windows_name : (index : ℕ) → PathSafetyError
  excessive_component_length : (index actual maximum : ℕ) → PathSafetyError
  evidence_budget_exceeded : (actual maximum : ℕ) → PathSafetyError

pub record SafeRelativePath : Type 0 where
  pub components : List (List ℕ)

pub record PathSubstitution : Type 0 where
  pub component_index : ℕ
  pub original : List ℕ
  pub replacement : List ℕ
  pub reason : PathSafetyError

-- The errors, and the panic of `expect`.
pub data PathFailure : Type 0 where
  refused : (error : PathSafetyError) → PathFailure
  panicked : PathFailure

pub record PathEvidence : Type 0 where
  pub version : ℕ
  pub substitutions : List PathSubstitution

pub record DerivedSafePath : Type 0 where
  pub path : SafeRelativePath
  pub evidence_json : List ℕ

-- `?` on an error of path safety.
unfoldable pub checked {ℓ} : {A : Type ℓ} → Result PathSafetyError A → Result PathFailure A
checked (ok a) = ok a
checked (err e) = err (PathFailure.refused e)

-- What a `match` makes of a component: the name, the reason for a substitute, and the count of the
-- bytes that are kept as evidence.
pub record Chosen : Type 0 where
  pub component : List ℕ
  pub reason : Option PathSafetyError
  pub preserved_original_bytes : ℕ

unfoldable pub substitution :
    ℕ → List ℕ → List ℕ → Option PathSafetyError → List PathSubstitution → List PathSubstitution
substitution index original component none rest = rest
substitution index original component (some reason) rest =
    record {
      component_index = index;
      original = original;
      replacement = component;
      reason = reason;
    }
    ∷ rest

unfoldable pub validate_depth : ℕ → Result PathSafetyError (Unit {0})
validate_depth component_count = do
  guard (not (component_count == 0)) PathSafetyError.empty_path
  guard (not (ltb max_safe_path_components component_count))
      (PathSafetyError.excessive_depth component_count max_safe_path_components)
  ok tt

-- `usize::from(index != 0)`
unfoldable pub separator : ℕ → ℕ
separator zero = 0
separator (suc _) = 1

unfoldable pub checked_path_length : ℕ → ℕ → ℕ → Result PathSafetyError ℕ
checked_path_length current component_len index = do
  value ←
      ok_or (checked_add current (separator index))
        (PathSafetyError.excessive_path_length u64_max max_safe_path_utf16)
  actual ←
      ok_or (checked_add value component_len)
        (PathSafetyError.excessive_path_length u64_max max_safe_path_utf16)
  guard (not (ltb max_safe_path_utf16 actual))
      (PathSafetyError.excessive_path_length actual max_safe_path_utf16)
  ok actual

-- The digits from 1 to 9, and the superscripts of 1, 2 and 3.
abbrev pub suffixes : List (List ℕ)
suffixes =
    codes "1"
    ∷ codes "2"
    ∷ codes "3"
    ∷ codes "4"
    ∷ codes "5"
    ∷ codes "6"
    ∷ codes "7"
    ∷ codes "8"
    ∷ codes "9"
    ∷ (185 ∷ [])
    ∷ (178 ∷ [])
    ∷ (179 ∷ [])
    ∷ []

unfoldable pub is_numbered_device : List ℕ → List ℕ → Bool
is_numbered_device name prefix = elim (strip_prefix prefix name) [
  | none ↦ false
  | some suffix ↦ any (bytes_eq suffix) suffixes
]

-- The names with no number.
abbrev pub devices : List (List ℕ)
devices =
    codes "CON" ∷ codes "PRN" ∷ codes "AUX" ∷ codes "NUL" ∷ codes "CONIN$" ∷ codes "CONOUT$" ∷ []

-- `to_slash_string`
unfoldable pub to_slash_string : SafeRelativePath → List ℕ
unfolding join
to_slash_string self = join self.components

-- `sha256` is the digest of the library.
module _ (sha256 : List ℕ → List ℕ) where
  unfoldable pub fallback_component : List ℕ → List ℕ
  fallback_component original = codes "recovered-" ++ hex_lower (sha256 (as_bytes original))

-- `upper c` is the uppercase form of a character that is not ASCII, which takes up to three
-- characters.
module _ (upper : ℕ → List ℕ) where
  unfoldable pub to_uppercase : List ℕ → List ℕ
  to_uppercase [] = []
  to_uppercase (c ∷ cs) =
      let rest = to_uppercase cs in
      if leb b'a' c && leb c b'z'
      then (c - 32) ∷ rest
      else if ltb c 128
      then c ∷ rest
      else upper c ++ rest

  unfoldable pub is_reserved_windows_name : List ℕ → Bool
  is_reserved_windows_name value =
      let name = to_uppercase (stem value) in
      any (bytes_eq name) devices
      || is_numbered_device name (codes "COM")
      || is_numbered_device name (codes "LPT")

  unfoldable pub validate_component : List ℕ → ℕ → Result PathSafetyError (Unit {0})
  validate_component value index = do
    guard (not (length value == 0)) (PathSafetyError.empty_component index)
    guard (not (bytes_eq value (codes ".") || bytes_eq value (codes "..")))
        (PathSafetyError.traversal index)
    guard (not (any (◌==◌ b'/') value || any (◌==◌ b'\\') value))
        (PathSafetyError.path_injection index)
    guard (not (any is_control value)) (PathSafetyError.control_character index)
    guard (not (any is_forbidden value)) (PathSafetyError.forbidden_character index)
    guard (not (ends_with b'.' value || ends_with b' ' value))
        (PathSafetyError.trailing_dot_or_space index)
    guard (not (is_reserved_windows_name value)) (PathSafetyError.reserved_windows_name index)
    guard (not (ltb max_safe_component_utf16 (utf16_count value))) (
        PathSafetyError.excessive_component_length index (utf16_count value)
          max_safe_component_utf16)
    ok tt

  -- `SafeComponent::parse`
  unfoldable pub parse_component : List ℕ → ℕ → Result PathSafetyError (List ℕ)
  parse_component value index = do validate_component value index; ok value

  -- The loop of `try_from_components`, from the component with this index on.
  unfoldable pub parse_components : ℕ → ℕ → List (List ℕ) → Result PathSafetyError (List (List ℕ))
  parse_components index total_utf16 [] = ok []
  parse_components index total_utf16 (component ∷ raw) = do
    safe ← parse_component component index
    total ← checked_path_length total_utf16 (utf16_count safe) index
    parsed ← parse_components (suc index) total raw
    ok (safe ∷ parsed)

  unfoldable pub try_from_components : List (List ℕ) → Result PathSafetyError SafeRelativePath
  try_from_components raw = do
    validate_depth (length raw)
    parsed ← parse_components 0 0 raw
    ok (record { components = parsed })

  -- `to_json` is the JSON text that the library makes of the evidence.
  module _ (sha256 : List ℕ → List ℕ) (to_json : PathEvidence → List ℕ) where
    -- `SafeComponent::parse(..).expect(..)`
    unfoldable pub expect_component :
        Result PathSafetyError (List ℕ) → PathSafetyError → ℕ → Result PathFailure Chosen
    expect_component (ok component) error preserved = ok (record {
      component = component;
      reason = some error;
      preserved_original_bytes = preserved;
    })
    expect_component (err _) error preserved = err PathFailure.panicked

    unfoldable pub substitute : ℕ → ℕ → List ℕ → PathSafetyError → Result PathFailure Chosen
    substitute index preserved original error = do
      kept ← ok_or (checked_add preserved (utf8_len original)) (
          PathFailure.refused
            (PathSafetyError.evidence_budget_exceeded u64_max max_path_evidence_bytes_per_item))
      guard (not (ltb max_path_evidence_bytes_per_item kept)) (
          PathFailure.refused
            (PathSafetyError.evidence_budget_exceeded kept max_path_evidence_bytes_per_item))
      expect_component (parse_component (fallback_component sha256 original) index) error kept

    unfoldable pub choose : ℕ → ℕ → List ℕ → Result PathFailure Chosen
    choose index preserved original = elim (parse_component original index) [
      | ok component ↦
          ok (record { component = component; reason = none; preserved_original_bytes = preserved })
      | err error ↦ substitute index preserved original error
    ]

    -- The loop of `derive_for_recovery`, from the component with this index on.
    unfoldable pub derive_components :
        ℕ → ℕ → ℕ → List (List ℕ) → Result PathFailure (List (List ℕ) × List PathSubstitution)
    derive_components index total_utf16 preserved [] = ok ([], [])
    derive_components index total_utf16 preserved (original ∷ originals) = do
      chosen ← choose index preserved original
      total ← checked (checked_path_length total_utf16 (utf16_count chosen.component) index)
      (components, substitutions) ←
          derive_components (suc index) total chosen.preserved_original_bytes originals
      ok (
        chosen.component ∷ components,
        substitution index original chosen.component chosen.reason substitutions,
      )

    unfoldable pub derive_for_recovery : List (List ℕ) → List ℕ → Result PathFailure DerivedSafePath
    derive_for_recovery recovered_parents recovered_name = do
      component_count ←
          ok_or (checked_add (length recovered_parents) 1)
            (PathFailure.refused (PathSafetyError.excessive_depth u64_max max_safe_path_components))
      checked (validate_depth component_count)
      (components, substitutions) ←
          derive_components 0 0 0 (recovered_parents ++ (recovered_name ∷ []))
      let evidence = to_json (record { version = 1; substitutions = substitutions }) in
          do
            guard (not (ltb max_path_evidence_bytes_per_item (length evidence))) (
                PathFailure.refused (
                  PathSafetyError.evidence_budget_exceeded (length evidence)
                    max_path_evidence_bytes_per_item))
            ok (record { path = record { components = components }; evidence_json = evidence })
