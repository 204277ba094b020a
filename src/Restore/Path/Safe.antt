-- ===== src/Restore/Path/Safe.antt =====
-- Which names crates/restore/src/path.rs lets through, in terms of their characters.
use undelete_master.Base.{
  ℕ, ◌≡◌, ◌≢◌, ◌↔◌, ◌<◌, ◌≤◌, refl, true, false, not, ◌||◌, inl, inr, List, [], ◌∷◌, ◌++◌, any,
  length, ltb, ◌==◌, All, ◌∙◌, bytes_eq_sound, guard-ok, bytes_eq, ok, arith, Bool-cases,
}
use undelete_master.Base.Texts.{codes}
use undelete_master.Restore.Texts.{utf16_count, is_control, is_forbidden, ends_with, stem}
use undelete_master.Restore.Path.{
  max_safe_component_utf16, to_uppercase, is_reserved_windows_name, validate_component,
}
use undelete_master.Restore.Path.Reserved.{reserved_names, is_reserved_windows_name_lem}

-- Neither a control character, nor a separator, nor one that Windows forbids.
abbrev pub IsPlain : ℕ → Type 0
IsPlain c = (31 < c) × (c ≢ 127) × (any (◌==◌ c) (codes "/\\<>:\"|?*") ≡ false)

pub record IsSafe (upper : ℕ → List ℕ) (value : List ℕ) : Type 0 where
  pub some_character : 0 < length value
  pub plain : All IsPlain value
  pub no_dot_at_end : (front : List ℕ) → value ≢ front ++ (b'.' ∷ [])
  pub no_space_at_end : (front : List ℕ) → value ≢ front ++ (b' ' ∷ [])
  pub no_device : any (bytes_eq (to_uppercase upper (stem value))) reserved_names ≡ false
  pub short : utf16_count value ≤ max_safe_component_utf16

plain_head :
    (c : ℕ) → (b'/' == c || b'\\' == c || is_control c || is_forbidden c) ≡ false → IsPlain c
unfolding is_control is_forbidden
plain_head c h = (ground arith, ground arith, ground arith)

head_plain :
    (c : ℕ)
    → IsPlain c
    → (b'/' == c ≡ false) × (b'\\' == c ≡ false) × (is_control c ≡ false) × (is_forbidden c ≡ false)
unfolding is_control is_forbidden
head_plain c h = (ground arith, ground arith, ground arith, ground arith)

pub plain_all :
    (value : List ℕ)
    → (any (◌==◌ b'/') value || any (◌==◌ b'\\') value) ≡ false
    → any is_control value ≡ false
    → any is_forbidden value ≡ false
    → All IsPlain value
plain_all [] h k l = tt
plain_all (c ∷ cs) h k l =
    (plain_head c (ground arith), plain_all cs (ground arith) (ground arith) (ground arith))

all_plain :
    (value : List ℕ)
    → All IsPlain value
    → ((any (◌==◌ b'/') value || any (◌==◌ b'\\') value) ≡ false)
      × (any is_control value ≡ false)
      × (any is_forbidden value ≡ false)
all_plain [] h = (refl, refl, refl)
all_plain (c ∷ cs) (h, hs) =
    let (a, b, d, e) = head_plain c h in
    let (x, y, z) = all_plain cs hs in (ground arith, ground arith, ground arith)

ends_with-append : (c : ℕ) (front : List ℕ) → ends_with c (front ++ (c ∷ [])) ≡ true
unfolding ends_with
ends_with-append c [] = ground arith
ends_with-append c (x ∷ []) = ground arith
ends_with-append c (x ∷ y ∷ front) = ends_with-append c (y ∷ front)

ends_with_sound :
    (c : ℕ) (value : List ℕ)
    → ends_with c value ≡ true
    → (front : List ℕ) × (value ≡ front ++ (c ∷ []))
unfolding ends_with
ends_with_sound c [] h = absurd (cc)
ends_with_sound c (x ∷ []) h = let same : x ≡ c = ground arith in ([], rw same refl)
ends_with_sound c (x ∷ y ∷ value) h =
    let (front, e) = ends_with_sound c (y ∷ value) h in (x ∷ front, cc)

no_end :
    (c : ℕ) (value : List ℕ)
    → ends_with c value ≡ false
    → (front : List ℕ) → value ≢ front ++ (c ∷ [])
no_end c value h front e =
    let p = ends_with-append c front in
    let q : ends_with c (front ++ (c ∷ [])) ≡ false = rw (← e) h in cc

end_free :
    (c : ℕ) (value : List ℕ)
    → ((front : List ℕ) → value ≢ front ++ (c ∷ []))
    → ends_with c value ≡ false
end_free c value h = elim (Bool-cases (ends_with c value)) [
  | inl t ↦ let (front, e) = ends_with_sound c value t in absurd (h front e)
  | inr f ↦ f
]

no_traversal :
    (value : List ℕ)
    → ((front : List ℕ) → value ≢ front ++ (b'.' ∷ []))
    → (bytes_eq value (codes ".") || bytes_eq value (codes "..")) ≡ false
no_traversal value h = elim (Bool-cases (bytes_eq value (codes "."))) [
  | inl t ↦ absurd (h [] (bytes_eq_sound value (codes ".") t))
  | inr f ↦ elim (Bool-cases (bytes_eq value (codes ".."))) [
    | inl t ↦ absurd (h (b'.' ∷ []) (bytes_eq_sound value (codes "..") t))
    | inr g ↦ ground arith
  ]
]

module _ (upper : ℕ → List ℕ) where
  validated :
      (value : List ℕ) (index : ℕ)
      → validate_component upper value index ≡ ok tt
      → IsSafe upper value
  unfolding validate_component
  validated value index e =
      let (a, e1) = guard-ok (not (length value == 0)) _ _ e in
      let (b, e2) =
        guard-ok (not (bytes_eq value (codes ".") || bytes_eq value (codes ".."))) _ _ e1 in
      let (c, e3) = guard-ok (not (any (◌==◌ b'/') value || any (◌==◌ b'\\') value)) _ _ e2 in
      let (d, e4) = guard-ok (not (any is_control value)) _ _ e3 in
      let (f, e5) = guard-ok (not (any is_forbidden value)) _ _ e4 in
      let (g, e6) = guard-ok (not (ends_with b'.' value || ends_with b' ' value)) _ _ e5 in
      let (k, e7) = guard-ok (not (is_reserved_windows_name upper value)) _ _ e6 in
      let (l, _) = guard-ok (not (ltb max_safe_component_utf16 (utf16_count value))) _ _ e7 in
      record {
        some_character = ground arith;
        plain = plain_all value (ground arith) (ground arith) (ground arith);
        no_dot_at_end = no_end b'.' value (ground arith);
        no_space_at_end = no_end b' ' value (ground arith);
        no_device = rw (← is_reserved_windows_name_lem upper value) (ground arith);
        short = ground arith;
      }

  -- A component is let through exactly where it is not empty, has only plain characters, ends in
  -- neither a dot nor a space, has at most 255 units in UTF-16, and where what stands before its
  -- first dot is, in capitals, none of the names of devices.
  pub validate_component_iff :
      (value : List ℕ) (index : ℕ)
      → (validate_component upper value index ≡ ok tt) ↔ IsSafe upper value
  unfolding validate_component
  validate_component_iff value index = (
    validated value index,
    λ s.
        let (a, b, c) = all_plain value s.plain in
        let d = no_traversal value s.no_dot_at_end in
        let e = end_free b'.' value s.no_dot_at_end in
        let f = end_free b' ' value s.no_space_at_end in
        let r : is_reserved_windows_name upper value ≡ false =
          is_reserved_windows_name_lem upper value ∙ s.no_device in
        let g : (length value == 0) ≡ false = let h = s.some_character in ground arith in
        let l : ltb max_safe_component_utf16 (utf16_count value) ≡ false =
          let h = s.short in ground arith in
        rw (g, d, a, b, c, e, f, r, l) refl,
  )
