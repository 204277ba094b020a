-- ===== src/Restore/Path/Joined.antt =====
-- Whole paths of crates/restore/src/path.rs: their depth, and their length once they are joined.
use undelete_master.Base.{
  ℕ, suc, ◌+◌, ◌<◌, ◌≤◌, ◌≡◌, ◌↔◌, refl, sym, List, [], ◌∷◌, ◌++◌, length, All, ltb, ◌==◌, ok,
  ok-injective, >>=-eq-ok, arith, false,
}
use undelete_master.Candidate.{join}
use undelete_master.Restore.Texts.{utf16_count}
use undelete_master.Restore.Path.{
  SafeRelativePath, max_safe_path_components, max_safe_path_utf16, separator, checked_path_length,
  validate_depth, validate_component, parse_component, parse_components, try_from_components,
  to_slash_string,
}
use undelete_master.Restore.Path.Safe.{IsSafe, validate_component_iff}

-- What a path that is written under has: a depth from 1 to 256, components that are safe, and at
-- most 32,000 units of UTF-16 with the separators.
pub record IsSafePath (upper : ℕ → List ℕ) (path : SafeRelativePath) : Type 0 where
  pub some_component : 0 < length path.components
  pub depth : length path.components ≤ max_safe_path_components
  pub safe : All (IsSafe upper) path.components
  pub short : utf16_count (to_slash_string path) ≤ max_safe_path_utf16

-- What the components from an index on add to the length.
abbrev pub cost : ℕ → List (List ℕ) → ℕ
cost index [] = 0
cost index (c ∷ cs) = separator index + utf16_count c + cost (suc index) cs

utf16_count-append : (xs ys : List ℕ) → utf16_count (xs ++ ys) ≡ utf16_count xs + utf16_count ys
unfolding utf16_count
utf16_count-append [] ys = omega arith
utf16_count-append (x ∷ xs) ys = omega (arith, utf16_count-append xs ys)

utf16_count-join :
    (index : ℕ) (c : List ℕ) (cs : List (List ℕ))
    → utf16_count (join (c ∷ cs)) ≡ utf16_count c + cost (suc index) cs
unfolding join utf16_count separator
utf16_count-join index c [] = omega arith
utf16_count-join index c (d ∷ cs) =
    rw (utf16_count-append c (b'/' ∷ join (d ∷ cs)), utf16_count-join (suc index) d cs)
      (omega arith)

pub cost-join : (cs : List (List ℕ)) → utf16_count (join cs) ≡ cost 0 cs
unfolding join utf16_count separator
cost-join [] = refl
cost-join (c ∷ cs) = rw (utf16_count-join 0 c cs) (omega arith)

pub checked_path_length-ok :
    (current len index total : ℕ)
    → checked_path_length current len index ≡ ok total
    → (total ≡ current + (separator index + len)) × (total ≤ max_safe_path_utf16)
unfolding checked_path_length
checked_path_length-ok current len index total e = ground arith

pub checked_path_length_fits :
    (current len index : ℕ)
    → current + (separator index + len) ≤ max_safe_path_utf16
    → checked_path_length current len index ≡ ok (current + (separator index + len))
unfolding checked_path_length
checked_path_length_fits current len index h = ground arith

module _ (upper : ℕ → List ℕ) where
  pub parse_component-ok :
      (value : List ℕ) (index : ℕ) (component : List ℕ)
      → parse_component upper value index ≡ ok component
      → (component ≡ value) × IsSafe upper value
  unfolding parse_component
  parse_component-ok value index component e =
      let (t, valid, e1) = >>=-eq-ok (validate_component upper value index) _ e in
      (sym (ok-injective e1), (validate_component_iff upper value index).0 (rw valid refl))

  pub parse_component-IsSafe :
      (value : List ℕ) (index : ℕ)
      → IsSafe upper value
      → parse_component upper value index ≡ ok value
  unfolding parse_component
  parse_component-IsSafe value index s = rw ((validate_component_iff upper value index).1 s) refl

  parsed :
      (index total : ℕ) (raw components : List (List ℕ))
      → total ≤ max_safe_path_utf16
      → parse_components upper index total raw ≡ ok components
      → (components ≡ raw) × All (IsSafe upper) raw × (total + cost index raw ≤ max_safe_path_utf16)
  unfolding parse_components
  parsed index total [] components h e = (sym (ok-injective e), tt, omega arith)
  parsed index total (c ∷ raw) components h e =
      let (safe, first, e1) = >>=-eq-ok (parse_component upper c index) _ e in
      let (same, good) = parse_component-ok c index safe first in
      let (next, length_ok, e2) =
        >>=-eq-ok (checked_path_length total (utf16_count safe) index) _ e1 in
      let (sum, bound) = checked_path_length-ok total (utf16_count safe) index next length_ok in
      let (rest, others, e3) = >>=-eq-ok (parse_components upper (suc index) next raw) _ e2 in
      let (same', good', bound') = parsed (suc index) next raw rest bound others in
      let p : components ≡ safe ∷ rest = sym (ok-injective e3) in
      let q : utf16_count safe ≡ utf16_count c = rw same refl in
      (rw (p, same, same') refl, (good, good'), omega arith)

  parses :
      (index total : ℕ) (raw : List (List ℕ))
      → All (IsSafe upper) raw
      → total + cost index raw ≤ max_safe_path_utf16
      → parse_components upper index total raw ≡ ok raw
  unfolding parse_components
  parses index total [] h k = refl
  parses index total (c ∷ raw) (h, hs) k =
      rw
        (
          parse_component-IsSafe c index h,
          checked_path_length_fits total (utf16_count c) index (omega arith),
          parses (suc index) (total + (separator index + utf16_count c)) raw hs (omega arith),
        )
        refl

  -- Components are taken for a path exactly where the path has from 1 to 256 of them, each is a
  -- safe name, and the path joined with slashes has at most 32,000 units of UTF-16; the path then
  -- has just these components.
  pub try_from_components_iff :
      (raw : List (List ℕ)) (path : SafeRelativePath)
      → (try_from_components upper raw ≡ ok path)
        ↔ ((path.components ≡ raw) × IsSafePath upper path)
  unfolding try_from_components validate_depth to_slash_string
  try_from_components_iff raw path = (
    λ e.
        let (_, deep, e1) = >>=-eq-ok (validate_depth (length raw)) _ e in
        let (components, all_parsed, e2) = >>=-eq-ok (parse_components upper 0 0 raw) _ e1 in
        let (same, safe, bound) = parsed 0 0 raw components (omega arith) all_parsed in
        let p : path.components ≡ raw = rw (← ok-injective e2) same in
        let q : utf16_count (join raw) ≤ max_safe_path_utf16 = rw (cost-join raw) (omega arith) in
        let d : (0 < length raw) × (length raw ≤ max_safe_path_components) =
          (ground arith, ground arith) in
        (
          p,
          record { some_component = rw p d.0; depth = rw p d.1; safe = rw p safe; short = rw p q },
        ),
    λ h.
        let (p, s) = h in
        let bound : cost 0 raw ≤ max_safe_path_utf16 = rw (← cost-join raw, ← p) s.short in
        let safe : All (IsSafe upper) raw = rw (← p) s.safe in
        let d0 : 0 < length raw = rw (← p) s.some_component in
        let d1 : length raw ≤ max_safe_path_components = rw (← p) s.depth in
        let t0 : (length raw == 0) ≡ false = ground arith in
        let t1 : ltb max_safe_path_components (length raw) ≡ false = ground arith in
        rw (t0, t1, parses 0 0 raw safe (omega arith), ← p) refl,
  )
