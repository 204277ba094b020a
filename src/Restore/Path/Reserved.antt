-- ===== src/Restore/Path/Reserved.antt =====
-- The names of the devices of Windows as one list, against the tests of crates/restore/src/path.rs.
use undelete_master.Base.{
  ℕ, ◌≡◌, refl, Bool, false, ◌||◌, inl, inr, Option, none, some, List, [], ◌∷◌, ◌++◌, map, any,
  bytes_eq, arith, Option-cases,
}
use undelete_master.Base.Texts.{codes}
use undelete_master.Restore.Texts.{strip_prefix, stem}
use undelete_master.Restore.Path.{
  suffixes, devices, is_numbered_device, is_reserved_windows_name, to_uppercase,
}

abbrev pub reserved_names : List (List ℕ)
reserved_names = (devices ++ map (◌++◌ (codes "COM")) suffixes) ++ map (◌++◌ (codes "LPT")) suffixes

abbrev rest_is : Option (List ℕ) → List ℕ → Bool
rest_is none suffix = false
rest_is (some rest) suffix = bytes_eq rest suffix

strip_prefix-bytes_eq :
    (prefix name suffix : List ℕ)
    → bytes_eq name (prefix ++ suffix) ≡ rest_is (strip_prefix prefix name) suffix
unfolding strip_prefix
strip_prefix-bytes_eq [] name suffix = refl
strip_prefix-bytes_eq (p ∷ prefix) [] suffix = refl
strip_prefix-bytes_eq (p ∷ prefix) (c ∷ name) suffix =
    ground (arith, strip_prefix-bytes_eq prefix name suffix)

any_suffix :
    (prefix name : List ℕ) (us : List (List ℕ))
    → any (bytes_eq name) (map (◌++◌ prefix) us) ≡ any (rest_is (strip_prefix prefix name)) us
any_suffix prefix name [] = refl
any_suffix prefix name (u ∷ us) =
    rw (strip_prefix-bytes_eq prefix name u, any_suffix prefix name us) refl

is_numbered_device_lem :
    (name prefix : List ℕ)
    → is_numbered_device name prefix ≡ any (bytes_eq name) (map (◌++◌ prefix) suffixes)
unfolding is_numbered_device
is_numbered_device_lem name prefix = elim (Option-cases (strip_prefix prefix name)) [
  | inl e ↦ rw (any_suffix prefix name suffixes, is_numbered_device, e) refl
  | inr (rest, e) ↦ rw (any_suffix prefix name suffixes, is_numbered_device, e) refl
]

any-append :
    (name : List ℕ) (xs ys : List (List ℕ))
    → any (bytes_eq name) (xs ++ ys) ≡ (any (bytes_eq name) xs || any (bytes_eq name) ys)
any-append name [] ys = refl
any-append name (x ∷ xs) ys = ground (arith, any-append name xs ys)

module _ (upper : ℕ → List ℕ) where
  -- The code's test is whether the name before the first dot is one of the list.
  pub is_reserved_windows_name_lem :
      (value : List ℕ)
      → is_reserved_windows_name upper value
        ≡ any (bytes_eq (to_uppercase upper (stem value))) reserved_names
  unfolding is_reserved_windows_name
  is_reserved_windows_name_lem value =
      let name = to_uppercase upper (stem value) in
      let with_com = map (◌++◌ (codes "COM")) suffixes in
      let with_lpt = map (◌++◌ (codes "LPT")) suffixes in
      rw
        (
          any-append name (devices ++ with_com) with_lpt,
          any-append name devices with_com,
          is_numbered_device_lem name (codes "COM"),
          is_numbered_device_lem name (codes "LPT"),
        )
        refl
