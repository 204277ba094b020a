-- ===== src/Protocol/Message/Bounds.antt =====
-- The semantic bounds of messages: what `validate` lets through.
use undelete_master.Base.{
  ℕ, suc, ◌+◌, ◌*◌, ◌%◌, ◌^◌, ◌≤◌, ◌<◌, ◌≡◌, ◌≢◌, refl, ◌↔◌, true, not, ◌&&◌, ◌||◌, none, List, [],
  ◌∷◌, length, All, ok, arith, leb, u64_max,
}
use undelete_master.Base.Powers.{is_power_of_two_sound, is_power_of_two_pow}
use undelete_master.Base.Tables.{all_below, all_below_sound}
use undelete_master.Protocol.Message.{
  Message, validate, is_identifier_byte, find_foreign, valid_sector_size, max_read_len,
}

-- A sector of 512 bytes to 1 MiB, a power of two.
abbrev pub IsSectorSize : ℕ → Type 0
IsSectorSize v = (k : ℕ) × (9 ≤ k) × (k ≤ 20) × (v ≡ 2 ^ k)

abbrev pub IsIdentifier : List ℕ → Type 0
IsIdentifier s = (0 < length s) × (length s ≤ 128) × All (λ b. is_identifier_byte b ≡ true) s

-- The bounds of the protocol, one for each message.
abbrev pub IsAllowed : Message → Type 0
IsAllowed (Message.open_source source_id) = IsIdentifier source_id
IsAllowed (Message.opened handle_id size logical physical disk) =
    (handle_id ≢ 0)
    × (size ≢ 0)
    × IsSectorSize logical
    × IsSectorSize physical
    × (logical ≤ physical)
    × (physical % logical ≡ 0)
IsAllowed (Message.read_at handle_id offset len) =
    (handle_id ≢ 0) × (0 < len) × (len ≤ max_read_len) × (offset + len ≤ u64_max)
IsAllowed (Message.read_data bytes) = length bytes ≤ max_read_len
IsAllowed (Message.close_source handle_id) = handle_id ≢ 0
IsAllowed (Message.closed handle_id) = handle_id ≢ 0
IsAllowed _ = Unit

exponents :
    all_below 64 (λ k. not (leb 512 (2 ^ k) && leb (2 ^ k) (1024 * 1024)) || (leb 9 k && leb k 20))
    ≡ true
unfolding all_below
exponents = refl

bounded :
    all_below 64 (λ k. not (leb 9 k && leb k 20) || (leb 512 (2 ^ k) && leb (2 ^ k) (1024 * 1024)))
    ≡ true
unfolding all_below
bounded = refl

valid_sector_size_iff : (v : ℕ) → (valid_sector_size v ≡ true) ↔ IsSectorSize v
unfolding valid_sector_size
valid_sector_size_iff v = (
  (λ h.
      let (k, le, e) = is_power_of_two_sound v (ground arith) in
      let t = all_below_sound 64 _ k exponents (omega arith) in (k, ground arith, ground arith, e)),
  (λ s.
      let (k, lo, hi, e) = s in
      let t = all_below_sound 64 _ k bounded (omega arith) in
      rw e (ground (arith, is_power_of_two_pow k (omega arith)))),
)

find_foreign-none :
    (i : ℕ) (bs : List ℕ) → (find_foreign i bs ≡ none) ↔ All (λ b. is_identifier_byte b ≡ true) bs
unfolding find_foreign
find_foreign-none i [] = ((λ h. tt), λ h. refl)
find_foreign-none i (b ∷ bs) = ground (arith, find_foreign-none (suc i) bs)

validate_opened :
    (h s l p d : ℕ)
    → (validate (Message.opened h s l p d) ≡ ok tt) ↔ IsAllowed (Message.opened h s l p d)
unfolding validate
validate_opened h s l p d = (
  (λ e.
      let vl : valid_sector_size l ≡ true = ground arith in
      let vp : valid_sector_size p ≡ true = ground arith in
      (
        ground arith,
        ground arith,
        (valid_sector_size_iff l).0 vl,
        (valid_sector_size_iff p).0 vp,
        ground arith,
        ground arith,
      )),
  (λ a.
      let vl = (valid_sector_size_iff l).1 a.2 in
      let vp = (valid_sector_size_iff p).1 a.3 in ground arith),
)

-- `validate` accepts a message exactly when it is within its bounds.
pub validate_iff : (m : Message) → (validate m ≡ ok tt) ↔ IsAllowed m
unfolding validate
validate_iff (Message.hello c) = ground arith
validate_iff (Message.hello_ack c) = ground arith
validate_iff (Message.open_source s) = ground (arith, find_foreign-none 0 s)
validate_iff (Message.opened h s l p d) = validate_opened h s l p d
validate_iff (Message.read_at h o n) = ground arith
validate_iff (Message.read_data bytes) = ground arith
validate_iff (Message.close_source h) = ground arith
validate_iff (Message.closed h) = ground arith
validate_iff Message.shutdown = ground arith
validate_iff (Message.error c) = ground arith
