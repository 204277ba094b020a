-- ===== src/Partition/Gpt/Guid.antt =====
-- crates/partition/src/gpt.rs: the text of a GUID, its description, and the name of a partition.
use undelete_master.Base.{
  ℕ, zero, suc, ◌+◌, ◌-◌, ◌*◌, ◌/◌, ◌%◌, Bool, not, ◌&&◌, Option, none, some, List, [], ◌∷◌, ◌++◌,
  ltb, leb, ◌==◌, if◌then◌else◌, length, take, drop, bytes_eq,
}
use undelete_master.Base.Texts.{codes}
use undelete_master.Base.Words.{from_le_bytes}

-- `{:0wX}` of a number below 16 ^ w.
unfoldable pub hex_digit : ℕ → ℕ
hex_digit d = if ltb d 10 then b'0' + d else b'A' + (d - 10)

unfoldable pub hex : ℕ → ℕ → List ℕ
hex zero v = []
hex (suc w) v = hex w (v / 16) ++ (hex_digit (v % 16) ∷ [])

unfoldable pub hex_bytes : List ℕ → List ℕ
hex_bytes [] = []
hex_bytes (b ∷ bs) = hex 2 b ++ hex_bytes bs

unfoldable pub format_guid : List ℕ → Option (List ℕ)
format_guid raw =
    let d1 = from_le_bytes (take 4 raw) in
    let d2 = from_le_bytes (take 2 (drop 4 raw)) in
    let d3 = from_le_bytes (take 2 (drop 6 raw)) in
    let dash : ℕ = b'-' in
    if not (length raw == 16)
    then none
    else some (
        hex 8 d1
        ++ (dash ∷ hex 4 d2)
        ++ (dash ∷ hex 4 d3)
        ++ (dash ∷ hex_bytes (take 2 (drop 8 raw)))
        ++ (dash ∷ hex_bytes (drop 10 raw)))

unfoldable pub guid_description : List ℕ → List ℕ
guid_description guid =
    if bytes_eq guid (codes "EBD0A0A2-B9E5-4433-87C0-68B6B72699C7")
    then codes "Microsoft basic data"
    else if bytes_eq guid (codes "C12A7328-F81F-11D2-BA4B-00A0C93EC93B")
    then codes "EFI system"
    else if bytes_eq guid (codes "E3C9E316-0B5C-4DB8-817D-F92DF00215AE")
    then codes "Microsoft reserved"
    else if bytes_eq guid (codes "DE94BBA4-06D1-4D40-A16A-BFD50179D6AC")
    then codes "Windows recovery"
    else if bytes_eq guid (codes "0FC63DAF-8483-4772-8E79-3D69D8477DE4")
    then codes "Linux filesystem"
    else codes "Unknown GPT type"

-- `chunks_exact(2)` as little-endian units, up to the first 0.
unfoldable pub name_units : List ℕ → List ℕ
name_units [] = []
name_units (a ∷ []) = []
name_units (a ∷ b ∷ bytes) =
    let rest = name_units bytes in
    let u = from_le_bytes (a ∷ b ∷ []) in if u == 0 then [] else u ∷ rest

abbrev high_surrogate : ℕ → Bool
high_surrogate u = leb 0xd800 u && ltb u 0xdc00

abbrev low_surrogate : ℕ → Bool
low_surrogate u = leb 0xdc00 u && ltb u 0xe000

-- `String::from_utf16_lossy`, as characters: a pair of surrogates is one character, and a lone one
-- becomes the replacement character.
unfoldable pub from_utf16_lossy : List ℕ → List ℕ
from_utf16_lossy [] = []
from_utf16_lossy (u ∷ []) =
    (if high_surrogate u then 0xfffd else if low_surrogate u then 0xfffd else u) ∷ []
from_utf16_lossy (u ∷ v ∷ units) =
    let pair = from_utf16_lossy units in
    let one = from_utf16_lossy (v ∷ units) in
    if high_surrogate u
    then (if low_surrogate v
        then (0x10000 + (u - 0xd800) * 0x400 + (v - 0xdc00)) ∷ pair
        else 0xfffd ∷ one)
    else if low_surrogate u
    then 0xfffd ∷ one
    else u ∷ one
