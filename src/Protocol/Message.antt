-- ===== src/Protocol/Message.antt =====
-- crates/broker-protocol/src/message.rs: the operations that may cross the boundary, and the
-- bounds that each message is held to. A `String` is the list of its UTF-8 bytes. `usize` is 64
-- bits wide, so that a `u32` always fits.
pub mod Codes
pub mod Bounds
use Prim.Native.String.{String}
use undelete_master.Base.{
  ℕ, zero, suc, ◌*◌, ◌+◌, ◌%◌, ◌^◌, Bool, true, false, not, ◌&&◌, ◌||◌, Option, none, some, List,
  [], ◌∷◌, ltb, leb, ◌==◌, if◌then◌else◌, length, Result, ok, err, guard, ok_or, ◌>>=◌, ◌>>◌,
  checked_add,
}
use undelete_master.Base.Powers.{is_power_of_two}
use undelete_master.Protocol.Errors.{ProtocolError}

abbrev pub max_read_len : ℕ
max_read_len = 1024 * 1024

abbrev pub max_source_id_len : ℕ
max_source_id_len = 128

abbrev pub min_sector_size : ℕ
min_sector_size = 512

abbrev pub max_sector_size : ℕ
max_sector_size = 1024 * 1024

pub data Opcode : Type 0 where
  hello hello_ack open_source opened read_at read_data close_source closed shutdown error : Opcode

-- `opcode as u16`
unfoldable pub opcode_code : Opcode → ℕ
opcode_code Opcode.hello = 1
opcode_code Opcode.hello_ack = 2
opcode_code Opcode.open_source = 3
opcode_code Opcode.opened = 4
opcode_code Opcode.read_at = 5
opcode_code Opcode.read_data = 6
opcode_code Opcode.close_source = 7
opcode_code Opcode.closed = 8
opcode_code Opcode.shutdown = 9
opcode_code Opcode.error = 10

-- `Opcode::try_from`
unfoldable pub opcode_from : ℕ → Result ProtocolError Opcode
opcode_from value =
    if value == 1
    then ok Opcode.hello
    else if value == 2
    then ok Opcode.hello_ack
    else if value == 3
    then ok Opcode.open_source
    else if value == 4
    then ok Opcode.opened
    else if value == 5
    then ok Opcode.read_at
    else if value == 6
    then ok Opcode.read_data
    else if value == 7
    then ok Opcode.close_source
    else if value == 8
    then ok Opcode.closed
    else if value == 9
    then ok Opcode.shutdown
    else if value == 10
    then ok Opcode.error
    else err (ProtocolError.unknown_opcode value)

pub data BrokerErrorCode : Type 0 where
  invalid_request authentication_failed source_not_found source_identity_mismatch source_unavailable
        invalid_handle read_out_of_range read_failed source_changed internal_failure :
      BrokerErrorCode

-- `code as u16`
unfoldable pub error_code : BrokerErrorCode → ℕ
error_code BrokerErrorCode.invalid_request = 1
error_code BrokerErrorCode.authentication_failed = 2
error_code BrokerErrorCode.source_not_found = 3
error_code BrokerErrorCode.source_identity_mismatch = 4
error_code BrokerErrorCode.source_unavailable = 5
error_code BrokerErrorCode.invalid_handle = 6
error_code BrokerErrorCode.read_out_of_range = 7
error_code BrokerErrorCode.read_failed = 8
error_code BrokerErrorCode.source_changed = 9
error_code BrokerErrorCode.internal_failure = 10

-- `BrokerErrorCode::try_from`
unfoldable pub error_from : ℕ → Result ProtocolError BrokerErrorCode
error_from value =
    if value == 1
    then ok BrokerErrorCode.invalid_request
    else if value == 2
    then ok BrokerErrorCode.authentication_failed
    else if value == 3
    then ok BrokerErrorCode.source_not_found
    else if value == 4
    then ok BrokerErrorCode.source_identity_mismatch
    else if value == 5
    then ok BrokerErrorCode.source_unavailable
    else if value == 6
    then ok BrokerErrorCode.invalid_handle
    else if value == 7
    then ok BrokerErrorCode.read_out_of_range
    else if value == 8
    then ok BrokerErrorCode.read_failed
    else if value == 9
    then ok BrokerErrorCode.source_changed
    else if value == 10
    then ok BrokerErrorCode.internal_failure
    else err (ProtocolError.unknown_error_code value)

pub data Message : Type 0 where
  hello : (challenge : List ℕ) → Message
  hello_ack : (challenge : List ℕ) → Message
  open_source : (source_id : List ℕ) → Message
  opened : (handle_id size logical_sector physical_sector physical_disk_number : ℕ) → Message
  read_at : (handle_id offset length : ℕ) → Message
  read_data : (bytes : List ℕ) → Message
  close_source : (handle_id : ℕ) → Message
  closed : (handle_id : ℕ) → Message
  shutdown : Message
  error : (code : BrokerErrorCode) → Message

unfoldable pub opcode : Message → Opcode
opcode (Message.hello challenge) = Opcode.hello
opcode (Message.hello_ack challenge) = Opcode.hello_ack
opcode (Message.open_source source_id) = Opcode.open_source
opcode (Message.opened handle_id size logical physical disk) = Opcode.opened
opcode (Message.read_at handle_id offset len) = Opcode.read_at
opcode (Message.read_data bytes) = Opcode.read_data
opcode (Message.close_source handle_id) = Opcode.close_source
opcode (Message.closed handle_id) = Opcode.closed
opcode Message.shutdown = Opcode.shutdown
opcode (Message.error code) = Opcode.error

validate_nonzero : String → ℕ → Result ProtocolError (Unit {0})
validate_nonzero field value =
    if value == 0 then err (ProtocolError.invalid_numeric_value field value) else ok tt

-- `is_ascii_alphanumeric`, or one of five other characters.
unfoldable pub is_identifier_byte : ℕ → Bool
is_identifier_byte byte =
    (leb b'0' byte && leb byte b'9')
    || (leb b'A' byte && leb byte b'Z')
    || (leb b'a' byte && leb byte b'z')
    || byte == b'-'
    || byte == b'_'
    || byte == b'.'
    || byte == b'{'
    || byte == b'}'

-- `value.bytes().enumerate().find(|(_, byte)| !is_identifier_byte(*byte))`, from index `i` on.
find_foreign : ℕ → List ℕ → Option ℕ
find_foreign i [] = none
find_foreign i (b ∷ bs) =
    let rest = find_foreign (suc i) bs in if is_identifier_byte b then rest else some i

validate_identifier : String → List ℕ → ℕ → Result ProtocolError (Unit {0})
unfolding find_foreign
validate_identifier field value maximum = do
  guard (not (length value == 0)) (ProtocolError.empty_field field)
  guard (leb (length value) maximum)
      (ProtocolError.invalid_field_length field (length value) maximum)
  elim (find_foreign 0 value) [
    | none ↦ ok tt
    | some index ↦ err (ProtocolError.invalid_identifier field index)
  ]

-- `is_power_of_two` on a `u32`.
unfoldable pub valid_sector_size : ℕ → Bool
valid_sector_size value =
    leb min_sector_size value && leb value max_sector_size && is_power_of_two value

validate_sector_layout : ℕ → ℕ → Result ProtocolError (Unit {0})
validate_sector_layout logical physical = do
  guard (valid_sector_size logical) (ProtocolError.invalid_numeric_value "logical_sector" logical)
  guard
      (not
        (not (valid_sector_size physical) || ltb physical logical || not (physical % logical == 0)))
      (ProtocolError.invalid_numeric_value "physical_sector" physical)

unfoldable pub validate : Message → Result ProtocolError (Unit {0})
unfolding validate_nonzero validate_identifier validate_sector_layout
validate (Message.open_source source_id) =
    validate_identifier "source_id" source_id max_source_id_len
validate (Message.opened handle_id size logical physical disk) = do
  validate_nonzero "handle_id" handle_id
  validate_nonzero "size" size
  validate_sector_layout logical physical
validate (Message.read_at handle_id offset len) = do
  validate_nonzero "handle_id" handle_id
  guard (not (len == 0 || ltb max_read_len len)) (ProtocolError.invalid_numeric_value "length" len)
  _ ← ok_or (checked_add offset len) ProtocolError.range_overflow
  ok tt
validate (Message.read_data bytes) =
    guard (leb (length bytes) max_read_len)
      (ProtocolError.invalid_field_length "bytes" (length bytes) max_read_len)
validate (Message.close_source handle_id) = validate_nonzero "handle_id" handle_id
validate (Message.closed handle_id) = validate_nonzero "handle_id" handle_id
validate _ = ok tt
