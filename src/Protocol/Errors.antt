-- ===== src/Protocol/Errors.antt =====
-- crates/broker-protocol/src/error.rs: the errors, and the kinds of `std::io::Error` that the
-- code tells apart.
use Prim.Native.String.{String}
use undelete_master.Base.{ℕ, List}

pub data FramePart : Type 0 where
  header payload : FramePart

pub data SequenceDirection : Type 0 where
  inbound outbound : SequenceDirection

-- `std::io::ErrorKind`; `other` stands for every kind that no branch names.
pub data ErrorKind : Type 0 where
  interrupted unexpected_eof invalid_data : ErrorKind
  other : ℕ → ErrorKind

pub data ProtocolError : Type 0 where
  io : ErrorKind → ProtocolError
  truncated : (part : FramePart) (expected actual : ℕ) → ProtocolError
  invalid_magic : (actual : List ℕ) → ProtocolError
  unsupported_version : (actual : ℕ) → ProtocolError
  unknown_opcode : (actual : ℕ) → ProtocolError
  payload_too_large : (length maximum : ℕ) → ProtocolError
  payload_underflow : (opcode needed remaining : ℕ) → ProtocolError
  trailing_payload : (opcode remaining : ℕ) → ProtocolError
  invalid_utf8 : (field : String) → ProtocolError
  empty_field : (field : String) → ProtocolError
  invalid_field_length : (field : String) (length maximum : ℕ) → ProtocolError
  invalid_identifier : (field : String) (index : ℕ) → ProtocolError
  invalid_numeric_value : (field : String) (value : ℕ) → ProtocolError
  unknown_error_code : (actual : ℕ) → ProtocolError
  range_overflow arithmetic_overflow : ProtocolError
  invalid_sequence : (actual : ℕ) → ProtocolError
  replay : (sequence last_accepted : ℕ) → ProtocolError
  out_of_sequence : (expected actual : ℕ) → ProtocolError
  sequence_exhausted : (direction : SequenceDirection) → ProtocolError
  trailing_frame_bytes : (count : ℕ) → ProtocolError
