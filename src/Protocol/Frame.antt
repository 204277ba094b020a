-- ===== src/Protocol/Frame.antt =====
-- crates/broker-protocol/src/codec.rs: frames, a header of 20 bytes before each payload.
pub mod Read
pub mod HeaderBytes
pub mod Delivery
pub mod Canonical
use undelete_master.Base.{
  ℕ, ◌+◌, ◌-◌, ◌*◌, ◌^◌, Bool, true, false, not, ◌&&◌, List, [], ◌∷◌, ◌++◌, length, take, drop, ltb,
  leb, ◌==◌, Result, ok, err, ok_or, guard, checked_add, Option, some, none, ◌>>=◌, ◌>>◌, bytes_eq,
  if◌then◌else◌,
}
use undelete_master.Base.Words.{to_le_bytes, from_le_bytes}
use undelete_master.Protocol.Errors.{ProtocolError, ErrorKind}
use undelete_master.Protocol.Message.{Message, Opcode, opcode, opcode_code, opcode_from}
use undelete_master.Protocol.Payload.{encode_payload}
use undelete_master.Protocol.Payload.Writer.{max_payload_len}
use undelete_master.Protocol.Transport.{Writer, write_all}

abbrev pub protocol_magic : List ℕ
protocol_magic = b'U' ∷ b'M' ∷ b'B' ∷ b'P' ∷ []

abbrev pub protocol_version : ℕ
protocol_version = 3

abbrev pub header_len : ℕ
header_len = 20

abbrev pub max_frame_len : ℕ
max_frame_len = header_len + max_payload_len

pub record Frame : Type 0 where
  pub sequence : ℕ
  pub message : Message

unfoldable pub validate_sequence : ℕ → Result ProtocolError (Unit {0})
validate_sequence sequence = guard (not (sequence == 0)) (ProtocolError.invalid_sequence sequence)

-- The 20 bytes in front of a payload of `payload_length` bytes.
unfoldable pub header_bytes : Opcode → ℕ → ℕ → List ℕ
header_bytes op sequence payload_length =
    protocol_magic
    ++ (to_le_bytes 2 protocol_version
        ++ (to_le_bytes 2 (opcode_code op)
            ++ (to_le_bytes 8 sequence ++ to_le_bytes 4 payload_length)))

unfoldable pub encode_frame : ℕ → Message → Result ProtocolError (List ℕ)
unfolding validate_sequence header_bytes
encode_frame sequence message = do
  validate_sequence sequence
  payload ← encode_payload message
  guard (leb (length payload) max_payload_len)
      (ProtocolError.payload_too_large (length payload) max_payload_len)
  frame_length ← ok_or (checked_add header_len (length payload)) ProtocolError.arithmetic_overflow
  guard (leb frame_length max_frame_len)
      (ProtocolError.payload_too_large (length payload) max_payload_len)
  -- `u32::try_from(payload.len())`
  guard (ltb (length payload) (2 ^ 32)) ProtocolError.arithmetic_overflow
  ok (header_bytes (opcode message) sequence (length payload) ++ payload)

unfoldable pub write_frame : ℕ → Message → Writer → Result ProtocolError (Unit {0}) × Writer
write_frame sequence message writer = elim (encode_frame sequence message) [
  | err e ↦ (err e, writer)
  | ok frame ↦ elim ((write_all frame writer).0) [
    | ok u ↦ (ok tt, (write_all frame writer).1)
    | err kind ↦ (err (ProtocolError.io kind), (write_all frame writer).1)
  ]
]

-- The three values that `read_frame` takes from a header.
pub record Header : Type 0 where
  pub opcode : Opcode
  pub sequence : ℕ
  pub payload_length : ℕ

-- The checks of `read_frame` between its two reads, in their order, over the header's fields.
unfoldable pub check_header : List ℕ → ℕ → ℕ → ℕ → ℕ → Result ProtocolError Header
unfolding validate_sequence
check_header magic version opcode_raw seq size = do
  guard (bytes_eq magic protocol_magic) (ProtocolError.invalid_magic magic)
  guard (version == protocol_version) (ProtocolError.unsupported_version version)
  op ← opcode_from opcode_raw
  validate_sequence seq
  guard (leb size max_payload_len) (ProtocolError.payload_too_large size max_payload_len)
  total ← ok_or (checked_add header_len size) ProtocolError.arithmetic_overflow
  guard (leb total max_frame_len) ProtocolError.arithmetic_overflow
  ok (record { opcode = op; sequence = seq; payload_length = size })

unfoldable pub parse_header : List ℕ → Result ProtocolError Header
unfolding check_header
parse_header header =
    check_header (take 4 header) (from_le_bytes (take 2 (drop 4 header)))
      (from_le_bytes (take 2 (drop 6 header))) (from_le_bytes (take 8 (drop 8 header)))
      (from_le_bytes (take 4 (drop 16 header)))
