-- ===== src/Protocol/Payload.antt =====
-- crates/broker-protocol/src/codec.rs: the payload of each message.
pub mod Writer
pub mod Reader
pub mod Cursor
pub mod Layout
pub mod RoundTrip
pub mod Inverse
pub mod Fields
pub mod Canonical
use undelete_master.Base.{ℕ, List, ok, Result, ◌>>=◌, ◌>>◌}
use undelete_master.Protocol.Errors.{ProtocolError}
use undelete_master.Protocol.Message.{
  Message, Opcode, BrokerErrorCode, error_code, error_from, validate, max_source_id_len,
}
use Writer.{PayloadWriter}
use Reader.{PayloadReader}

-- The `match` of `encode_payload`: the fields of a message, in order.
unfoldable pub write_fields : PayloadWriter → Message → Result ProtocolError PayloadWriter
write_fields payload (Message.hello challenge) = Writer.bytes payload challenge
write_fields payload (Message.hello_ack challenge) = Writer.bytes payload challenge
write_fields payload Message.shutdown = ok payload
write_fields payload (Message.open_source source_id) = Writer.identifier payload source_id
write_fields payload (Message.opened handle_id size logical physical disk) = do
  p1 ← Writer.u64 payload handle_id
  p2 ← Writer.u64 p1 size
  p3 ← Writer.u32 p2 logical
  p4 ← Writer.u32 p3 physical
  Writer.u32 p4 disk
write_fields payload (Message.read_at handle_id offset len) = do
  p1 ← Writer.u64 payload handle_id
  p2 ← Writer.u64 p1 offset
  Writer.u32 p2 len
write_fields payload (Message.read_data bytes) = Writer.bytes payload bytes
write_fields payload (Message.close_source handle_id) = Writer.u64 payload handle_id
write_fields payload (Message.closed handle_id) = Writer.u64 payload handle_id
write_fields payload (Message.error code) = Writer.u16 payload (error_code code)

unfoldable pub encode_payload : Message → Result ProtocolError (List ℕ)
encode_payload message = do
  validate message
  payload ← write_fields Writer.new message
  ok (Writer.finish payload)

-- The `match` of `decode_payload` over the operations that the cursor reads. `read_data` is
-- handled before the cursor is made: the source's arm for it is `unreachable!`, and here it
-- returns what the earlier test returns.
unfoldable pub read_fields : PayloadReader → Opcode → Result ProtocolError (Message × PayloadReader)
read_fields reader Opcode.hello = do
  (challenge, r) ← Reader.array_32 reader
  ok (Message.hello challenge, r)
read_fields reader Opcode.hello_ack = do
  (challenge, r) ← Reader.array_32 reader
  ok (Message.hello_ack challenge, r)
read_fields reader Opcode.open_source = do
  (source_id, r) ← Reader.identifier reader "source_id" max_source_id_len
  ok (Message.open_source source_id, r)
read_fields reader Opcode.opened = do
  (handle_id, r1) ← Reader.u64 reader
  (size, r2) ← Reader.u64 r1
  (logical, r3) ← Reader.u32 r2
  (physical, r4) ← Reader.u32 r3
  (disk, r5) ← Reader.u32 r4
  ok (Message.opened handle_id size logical physical disk, r5)
read_fields reader Opcode.read_at = do
  (handle_id, r1) ← Reader.u64 reader
  (offset, r2) ← Reader.u64 r1
  (len, r3) ← Reader.u32 r2
  ok (Message.read_at handle_id offset len, r3)
read_fields reader Opcode.close_source = do
  (handle_id, r) ← Reader.u64 reader
  ok (Message.close_source handle_id, r)
read_fields reader Opcode.closed = do
  (handle_id, r) ← Reader.u64 reader
  ok (Message.closed handle_id, r)
read_fields reader Opcode.shutdown = ok (Message.shutdown, reader)
read_fields reader Opcode.error = do
  (value, r) ← Reader.u16 reader
  code ← error_from value
  ok (Message.error code, r)
read_fields reader Opcode.read_data = ok (Message.read_data reader.bytes, reader)

unfoldable pub decode_payload : Opcode → List ℕ → Result ProtocolError Message
decode_payload Opcode.read_data payload = do
  let message = Message.read_data payload
  validate message
  ok message
decode_payload opcode payload = do
  (message, reader) ← read_fields (Reader.new opcode payload) opcode
  Reader.finish reader
  validate message
  ok message
