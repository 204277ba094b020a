-- ===== src/Protocol/Payload/Reader.antt =====
-- crates/broker-protocol/src/codec.rs: `PayloadReader`, a cursor over a payload.
use Prim.Native.String.{String}
use undelete_master.Base.{
  ℕ, Bool, true, false, List, length, take, drop, leb, ◌==◌, ok, err, ok_or, guard, Result, ◌>>=◌,
  ◌>>◌, checked_add, checked_sub,
}
use undelete_master.Base.Words.{from_le_bytes}
use undelete_master.Protocol.Errors.{ProtocolError}
use undelete_master.Protocol.Message.{Opcode, opcode_code}
use undelete_master.Base.Utf8.{is_utf8}

pub record PayloadReader : Type 0 where
  pub opcode : Opcode
  pub bytes : List ℕ
  pub position : ℕ

unfoldable pub new : Opcode → List ℕ → PayloadReader
new opcode bytes = record { opcode = opcode; bytes = bytes; position = 0 }

-- The failing branch of `take`.
underflow : PayloadReader → ℕ → Bool → Result ProtocolError (Unit {0})
underflow self count true = ok tt
underflow self count false = do
  remaining ←
      ok_or (checked_sub (length self.bytes) self.position) ProtocolError.arithmetic_overflow
  err (ProtocolError.payload_underflow (opcode_code self.opcode) count remaining)

-- The method `take`: the next `count` bytes, and the reader behind them.
unfoldable pub take_bytes : PayloadReader → ℕ → Result ProtocolError (List ℕ × PayloadReader)
unfolding underflow
take_bytes self count = do
  stop ← ok_or (checked_add self.position count) ProtocolError.arithmetic_overflow
  underflow self count (leb stop (length self.bytes))
  ok (take count (drop self.position self.bytes), record self { position = stop })

unfoldable pub u16 : PayloadReader → Result ProtocolError (ℕ × PayloadReader)
u16 self = do (bytes, self') ← take_bytes self 2; ok (from_le_bytes bytes, self')

unfoldable pub u32 : PayloadReader → Result ProtocolError (ℕ × PayloadReader)
u32 self = do (bytes, self') ← take_bytes self 4; ok (from_le_bytes bytes, self')

unfoldable pub u64 : PayloadReader → Result ProtocolError (ℕ × PayloadReader)
u64 self = do (bytes, self') ← take_bytes self 8; ok (from_le_bytes bytes, self')

unfoldable pub array_32 : PayloadReader → Result ProtocolError (List ℕ × PayloadReader)
array_32 self = take_bytes self 32

unfoldable pub identifier :
    PayloadReader → String → ℕ → Result ProtocolError (List ℕ × PayloadReader)
identifier self field maximum = do
  (count, self') ← u16 self
  guard (leb count maximum) (ProtocolError.invalid_field_length field count maximum)
  (bytes, self'') ← take_bytes self' count
  guard (is_utf8 bytes) (ProtocolError.invalid_utf8 field)
  ok (bytes, self'')

unfoldable pub finish : PayloadReader → Result ProtocolError (Unit {0})
finish self = do
  remaining ←
      ok_or (checked_sub (length self.bytes) self.position) ProtocolError.arithmetic_overflow
  guard (remaining == 0) (ProtocolError.trailing_payload (opcode_code self.opcode) remaining)
