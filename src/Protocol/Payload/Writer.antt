-- ===== src/Protocol/Payload/Writer.antt =====
-- crates/broker-protocol/src/codec.rs: `PayloadWriter`, which appends fields up to the payload's
-- maximum.
use undelete_master.Base.{
  ℕ, List, [], ◌++◌, length, leb, ok, ok_or, guard, Result, ◌>>=◌, ◌>>◌, checked_add,
}
use undelete_master.Base.Words.{to_le_bytes}
use undelete_master.Protocol.Errors.{ProtocolError}
use undelete_master.Protocol.Message.{max_read_len}

abbrev pub max_payload_len : ℕ
max_payload_len = max_read_len

pub record PayloadWriter : Type 0 where
  pub bytes : List ℕ

unfoldable pub new : PayloadWriter
new = record { bytes = [] }

unfoldable pub bytes : PayloadWriter → List ℕ → Result ProtocolError PayloadWriter
bytes self value = do
  new_length ←
      ok_or (checked_add (length self.bytes) (length value)) ProtocolError.arithmetic_overflow
  guard (leb new_length max_payload_len)
      (ProtocolError.payload_too_large new_length max_payload_len)
  ok (record { bytes = self.bytes ++ value })

unfoldable pub u16 : PayloadWriter → ℕ → Result ProtocolError PayloadWriter
u16 self value = bytes self (to_le_bytes 2 value)

unfoldable pub u32 : PayloadWriter → ℕ → Result ProtocolError PayloadWriter
u32 self value = bytes self (to_le_bytes 4 value)

unfoldable pub u64 : PayloadWriter → ℕ → Result ProtocolError PayloadWriter
u64 self value = bytes self (to_le_bytes 8 value)

-- `u16::try_from(value.len())` fails above 65,535.
unfoldable pub identifier : PayloadWriter → List ℕ → Result ProtocolError PayloadWriter
identifier self value = do
  guard (leb (length value) 65535) ProtocolError.arithmetic_overflow
  self' ← u16 self (length value)
  bytes self' value

unfoldable pub finish : PayloadWriter → List ℕ
finish self = self.bytes
