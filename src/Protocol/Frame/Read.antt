-- ===== src/Protocol/Frame/Read.antt =====
-- crates/broker-protocol/src/codec.rs: `read_frame` over a transport, `decode_frame` over a slice.
use undelete_master.Base.{
  ℕ, ◌-◌, ◌==◌, List, [], ◌∷◌, length, Result, ok, ok_or, guard, checked_sub,
}
use undelete_master.Protocol.Errors.{ProtocolError, FramePart}
use undelete_master.Protocol.Payload.{decode_payload}
use undelete_master.Protocol.Frame.{Frame, header_len, parse_header}
use undelete_master.Protocol.Transport.{Reading, ◌>>=◌, ◌>>◌, lift, chunk, read_exact_bounded}
use undelete_master.Protocol.Transport.Chunks.{contents}

unfoldable pub read_frame : Reading Frame
read_frame = do
  bytes ← read_exact_bounded header_len FramePart.header
  header ← lift (parse_header bytes)
  payload ← read_exact_bounded header.payload_length FramePart.payload
  message ← lift (decode_payload header.opcode payload)
  lift (ok (record { sequence = header.sequence; message = message }))

-- A `Cursor` over a slice has all of it ready; its position is what it has delivered.
decode_from : List ℕ → Reading Frame
decode_from bytes = do
  frame ← read_frame
  consumed ← λ events. (ok (length bytes - length (contents events)), events)
  trailing ← lift (ok_or (checked_sub (length bytes) consumed) ProtocolError.arithmetic_overflow)
  lift (guard (trailing == 0) (ProtocolError.trailing_frame_bytes trailing))
  lift (ok frame)

unfoldable pub decode_frame : List ℕ → Result ProtocolError Frame
unfolding decode_from
decode_frame bytes = (decode_from bytes (chunk bytes ∷ [])).0
