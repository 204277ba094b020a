-- ===== src/Protocol/Session.antt =====
-- crates/broker-protocol/src/codec.rs: `SessionCodec`, one contiguous sequence of frame numbers in
-- each direction. A method returns its result with the codec and the transport behind it.
pub mod Acceptance
pub mod Lockstep
use undelete_master.Base.{
  ℕ, ◌+◌, ◌-◌, ◌≤◌, Bool, List, Option, none, some, Result, ok, err, ltb, if◌then◌else◌,
  checked_add, checked_sub, ◌>>=◌, ◌>>◌,
}
use undelete_master.Protocol.Errors.{ProtocolError, SequenceDirection}
use undelete_master.Protocol.Message.{Message}
use undelete_master.Protocol.Frame.{Frame, validate_sequence, write_frame}
use undelete_master.Protocol.Frame.Read.{read_frame}
use undelete_master.Protocol.Transport.{ReadEvent, Writer}

pub record SessionCodec : Type 0 where
  pub next_outbound : Option ℕ
  pub next_inbound : Option ℕ

unfoldable pub new : SessionCodec
new = record { next_outbound = some 1; next_inbound = some 1 }

unfoldable pub with_sequences : ℕ → ℕ → Result ProtocolError SessionCodec
with_sequences next_outbound next_inbound = do
  validate_sequence next_outbound
  validate_sequence next_inbound
  ok (record { next_outbound = some next_outbound; next_inbound = some next_inbound })

unfoldable pub write_message :
    SessionCodec → Message → Writer → Result ProtocolError ℕ × SessionCodec × Writer
write_message self message writer = elim (self.next_outbound) [
  | none ↦ (err (ProtocolError.sequence_exhausted SequenceDirection.outbound), self, writer)
  | some sequence ↦ elim ((write_frame sequence message writer).0) [
    | err e ↦ (err e, self, (write_frame sequence message writer).1)
    | ok _ ↦ (
      ok sequence,
      record self { next_outbound = checked_add sequence 1 },
      (write_frame sequence message writer).1,
    )
  ]
]

-- What a frame's number comes to, where `expected` is due.
check_sequence : ℕ → Frame → Result ProtocolError Frame
check_sequence expected frame =
    if ltb frame.sequence expected
    then elim (checked_sub expected 1) [
      | none ↦ err ProtocolError.arithmetic_overflow
      | some last_accepted ↦ err (ProtocolError.replay frame.sequence last_accepted)
    ]
    else if ltb expected frame.sequence
    then err (ProtocolError.out_of_sequence expected frame.sequence)
    else ok frame

unfoldable pub read_message :
    SessionCodec → List ReadEvent → Result ProtocolError Frame × SessionCodec × List ReadEvent
unfolding check_sequence
read_message self events = elim (self.next_inbound) [
  | none ↦ (err (ProtocolError.sequence_exhausted SequenceDirection.inbound), self, events)
  | some expected ↦ elim ((read_frame events).0) [
    | err e ↦ (err e, self, (read_frame events).1)
    | ok frame ↦ elim (check_sequence expected frame) [
      | err e ↦ (err e, self, (read_frame events).1)
      | ok f ↦ (ok f, record self { next_inbound = checked_add expected 1 }, (read_frame events).1)
    ]
  ]
]
