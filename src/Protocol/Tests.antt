-- ===== src/Protocol/Tests.antt =====
-- Runs of the protocol code, and the theorems at concrete messages and streams.
use undelete_master.Base.{
  ℕ, ◌<◌, ◌≡◌, ◌↔◌, refl, some, List, [], ◌∷◌, length, ok, arith, checked_add,
}
use undelete_master.Base.Words.{all_IsByte}
use undelete_master.Protocol.Errors.{FramePart, ErrorKind}
use undelete_master.Protocol.Message.{Message, opcode_code, opcode, validate}
use undelete_master.Protocol.Message.Bounds.{validate_iff}
use undelete_master.Protocol.Payload.{encode_payload, write_fields}
use undelete_master.Protocol.Payload.Writer
use undelete_master.Protocol.Payload.Layout.{layout}
use undelete_master.Protocol.Transport.{
  ReadEvent, chunk, fault, Writer, write_all, read_exact_bounded,
}
use undelete_master.Protocol.Transport.Chunks.{contents, Delivers, read_exact_bounded_steady}
use undelete_master.Protocol.Transport.Taken.{read_exact_bounded_taken}
use undelete_master.Protocol.Frame.{Frame, header_bytes, write_frame, encode_frame}
use undelete_master.Protocol.Frame.Read.{read_frame, decode_frame}
use undelete_master.Protocol.Frame.Delivery.{read_frame-encode_frame, decode_frame-encode_frame}
use undelete_master.Protocol.Frame.Canonical.{encode_frame-decode_frame}
use undelete_master.Protocol.Session.{SessionCodec, new, read_message, write_message}
use undelete_master.Protocol.Session.Acceptance.{
  accepted, IsNumbered, read_message_iff, read_message-IsNumbered,
}
use undelete_master.Protocol.Session.Lockstep.{send_all, receive_all, stream, receive_all-send_all}

abbrev read_request : Message
read_request = Message.read_at 7 4096 512

-- "UMBP", version 3, operation 5, number 3, 20 bytes of payload.
abbrev request_frame : List ℕ
request_frame =
    85 ∷ 77 ∷ 66 ∷ 80 ∷ 3 ∷ 0 ∷ 5 ∷ 0 ∷ 3 ∷ 0 ∷ 0 ∷ 0 ∷ 0 ∷ 0 ∷ 0 ∷ 0 ∷ 20 ∷ 0 ∷ 0 ∷ 0 ∷ 7 ∷ 0 ∷ 0
    ∷ 0 ∷ 0 ∷ 0 ∷ 0 ∷ 0 ∷ 0 ∷ 16 ∷ 0 ∷ 0 ∷ 0 ∷ 0 ∷ 0 ∷ 0 ∷ 0 ∷ 2 ∷ 0 ∷ 0 ∷ []

-- The frame in two chunks, with an interruption between them.
abbrev request_events : List ReadEvent
request_events =
    chunk (85 ∷ 77 ∷ 66 ∷ [])
    ∷ fault ErrorKind.interrupted
    ∷ chunk (
        80 ∷ 3 ∷ 0 ∷ 5 ∷ 0 ∷ 3 ∷ 0 ∷ 0 ∷ 0 ∷ 0 ∷ 0 ∷ 0 ∷ 0 ∷ 20 ∷ 0 ∷ 0 ∷ 0 ∷ 7 ∷ 0 ∷ 0 ∷ 0 ∷ 0 ∷ 0
        ∷ 0 ∷ 0 ∷ 0 ∷ 16 ∷ 0 ∷ 0 ∷ 0 ∷ 0 ∷ 0 ∷ 0 ∷ 0 ∷ 2 ∷ 0 ∷ 0 ∷ [])
    ∷ []

abbrev request : Frame
request = record { sequence = 3; message = read_request }

encodes : encode_frame 3 read_request ≡ ok request_frame
unfolding encode_frame encode_payload validate write_fields Writer.u64 Writer.bytes Writer.new
    Writer.u32 Writer.finish opcode_code opcode
encodes = refl

reads : (read_frame request_events).0 ≡ ok request
reads =
    (read_frame-encode_frame 3 read_request request_frame request_events []
      (omega arith, omega arith, omega arith) (omega arith) encodes (omega arith, (omega arith, tt))
      refl).result

validate_iff_example : validate read_request ≡ ok tt
validate_iff_example =
    (validate_iff read_request).1 (omega arith, omega arith, omega arith, omega arith)

decode_frame-encode_frame_run : decode_frame request_frame ≡ ok request
decode_frame-encode_frame_run =
    decode_frame-encode_frame 3 read_request request_frame (omega arith, omega arith, omega arith)
      (omega arith) encodes

encode_frame-decode_frame_example : encode_frame 3 read_request ≡ ok request_frame
encode_frame-decode_frame_example =
    encode_frame-decode_frame request_frame request (all_IsByte request_frame refl)
      decode_frame-encode_frame_run

read_frame-encode_frame_example : Delivers (read_frame request_events) request []
read_frame-encode_frame_example =
    read_frame-encode_frame 3 read_request request_frame request_events []
      (omega arith, omega arith, omega arith) (omega arith) encodes (omega arith, (omega arith, tt))
      refl

read_exact_bounded_steady_example :
    Delivers (read_exact_bounded 4 FramePart.header request_events) (85 ∷ 77 ∷ 66 ∷ 80 ∷ []) (
      3 ∷ 0 ∷ 5 ∷ 0 ∷ 3 ∷ 0 ∷ 0 ∷ 0 ∷ 0 ∷ 0 ∷ 0 ∷ 0 ∷ 20 ∷ 0 ∷ 0 ∷ 0 ∷ 7 ∷ 0 ∷ 0 ∷ 0 ∷ 0 ∷ 0 ∷ 0 ∷ 0
      ∷ 0 ∷ 16 ∷ 0 ∷ 0 ∷ 0 ∷ 0 ∷ 0 ∷ 0 ∷ 0 ∷ 2 ∷ 0 ∷ 0 ∷ [])
read_exact_bounded_steady_example =
    read_exact_bounded_steady FramePart.header 4 request_events (85 ∷ 77 ∷ 66 ∷ 80 ∷ []) _
      (omega arith, (omega arith, tt)) refl refl (omega arith)

read_exact_bounded_taken_run :
    (length {A = ℕ} (85 ∷ 77 ∷ []) ≡ 2)
    × (contents request_events
        ≡ 85 ∷ 77 ∷ contents (read_exact_bounded 2 FramePart.header request_events).1)
read_exact_bounded_taken_run =
    read_exact_bounded_taken 2 FramePart.header request_events (85 ∷ 77 ∷ []) (omega arith)
      (unfold read_exact_bounded in refl)

abbrev third : SessionCodec
third = record { next_outbound = some 1; next_inbound = some 3 }

abbrev behind_third : SessionCodec × List ReadEvent
behind_third = ((read_message third request_events).1, (read_message third request_events).2)

read_message_iff_example :
    (read_message third request_events ≡ (ok request, behind_third.0, behind_third.1)) ↔ (
      (read_frame request_events ≡ (ok request, behind_third.1))
      × (third.next_inbound ≡ some 3)
      × (behind_third.0 ≡ record third { next_inbound = checked_add 3 1 }))
read_message_iff_example =
    read_message_iff third behind_third.0 request_events behind_third.1 request

read_message-IsNumbered_example : IsNumbered (some 3) (accepted 4 third request_events)
read_message-IsNumbered_example = read_message-IsNumbered 4 third request_events

abbrev idle : Writer
idle = record { written = []; outcomes = [] }

abbrev two_messages : List Message
two_messages = read_request ∷ Message.shutdown ∷ []

sent_bytes : (send_all new two_messages idle).2.written ≡ stream 1 two_messages
unfolding new send_all header_bytes write_message write_frame encode_frame encode_payload validate
    write_fields Writer.u64 Writer.bytes Writer.new Writer.u32 Writer.finish write_all layout
sent_bytes = refl

sent_some : 0 < length (stream 1 two_messages)
unfolding layout header_bytes
sent_some = omega arith

receive_all-send_all_example :
    let sent = stream 1 two_messages in
    ((send_all new two_messages idle).0 ≡ ok tt)
    × ((receive_all 2 new (chunk sent ∷ [])).0 ≡ ok two_messages)
    × ((send_all new two_messages idle).1.next_outbound
        ≡ (receive_all 2 new (chunk sent ∷ [])).1.next_inbound)
    × (contents (receive_all 2 new (chunk sent ∷ [])).2 ≡ [])
unfolding new
receive_all-send_all_example =
    receive_all-send_all new new two_messages 1 idle (stream 1 two_messages)
      (chunk (stream 1 two_messages) ∷ []) []
      (
        (
          (omega arith, omega arith, omega arith),
          (omega arith, omega arith, omega arith, omega arith),
        ),
        ((tt, tt), tt),
      )
      (omega arith) (omega arith) refl refl refl sent_bytes (sent_some, tt) refl
