-- ===== src/Protocol/Frame/Canonical.antt =====
-- What the frame reader accepts is exactly what the encoder writes.
use undelete_master.Base.{
  ℕ, ◌-◌, ◌≤◌, ◌≡◌, ◌≢◌, List, [], ◌∷◌, ◌++◌, length, ok, arith, sym, ap, ◌∙◌, inl, inr,
  append_assoc, length-append, append-nil, All, All-split, eq-nil_of_length, Result-cases,
}
use undelete_master.Base.Words.{IsByte, IsU64}
use undelete_master.Protocol.Errors.{FramePart}
use undelete_master.Protocol.Message.{opcode}
use undelete_master.Protocol.Message.Bounds.{IsAllowed}
use undelete_master.Protocol.Payload.{decode_payload}
use undelete_master.Protocol.Payload.Layout.{IsTyped, layout}
use undelete_master.Protocol.Payload.Canonical.{encode_payload-decode_payload}
use undelete_master.Protocol.Transport.{ReadEvent, chunk, read_exact_bounded}
use undelete_master.Protocol.Transport.Chunks.{contents}
use undelete_master.Protocol.Transport.Taken.{read_exact_bounded_taken}
use undelete_master.Protocol.Frame.{Frame, Header, header_bytes, encode_frame, parse_header}
use undelete_master.Protocol.Frame.Read.{read_frame, decode_frame}
use undelete_master.Protocol.Frame.HeaderBytes.{header_bytes-parse_header}
use undelete_master.Protocol.Frame.Delivery.{frame_bytes, encode_frame_lem}

-- The four steps of a read that succeeded.
read_frame_steps :
    (events : List ReadEvent) (f : Frame)
    → (read_frame events).0 ≡ ok f
    → (bytes payload : List ℕ) × (h : Header) × ((read_exact_bounded 20 FramePart.header events).0
        ≡ ok bytes)
      × (parse_header bytes ≡ ok h)
      × ((read_exact_bounded h.payload_length FramePart.payload
            (read_exact_bounded 20 FramePart.header events).1).0
          ≡ ok payload)
      × (decode_payload h.opcode payload ≡ ok f.message)
      × (h.sequence ≡ f.sequence)
      × ((read_frame events).1
          ≡ (read_exact_bounded h.payload_length FramePart.payload
              (read_exact_bounded 20 FramePart.header events).1).1)
unfolding read_frame
read_frame_steps events f e =
    elim (Result-cases (read_exact_bounded 20 FramePart.header events).0) [
      | inr (x, p1) ↦ absurd (ground arith)
      | inl (bytes, p1) ↦ elim (Result-cases (parse_header bytes)) [
        | inr (x, p2) ↦ absurd (ground arith)
        | inl (h, p2) ↦
            let r2 =
              read_exact_bounded h.payload_length FramePart.payload
                (read_exact_bounded 20 FramePart.header events).1 in
            elim (Result-cases r2.0) [
              | inr (x, p3) ↦ absurd (ground arith)
              | inl (payload, p3) ↦ elim (Result-cases (decode_payload h.opcode payload)) [
                | inr (x, p4) ↦ absurd (ground arith)
                | inl (m, p4) ↦
                    (bytes, payload, h, p1, p2, p3, ground arith, ground arith, ground arith)
              ]
            ]
      ]
    ]

-- A frame that is accepted stands on the transport as the encoder would write it.
assemble :
    (f : Frame) (h : Header) (bytes payload stream mid rest : List ℕ)
    → stream ≡ bytes ++ mid
    → mid ≡ payload ++ rest
    → header_bytes h.opcode h.sequence h.payload_length ≡ bytes
    → opcode f.message ≡ h.opcode
    → h.sequence ≡ f.sequence
    → layout f.message ≡ payload
    → length payload ≡ h.payload_length
    → stream ≡ frame_bytes f.sequence f.message ++ rest
assemble f h bytes payload stream mid rest c1 c2 same op p5 lay l2 =
    rw (lay, op, ← p5, l2, same) (c1 ∙ ap (◌++◌ bytes) c2 ∙ sym (append_assoc bytes payload rest))

pub read_frame_taken :
    (events : List ReadEvent) (f : Frame)
    → All IsByte (contents events)
    → (read_frame events).0 ≡ ok f
    → IsTyped f.message
      × IsAllowed f.message
      × (f.sequence ≢ 0)
      × IsU64 f.sequence
      × (contents events ≡ frame_bytes f.sequence f.message ++ contents (read_frame events).1)
read_frame_taken events f b e =
    let (bytes, payload, h, p1, p2, p3, p4, p5, p6) = read_frame_steps events f e in
    let (l1, c1) = read_exact_bounded_taken 20 FramePart.header events bytes (omega arith) p1 in
    let (b1, b2) = All-split IsByte bytes _ (rw c1 at b) in
    let (same, nonzero, wide, small) = header_bytes-parse_header bytes h b1 l1 p2 in
    let (l2, c2) =
      read_exact_bounded_taken h.payload_length FramePart.payload
        (read_exact_bounded 20 FramePart.header events).1 payload (omega arith) p3 in
    let (b3, b4) = All-split IsByte payload _ (rw c2 at b2) in
    let (typed, allowed, op, lay) =
      encode_payload-decode_payload h.opcode payload f.message b3 p4 in
    (
      typed,
      allowed,
      omega (arith, nonzero, p5),
      omega (arith, wide, p5),
      assemble f h bytes payload _ _ _ c1 c2 same op p5 lay l2
          ∙ ap (λ x. frame_bytes f.sequence f.message ++ contents x) (sym p6),
    )

-- On a slice the reader takes everything, or reports what trails.
decode_frame_read :
    (bytes : List ℕ) (f : Frame)
    → decode_frame bytes ≡ ok f
    → ((read_frame (chunk bytes ∷ [])).0 ≡ ok f)
      × (length bytes ≤ length bytes - length (contents (read_frame (chunk bytes ∷ [])).1))
unfolding decode_frame
decode_frame_read bytes f e = ground arith

-- `decode_frame` accepts nothing but canonical encodings: whatever list of bytes it takes is the one
-- that `encode_frame` returns for the frame that it found in it.
pub encode_frame-decode_frame :
    (bytes : List ℕ) (f : Frame)
    → All IsByte bytes
    → decode_frame bytes ≡ ok f
    → encode_frame f.sequence f.message ≡ ok bytes
encode_frame-decode_frame bytes f b e =
    let (r, l) = decode_frame_read bytes f e in
    let b' : All IsByte (bytes ++ []) = rw append-nil b in
    let (t, a, h, w, c) = read_frame_taken (chunk bytes ∷ []) f b' r in
    let rest = contents (read_frame (chunk bytes ∷ [])).1 in
    let whole : bytes ≡ frame_bytes f.sequence f.message ++ rest = rw append-nil at c in
    let total = ap length whole ∙ length-append (frame_bytes f.sequence f.message) rest in
    let none_left = eq-nil_of_length rest (omega (arith, total, l)) in
    encode_frame_lem f.sequence f.message t a h
    ∙ ap ok (sym (whole ∙ ap (◌++◌ (frame_bytes f.sequence f.message)) none_left ∙ append-nil _))
