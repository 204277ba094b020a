-- ===== src/Protocol/Frame/Delivery.antt =====
-- A frame that was encoded is read back, whatever the cuts of the stream.
use undelete_master.Base.{
  ℕ, ◌≡◌, ◌≢◌, refl, List, [], ◌∷◌, ◌++◌, length, ok, arith, >>=-eq-ok, ok-injective, sym, ap, ◌∙◌,
  append_assoc, length-append,
}
use undelete_master.Base.Words.{IsU64}
use undelete_master.Protocol.Errors.{FramePart}
use undelete_master.Protocol.Message.{Message, opcode, validate}
use undelete_master.Protocol.Message.Bounds.{IsAllowed, validate_iff}
use undelete_master.Protocol.Payload.{encode_payload}
use undelete_master.Protocol.Payload.Layout.{IsTyped, layout, length-layout, encode_payload-layout}
use undelete_master.Protocol.Payload.RoundTrip.{decode_payload-encode_payload}
use undelete_master.Protocol.Transport.{ReadEvent, chunk, read_exact_bounded}
use undelete_master.Protocol.Transport.Chunks.{
  contents, IsSteady, Delivers, read_exact_bounded_steady,
}
use undelete_master.Protocol.Frame.{header_bytes, encode_frame, validate_sequence}
use undelete_master.Protocol.Frame.Read.{read_frame, decode_frame}
use undelete_master.Protocol.Frame.HeaderBytes.{parse_header-header_bytes}

-- The bytes of a frame.
abbrev pub frame_bytes : ℕ → Message → List ℕ
frame_bytes seq m = header_bytes (opcode m) seq (length (layout m)) ++ layout m

pub encode_frame_lem :
    (seq : ℕ) (m : Message)
    → IsTyped m
    → IsAllowed m
    → seq ≢ 0
    → encode_frame seq m ≡ ok (frame_bytes seq m)
unfolding encode_frame
encode_frame_lem seq m t a h = ground (arith, encode_payload-layout m t a, length-layout m t a)

-- Only a message within its bounds is encoded, and never under the sequence number 0.
pub encode_frame_ok :
    (seq : ℕ) (m : Message) (frame : List ℕ)
    → encode_frame seq m ≡ ok frame
    → (seq ≢ 0) × IsAllowed m
unfolding encode_frame encode_payload
encode_frame_ok seq m frame e =
    let (u, e1, f1) = >>=-eq-ok (validate_sequence seq) _ e in
    let (p, e2, f2) = >>=-eq-ok (encode_payload m) _ f1 in
    let (u', e3, f3) = >>=-eq-ok (validate m) _ e2 in (ground arith, (validate_iff m).0 e3)

pub length-header_bytes :
    (m : Message) (seq size : ℕ) → length (header_bytes (opcode m) seq size) ≡ 20
unfolding header_bytes
length-header_bytes m seq size = refl

steady : (seq : ℕ) (m : Message) → IsSteady (chunk (frame_bytes seq m) ∷ [])
steady seq m = (
  omega (
    arith,
    length-append (header_bytes (opcode m) seq (length (layout m))) (layout m),
    length-header_bytes m seq (length (layout m)),
  ),
  tt,
)

pub read_frame_steady :
    (seq : ℕ) (m : Message) (events : List ReadEvent) (rest : List ℕ)
    → IsTyped m
    → IsAllowed m
    → seq ≢ 0
    → IsU64 seq
    → IsSteady events
    → contents events ≡ frame_bytes seq m ++ rest
    → Delivers (read_frame events) (record { sequence = seq; message = m }) rest
unfolding read_frame
read_frame_steady seq m events rest t a h w s e =
    let head = header_bytes (opcode m) seq (length (layout m)) in
    let d1 =
      read_exact_bounded_steady FramePart.header 20 events head (layout m ++ rest) s
        (length-header_bytes m seq (length (layout m))) (e ∙ append_assoc head (layout m) rest)
        (omega arith) in
    let p =
      parse_header-header_bytes (opcode m) seq (length (layout m)) w h (length-layout m t a) in
    let d2 =
      read_exact_bounded_steady FramePart.payload (length (layout m))
        (read_exact_bounded 20 FramePart.header events).1 (layout m) rest d1.steady refl d1.rest
        (omega (arith, length-layout m t a)) in
    let q = decode_payload-encode_payload m t a in
    let after =
      (read_exact_bounded (length (layout m)) FramePart.payload
        (read_exact_bounded 20 FramePart.header events).1).1 in
    let whole : read_frame events ≡ (ok (record { sequence = seq; message = m }), after) =
      ground (arith, d1.result, p, d2.result, q) in
    rw whole (record { result = refl; rest = d2.rest; steady = d2.steady })

-- A frame that `encode_frame` made, for a message of its Rust type and a number of 64 bits, is read
-- in full by `read_frame` from any transport that does not fail, however it cuts the stream and however often it is interrupted; the message and its
-- sequence number come back, and exactly the bytes behind the frame are left.
pub read_frame-encode_frame :
    (seq : ℕ) (m : Message) (frame : List ℕ) (events : List ReadEvent) (rest : List ℕ)
    → IsTyped m
    → IsU64 seq
    → encode_frame seq m ≡ ok frame
    → IsSteady events
    → contents events ≡ frame ++ rest
    → Delivers (read_frame events) (record { sequence = seq; message = m }) rest
read_frame-encode_frame seq m frame events rest t w e s c =
    let (h, a) = encode_frame_ok seq m frame e in
    let same : frame ≡ frame_bytes seq m = ok-injective (sym e ∙ encode_frame_lem seq m t a h) in
    read_frame_steady seq m events rest t a h w s (c ∙ ap (λ xs. xs ++ rest) same)

pub decode_frame-frame_bytes :
    (seq : ℕ) (m : Message)
    → IsTyped m
    → IsAllowed m
    → seq ≢ 0
    → IsU64 seq
    → decode_frame (frame_bytes seq m) ≡ ok (record { sequence = seq; message = m })
unfolding decode_frame
decode_frame-frame_bytes seq m t a h w =
    let bytes = frame_bytes seq m in
    let d = read_frame_steady seq m (chunk bytes ∷ []) [] t a h w (steady seq m) refl in
    ground (arith, d.result, d.rest)

-- The frame that `encode_frame` returns, for a message of its Rust type and a number of 64 bits, is
-- decoded to that message and number.
pub decode_frame-encode_frame :
    (seq : ℕ) (m : Message) (frame : List ℕ)
    → IsTyped m
    → IsU64 seq
    → encode_frame seq m ≡ ok frame
    → decode_frame frame ≡ ok (record { sequence = seq; message = m })
decode_frame-encode_frame seq m frame t w e =
    let (h, a) = encode_frame_ok seq m frame e in
    let same : frame ≡ frame_bytes seq m = ok-injective (sym e ∙ encode_frame_lem seq m t a h) in
    rw same (decode_frame-frame_bytes seq m t a h w)
