-- ===== src/Protocol/Payload/RoundTrip.antt =====
-- The payload reader reads back what the writer wrote.
use undelete_master.Base.{
  ℕ, ◌≢◌, ◌≡◌, refl, List, [], ◌++◌, length, ok, arith, append-nil, ◌>>=◌, ◌>>◌,
}
use undelete_master.Base.Words.{to_le_bytes}
use undelete_master.Protocol.Message.{
  Message, Opcode, opcode, validate, error_code, max_source_id_len,
}
use undelete_master.Protocol.Message.Bounds.{IsAllowed, validate_iff}
use undelete_master.Protocol.Message.Codes.{error_code_bounds, error_from-error_code}
use undelete_master.Protocol.Payload.{read_fields, decode_payload}
use undelete_master.Protocol.Payload.Reader
use undelete_master.Protocol.Payload.Cursor.{
  cursor, take_bytes_cursor, u16_cursor, u32_cursor, u64_cursor, finish_cursor,
}
use undelete_master.Protocol.Payload.Layout.{IsTyped, layout}

array_32_cursor :
    (o : Opcode) (c : List ℕ)
    → length c ≡ 32
    → Reader.array_32 (cursor o [] c) ≡ ok (c, cursor o c [])
unfolding Reader.array_32
array_32_cursor o c h =
    let t = take_bytes_cursor o [] c [] 32 h (omega arith) in rw append-nil (rw append-nil at t)

identifier_cursor :
    (o : Opcode) (s : List ℕ)
    → IsAllowed (Message.open_source s)
    → IsTyped (Message.open_source s)
    → Reader.identifier (cursor o [] (to_le_bytes 2 (length s) ++ s)) "source_id" max_source_id_len
      ≡ ok (s, cursor o (to_le_bytes 2 (length s) ++ s) [])
unfolding Reader.identifier
identifier_cursor o s a t =
    let head = u16_cursor o [] s (length s) (omega arith) (omega arith) in
    let body = take_bytes_cursor o (to_le_bytes 2 (length s)) s [] (length s) refl (omega arith) in
    rw (head) (ground (arith, body, append-nil s))

-- A message's own layout is read as that message, to the end.
read_fields-layout :
    (m : Message)
    → IsTyped m
    → IsAllowed m
    → opcode m ≢ Opcode.read_data
    → read_fields (Reader.new (opcode m) (layout m)) (opcode m)
      ≡ ok (m, cursor (opcode m) (layout m) [])
unfolding read_fields layout opcode Reader.new
read_fields-layout (Message.hello c) t a e = rw (array_32_cursor Opcode.hello c t.0)
read_fields-layout (Message.hello_ack c) t a e = rw (array_32_cursor Opcode.hello_ack c t.0)
read_fields-layout (Message.open_source s) t a e = rw (identifier_cursor Opcode.open_source s a t)
read_fields-layout (Message.opened h s l p d) t a e =
    let o = Opcode.opened in
    let p1 = to_le_bytes 8 h in
    let p2 = p1 ++ to_le_bytes 8 s in
    let p3 = p2 ++ to_le_bytes 4 l in
    let p4 = p3 ++ to_le_bytes 4 p in
    let r4 = to_le_bytes 4 d in
    let r3 = to_le_bytes 4 p ++ r4 in
    let r2 = to_le_bytes 4 l ++ r3 in
    let r1 = to_le_bytes 8 s ++ r2 in
    rw (
      u64_cursor o [] r1 h t.0 (omega arith),
      u64_cursor o p1 r2 s t.1 (omega arith),
      u32_cursor o p2 r3 l t.2 (omega arith),
      u32_cursor o p3 r4 p t.3 (omega arith),
      u32_cursor o p4 [] d t.4 (omega arith),
    )
read_fields-layout (Message.read_at h o n) t a e =
    let p1 = to_le_bytes 8 h in
    let p2 = p1 ++ to_le_bytes 8 o in
    let r2 = to_le_bytes 4 n in
    let r1 = to_le_bytes 8 o ++ r2 in
    rw (
      u64_cursor Opcode.read_at [] r1 h t.0 (omega arith),
      u64_cursor Opcode.read_at p1 r2 o t.1 (omega arith),
      u32_cursor Opcode.read_at p2 [] n t.2 (omega arith),
    )
read_fields-layout (Message.read_data bytes) t a e = absurd (e refl)
read_fields-layout (Message.close_source h) t a e =
    rw (u64_cursor Opcode.close_source [] [] h t (omega arith))
read_fields-layout (Message.closed h) t a e = rw (u64_cursor Opcode.closed [] [] h t (omega arith))
read_fields-layout Message.shutdown t a e = refl
read_fields-layout (Message.error c) t a e = rw (
  u16_cursor Opcode.error [] [] (error_code c) (omega (arith, error_code_bounds c)) (omega arith),
  error_from-error_code c,
)

-- `decode_payload` behind its early return.
pub decode_payload_lem :
    (o : Opcode) (p : List ℕ)
    → o ≢ Opcode.read_data
    → decode_payload o p
      ≡ (read_fields (Reader.new o p) o >>= λ x. Reader.finish x.1 >> (validate x.0 >> ok x.0))
unfolding decode_payload
decode_payload_lem Opcode.read_data p h = absurd (h refl)
decode_payload_lem Opcode.hello p h = refl
decode_payload_lem _ p h = refl

decode_payload-layout :
    (m : Message)
    → IsTyped m
    → IsAllowed m
    → opcode m ≢ Opcode.read_data
    → decode_payload (opcode m) (layout m) ≡ ok m
decode_payload-layout m t a e = rw (
  decode_payload_lem (opcode m) (layout m) e,
  read_fields-layout m t a e,
  finish_cursor (opcode m) (layout m),
  (validate_iff m).1 a,
)

-- A message of its Rust type that is within its bounds is decoded from its own encoding.
pub decode_payload-encode_payload :
    (m : Message) → IsTyped m → IsAllowed m → decode_payload (opcode m) (layout m) ≡ ok m
decode_payload-encode_payload (Message.read_data bytes) t a =
    unfold decode_payload opcode layout in rw ((validate_iff (Message.read_data bytes)).1 a)
decode_payload-encode_payload (Message.hello c) t a =
    decode_payload-layout (Message.hello c) t a (unfold opcode in λ e. cc)
decode_payload-encode_payload m t a = decode_payload-layout m t a (unfold opcode in λ e. cc)
