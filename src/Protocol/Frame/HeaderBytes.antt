-- ===== src/Protocol/Frame/HeaderBytes.antt =====
-- The header that the encoder writes is the one that the reader takes apart.
use undelete_master.Base.{
  ℕ, ◌≤◌, ◌≡◌, ◌≢◌, List, [], ◌++◌, length, take, drop, ok, arith, All, sym, ap, ◌∙◌,
  take-append-drop, true, bytes_eq, bytes_eq_sound, drop_all,
}
use undelete_master.Base.Words.{slice_word, IsByte, IsU64, from_le_bytes, from_le_bytes-to_le_bytes}
use undelete_master.Protocol.Message.{Opcode, opcode_code, opcode_from}
use undelete_master.Protocol.Message.Codes.{
  opcode_from-opcode_code, opcode_from_sound, opcode_code_bounds,
}
use undelete_master.Protocol.Payload.Writer.{max_payload_len}
use undelete_master.Protocol.Frame.{
  Header, check_header, header_bytes, parse_header, protocol_magic, protocol_version,
}

pub parse_header-header_bytes :
    (op : Opcode) (seq size : ℕ)
    → IsU64 seq
    → seq ≢ 0
    → size ≤ max_payload_len
    → parse_header (header_bytes op seq size)
      ≡ ok (record { opcode = op; sequence = seq; payload_length = size })
unfolding parse_header header_bytes
parse_header-header_bytes op seq size hs h0 hl =
    let h = header_bytes op seq size in
    let e1 : from_le_bytes (take 2 (drop 6 h)) ≡ opcode_code op =
      from_le_bytes-to_le_bytes 2 (opcode_code op) (omega (arith, opcode_code_bounds op)) in
    let e2 : from_le_bytes (take 8 (drop 8 h)) ≡ seq = from_le_bytes-to_le_bytes 8 seq hs in
    let e3 : from_le_bytes (take 4 (drop 16 h)) ≡ size =
      from_le_bytes-to_le_bytes 4 size (omega arith) in
    rw (e1, e2, e3, opcode_from-opcode_code op) (ground arith)

-- What a header that is accepted says.
check_header_facts :
    (magic : List ℕ) (version raw seq size : ℕ) (h : Header)
    → check_header magic version raw seq size ≡ ok h
    → (bytes_eq magic protocol_magic ≡ true)
      × (version ≡ protocol_version)
      × (opcode_from raw ≡ ok h.opcode)
      × (seq ≡ h.sequence)
      × (size ≡ h.payload_length)
      × (h.sequence ≢ 0)
      × (h.payload_length ≤ max_payload_len)
unfolding check_header
check_header_facts magic version raw seq size h e = ground arith

pub header_bytes-parse_header :
    (bytes : List ℕ) (h : Header)
    → All IsByte bytes
    → length bytes ≡ 20
    → parse_header bytes ≡ ok h
    → (header_bytes h.opcode h.sequence h.payload_length ≡ bytes)
      × (h.sequence ≢ 0)
      × IsU64 h.sequence
      × (h.payload_length ≤ max_payload_len)
unfolding header_bytes parse_header
header_bytes-parse_header bytes h b l e =
    let (magic, version, op, seq, size, nonzero, small) =
      check_header_facts (take 4 bytes) (from_le_bytes (take 2 (drop 4 bytes)))
        (from_le_bytes (take 2 (drop 6 bytes))) (from_le_bytes (take 8 (drop 8 bytes)))
        (from_le_bytes (take 4 (drop 16 bytes))) h e in
    let (p4, _) = slice_word 4 2 protocol_version bytes b (omega arith) version in
    let (p6, _) =
      slice_word 6 2 (opcode_code h.opcode) bytes b (omega arith)
        (sym (opcode_from_sound _ h.opcode op)) in
    let (p8, wide) = slice_word 8 8 h.sequence bytes b (omega arith) seq in
    let (p16, _) = slice_word 16 4 h.payload_length bytes b (omega arith) size in
    let whole : bytes ≡ protocol_magic ++ drop 4 bytes =
      sym (take-append-drop 4 bytes)
      ∙ ap (λ xs. xs ++ drop 4 bytes) (bytes_eq_sound (take 4 bytes) protocol_magic magic) in
    let end : drop 20 bytes ≡ [] = drop_all 20 bytes (omega arith) in
    (sym (cc (whole, p4, p6, p8, p16, end)), nonzero, wide, small)
