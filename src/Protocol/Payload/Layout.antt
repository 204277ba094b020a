-- ===== src/Protocol/Payload/Layout.antt =====
-- The wire layout of each payload, written as one list, and that the writer produces it.
use undelete_master.Base.{ℕ, ◌≤◌, ◌≡◌, refl, List, [], ◌++◌, length, ok, arith, All, true}
use undelete_master.Base.Words.{IsByte, IsU32, IsU64, to_le_bytes}
use undelete_master.Protocol.Message.{Message, error_code, max_read_len}
use undelete_master.Protocol.Message.Bounds.{IsAllowed, validate_iff}
use undelete_master.Protocol.Payload.{write_fields, encode_payload}
use undelete_master.Protocol.Payload.Writer
use undelete_master.Protocol.Payload.Writer.{PayloadWriter, max_payload_len}
use undelete_master.Base.Utf8.{is_utf8}

-- What the Rust types say of a message: the width of each number, 32 bytes of challenge, bytes,
-- and a source name that is UTF-8.
abbrev pub IsTyped : Message → Type 0
IsTyped (Message.hello challenge) = (length challenge ≡ 32) × All IsByte challenge
IsTyped (Message.hello_ack challenge) = (length challenge ≡ 32) × All IsByte challenge
IsTyped (Message.open_source source_id) = All IsByte source_id × (is_utf8 source_id ≡ true)
IsTyped (Message.opened handle_id size logical physical disk) =
    IsU64 handle_id × IsU64 size × IsU32 logical × IsU32 physical × IsU32 disk
IsTyped (Message.read_at handle_id offset len) = IsU64 handle_id × IsU64 offset × IsU32 len
IsTyped (Message.read_data bytes) = All IsByte bytes
IsTyped (Message.close_source handle_id) = IsU64 handle_id
IsTyped (Message.closed handle_id) = IsU64 handle_id
IsTyped _ = Unit

-- The payload's bytes.
unfoldable pub layout : Message → List ℕ
layout (Message.hello challenge) = challenge
layout (Message.hello_ack challenge) = challenge
layout (Message.open_source source_id) = to_le_bytes 2 (length source_id) ++ source_id
layout (Message.opened handle_id size logical physical disk) =
    to_le_bytes 8 handle_id
    ++ (to_le_bytes 8 size
        ++ (to_le_bytes 4 logical ++ (to_le_bytes 4 physical ++ to_le_bytes 4 disk)))
layout (Message.read_at handle_id offset len) =
    to_le_bytes 8 handle_id ++ (to_le_bytes 8 offset ++ to_le_bytes 4 len)
layout (Message.read_data bytes) = bytes
layout (Message.close_source handle_id) = to_le_bytes 8 handle_id
layout (Message.closed handle_id) = to_le_bytes 8 handle_id
layout Message.shutdown = []
layout (Message.error code) = to_le_bytes 2 (error_code code)

pub length-layout : (m : Message) → IsTyped m → IsAllowed m → length (layout m) ≤ max_read_len
unfolding layout
length-layout (Message.hello c) t a = omega arith
length-layout (Message.hello_ack c) t a = omega arith
length-layout (Message.open_source s) t a = omega arith
length-layout (Message.opened h s l p d) t a = omega arith
length-layout (Message.read_at h o n) t a = omega arith
length-layout (Message.read_data bytes) t a = a
length-layout (Message.close_source h) t a = omega arith
length-layout (Message.closed h) t a = omega arith
length-layout Message.shutdown t a = omega arith
length-layout (Message.error c) t a = omega arith

-- A valid message is written as its layout.
write_fields-layout :
    (m : Message)
    → IsTyped m
    → IsAllowed m
    → write_fields Writer.new m ≡ ok (record { bytes = layout m })
unfolding write_fields layout Writer.new Writer.bytes Writer.u16 Writer.u32 Writer.u64
    Writer.identifier
write_fields-layout (Message.hello c) t a = ground arith
write_fields-layout (Message.hello_ack c) t a = ground arith
write_fields-layout (Message.open_source s) t a = ground arith
write_fields-layout (Message.opened h s l p d) t a = refl
write_fields-layout (Message.read_at h o n) t a = refl
write_fields-layout (Message.read_data bytes) t a = ground arith
write_fields-layout (Message.close_source h) t a = refl
write_fields-layout (Message.closed h) t a = refl
write_fields-layout Message.shutdown t a = refl
write_fields-layout (Message.error c) t a = refl

pub encode_payload-layout :
    (m : Message) → IsTyped m → IsAllowed m → encode_payload m ≡ ok (layout m)
unfolding encode_payload Writer.finish
encode_payload-layout m t a = rw ((validate_iff m).1 a, write_fields-layout m t a)
