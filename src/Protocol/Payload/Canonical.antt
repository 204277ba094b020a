-- ===== src/Protocol/Payload/Canonical.antt =====
-- What the payload decoder accepts is exactly what the encoder writes.
use undelete_master.Base.{
  ℕ, ◌≤◌, ◌≢◌, ◌≡◌, refl, List, ◌++◌, length, ok, arith, append-nil, All, >>=-eq-ok, sym, ap, ◌∙◌,
}
use undelete_master.Base.Words.{IsByte}
use mathlib.Core.Path.{subst}
use undelete_master.Base.{ok-injective, drop_all}
use undelete_master.Protocol.Message.{Message, Opcode, opcode, validate}
use undelete_master.Protocol.Message.Bounds.{IsAllowed, validate_iff}
use undelete_master.Protocol.Payload.{read_fields, decode_payload}
use undelete_master.Protocol.Payload.RoundTrip.{decode_payload_lem}
use undelete_master.Protocol.Payload.Reader
use undelete_master.Protocol.Payload.Reader.{PayloadReader, take_bytes}
use undelete_master.Protocol.Payload.Layout.{IsTyped, layout}
use undelete_master.Protocol.Payload.Inverse.{remaining, IsSound}
use undelete_master.Protocol.Payload.Fields.{Parsed, read_fields_inv}

-- At the end of the payload nothing is left.
finish_inv : (r : PayloadReader) → Reader.finish r ≡ ok tt → length r.bytes ≤ r.position
unfolding Reader.finish
finish_inv r e = ground arith

start : (o : Opcode) (p : List ℕ) → All IsByte p → IsSound (Reader.new o p)
unfolding Reader.new
start o p h = record { inside = omega arith; typed = h }

cursor_end :
    {r r' : PayloadReader} {o : Opcode} (m : Message)
    → Parsed r o m r'
    → length r'.bytes ≤ r'.position
    → layout m ≡ remaining r
cursor_end {r} {r'} m q h =
    let z = drop_all r'.position r'.bytes h in
    sym (q.took.before ∙ ap (◌++◌ (layout m)) z ∙ append-nil (layout m))

cursor_decode_inv :
    (o : Opcode) (p : List ℕ) (m : Message)
    → o ≢ Opcode.read_data
    → All IsByte p
    → decode_payload o p ≡ ok m
    → IsTyped m × IsAllowed m × (opcode m ≡ o) × (layout m ≡ p)
unfolding Reader.new
cursor_decode_inv o p m d h e =
    let e0 = rw (decode_payload_lem o p d) at e in
    let ((m', r), e1, f1) = >>=-eq-ok (read_fields (Reader.new o p) o) _ e0 in
    let (u, e2, f2) = >>=-eq-ok (Reader.finish r) _ f1 in
    let (u', e3, f3) = >>=-eq-ok (validate m') _ f2 in
    let q = read_fields_inv (Reader.new o p) o m' r d (start o p h) e1 in
    let same : layout m' ≡ p = cursor_end m' q (finish_inv r e2) in
    subst (λ x. IsTyped x × IsAllowed x × (opcode x ≡ o) × (layout x ≡ p)) (ok-injective f3)
      (q.typed, (validate_iff m').0 e3, q.named, same)

read_data_inv :
    (p : List ℕ) (m : Message)
    → All IsByte p
    → decode_payload Opcode.read_data p ≡ ok m
    → IsTyped m × IsAllowed m × (opcode m ≡ Opcode.read_data) × (layout m ≡ p)
unfolding decode_payload layout opcode
read_data_inv p m h e =
    let (u, e1, f1) = >>=-eq-ok (validate (Message.read_data p)) _ e in
    subst (λ x. IsTyped x × IsAllowed x × (opcode x ≡ Opcode.read_data) × (layout x ≡ p))
      (ok-injective f1) (h, (validate_iff (Message.read_data p)).0 e1, refl, refl)

-- Whatever the decoder accepts is a message of its Rust type within its bounds, of the operation
-- asked for, and re-encodes to the very bytes that were read.
pub encode_payload-decode_payload :
    (o : Opcode) (p : List ℕ) (m : Message)
    → All IsByte p
    → decode_payload o p ≡ ok m
    → IsTyped m × IsAllowed m × (opcode m ≡ o) × (layout m ≡ p)
encode_payload-decode_payload Opcode.read_data p m h e = read_data_inv p m h e
encode_payload-decode_payload Opcode.hello p m h e = cursor_decode_inv _ p m (λ d. cc) h e
encode_payload-decode_payload o p m h e = cursor_decode_inv o p m (λ d. cc) h e
