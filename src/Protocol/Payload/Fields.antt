-- ===== src/Protocol/Payload/Fields.antt =====
-- What a successful read of an operation's fields says of the payload.
use undelete_master.Base.{
  ℕ, ◌≢◌, ◌≡◌, refl, List, [], ◌++◌, length, ok, arith, Result, true, leb, >>=-eq-ok, All-split,
}
use undelete_master.Base.Words.{IsByte, to_le_bytes}
use mathlib.Core.Path.{subst₂}
use undelete_master.Base.{guard}
use undelete_master.Base.Utf8.{is_utf8}
use undelete_master.Protocol.Errors.{ProtocolError}
use undelete_master.Protocol.Message.{Message, Opcode, opcode, error_from}
use undelete_master.Protocol.Message.Codes.{error_from_sound}
use undelete_master.Protocol.Payload.{read_fields}
use undelete_master.Protocol.Payload.Reader
use undelete_master.Protocol.Payload.Reader.{PayloadReader, take_bytes}
use undelete_master.Protocol.Payload.Layout.{IsTyped, layout}
use undelete_master.Protocol.Payload.Inverse.{
  IsSound, Took, take_bytes_inv, u16_inv, u32_inv, u64_inv, Took-trans,
}

-- What was read is the layout of the message, and the message has its Rust type.
pub record Parsed (r : PayloadReader) (o : Opcode) (m : Message) (r' : PayloadReader) : Type 0 where
  pub took : Took r (layout m) r'
  pub typed : IsTyped m
  pub named : opcode m ≡ o

-- The last step of a `do` block gives back the message and the cursor.
settle :
    {r : PayloadReader} {o : Opcode} {m m' : Message} {r' r1 : PayloadReader}
    → ◌≡◌ {A = Result ProtocolError (Message × PayloadReader)} (ok (m', r1)) (ok (m, r'))
    → Parsed r o m' r1
    → Parsed r o m r'
settle {r} {o} {m} {m'} {r'} {r1} e p =
    let em : m' ≡ m = cc in let er : r1 ≡ r' = cc in subst₂ (λ x y. Parsed r o x y) em er p

-- Nothing read.
Took-refl : (r : PayloadReader) → IsSound r → Took r [] r
Took-refl r s = record { before = refl; bytes = tt; rest = s }

identifier-Took :
    (r : PayloadReader) (count : ℕ) (xs ys : List ℕ) (r1 r2 r' : PayloadReader)
    → ys ≡ xs
    → r2 ≡ r'
    → length ys ≡ count
    → Took r (to_le_bytes 2 count) r1
    → Took r1 ys r2
    → is_utf8 ys ≡ true
    → Took r (to_le_bytes 2 (length xs) ++ xs) r' × (is_utf8 xs ≡ true)
identifier-Took r count xs ys r1 r2 r' ex er l t1 t2 utf =
    rw (← ex, ← er, l) (Took-trans (to_le_bytes 2 count) ys t1 t2, utf)

identifier_inv :
    (r : PayloadReader) (xs : List ℕ) (r' : PayloadReader) (n : ℕ)
    → IsSound r
    → Reader.identifier r "source_id" n ≡ ok (xs, r')
    → Took r (to_le_bytes 2 (length xs) ++ xs) r' × (is_utf8 xs ≡ true)
unfolding Reader.identifier
identifier_inv r xs r' n s e =
    let ((count, r1), e1, e2) = >>=-eq-ok (Reader.u16 r) _ e in
    let (t1, b1) = u16_inv r count r1 s e1 in
    let (u, g, e3) = >>=-eq-ok (guard (leb count n) _) _ e2 in
    let ((ys, r2), e4, e5) = >>=-eq-ok (take_bytes r1 count) _ e3 in
    let (t2, l) = take_bytes_inv r1 count ys r2 t1.rest e4 in
    let (u', g', e6) = >>=-eq-ok (guard (is_utf8 ys) _) _ e5 in
    identifier-Took r count xs ys r1 r2 r' (cc) (cc) l t1 t2 (ground arith)

module _ (r : PayloadReader) (m : Message) (r' : PayloadReader) (s : IsSound r) where
  hello_inv : read_fields r Opcode.hello ≡ ok (m, r') → Parsed r Opcode.hello m r'
  unfolding read_fields Reader.array_32 layout opcode
  hello_inv e =
      let ((c, r1), e1, e2) = >>=-eq-ok (Reader.array_32 r) _ e in
      let (t, l) = take_bytes_inv r 32 c r1 s e1 in
      settle e2 (record { took = t; typed = (l, t.bytes); named = refl })

  hello_ack_inv : read_fields r Opcode.hello_ack ≡ ok (m, r') → Parsed r Opcode.hello_ack m r'
  unfolding read_fields Reader.array_32 layout opcode
  hello_ack_inv e =
      let ((c, r1), e1, e2) = >>=-eq-ok (Reader.array_32 r) _ e in
      let (t, l) = take_bytes_inv r 32 c r1 s e1 in
      settle e2 (record { took = t; typed = (l, t.bytes); named = refl })

  open_source_inv : read_fields r Opcode.open_source ≡ ok (m, r') → Parsed r Opcode.open_source m r'
  unfolding read_fields layout opcode
  open_source_inv e =
      let ((x, r1), e1, e2) = >>=-eq-ok (Reader.identifier r "source_id" _) _ e in
      let (t, u) = identifier_inv r x r1 _ s e1 in
      settle e2 (record {
        took = t;
        typed = ((All-split IsByte (to_le_bytes 2 (length x)) x t.bytes).1, u);
        named = refl;
      })

  opened_inv : read_fields r Opcode.opened ≡ ok (m, r') → Parsed r Opcode.opened m r'
  unfolding read_fields layout opcode
  opened_inv e =
      let ((h, r1), e1, f1) = >>=-eq-ok (Reader.u64 r) _ e in
      let (t1, b1) = u64_inv r h r1 s e1 in
      let ((z, r2), e2, f2) = >>=-eq-ok (Reader.u64 r1) _ f1 in
      let (t2, b2) = u64_inv r1 z r2 t1.rest e2 in
      let ((l, r3), e3, f3) = >>=-eq-ok (Reader.u32 r2) _ f2 in
      let (t3, b3) = u32_inv r2 l r3 t2.rest e3 in
      let ((p, r4), e4, f4) = >>=-eq-ok (Reader.u32 r3) _ f3 in
      let (t4, b4) = u32_inv r3 p r4 t3.rest e4 in
      let ((d, r5), e5, f5) = >>=-eq-ok (Reader.u32 r4) _ f4 in
      let (t5, b5) = u32_inv r4 d r5 t4.rest e5 in
      settle f5 (record {
        took = Took-trans _ _ t1 (Took-trans _ _ t2 (Took-trans _ _ t3 (Took-trans _ _ t4 t5)));
        typed = (b1, b2, b3, b4, b5);
        named = refl;
      })

  read_at_inv : read_fields r Opcode.read_at ≡ ok (m, r') → Parsed r Opcode.read_at m r'
  unfolding read_fields layout opcode
  read_at_inv e =
      let ((h, r1), e1, f1) = >>=-eq-ok (Reader.u64 r) _ e in
      let (t1, b1) = u64_inv r h r1 s e1 in
      let ((o, r2), e2, f2) = >>=-eq-ok (Reader.u64 r1) _ f1 in
      let (t2, b2) = u64_inv r1 o r2 t1.rest e2 in
      let ((n, r3), e3, f3) = >>=-eq-ok (Reader.u32 r2) _ f2 in
      let (t3, b3) = u32_inv r2 n r3 t2.rest e3 in
      settle f3 (record {
        took = Took-trans _ _ t1 (Took-trans _ _ t2 t3);
        typed = (b1, b2, b3);
        named = refl;
      })

  close_source_inv :
      read_fields r Opcode.close_source ≡ ok (m, r') → Parsed r Opcode.close_source m r'
  unfolding read_fields layout opcode
  close_source_inv e =
      let ((v, r1), e1, e2) = >>=-eq-ok (Reader.u64 r) _ e in
      let (t, b) = u64_inv r v r1 s e1 in settle e2 (record { took = t; typed = b; named = refl })

  closed_inv : read_fields r Opcode.closed ≡ ok (m, r') → Parsed r Opcode.closed m r'
  unfolding read_fields layout opcode
  closed_inv e =
      let ((v, r1), e1, e2) = >>=-eq-ok (Reader.u64 r) _ e in
      let (t, b) = u64_inv r v r1 s e1 in settle e2 (record { took = t; typed = b; named = refl })

  shutdown_inv : read_fields r Opcode.shutdown ≡ ok (m, r') → Parsed r Opcode.shutdown m r'
  unfolding read_fields layout opcode
  shutdown_inv e = settle e (record { took = Took-refl r s; typed = tt; named = refl })

  error_inv : read_fields r Opcode.error ≡ ok (m, r') → Parsed r Opcode.error m r'
  unfolding read_fields layout opcode
  error_inv e =
      let ((v, r1), e1, e2) = >>=-eq-ok (Reader.u16 r) _ e in
      let (t, b) = u16_inv r v r1 s e1 in
      let (c, e3, e4) = >>=-eq-ok (error_from v) _ e2 in
      settle e4 (record { took = rw (error_from_sound v c e3) t; typed = tt; named = refl })

pub read_fields_inv :
    (r : PayloadReader) (o : Opcode) (m : Message) (r' : PayloadReader)
    → o ≢ Opcode.read_data
    → IsSound r
    → read_fields r o ≡ ok (m, r')
    → Parsed r o m r'
read_fields_inv r Opcode.hello m r' d s e = hello_inv r m r' s e
read_fields_inv r Opcode.hello_ack m r' d s e = hello_ack_inv r m r' s e
read_fields_inv r Opcode.open_source m r' d s e = open_source_inv r m r' s e
read_fields_inv r Opcode.opened m r' d s e = opened_inv r m r' s e
read_fields_inv r Opcode.read_at m r' d s e = read_at_inv r m r' s e
read_fields_inv r Opcode.close_source m r' d s e = close_source_inv r m r' s e
read_fields_inv r Opcode.closed m r' d s e = closed_inv r m r' s e
read_fields_inv r Opcode.shutdown m r' d s e = shutdown_inv r m r' s e
read_fields_inv r Opcode.error m r' d s e = error_inv r m r' s e
read_fields_inv r Opcode.read_data m r' d s e = absurd (d refl)
