-- ===== src/Protocol/Payload/Inverse.antt =====
-- What a successful read of the payload cursor says of the bytes that it took.
use undelete_master.Base.{
  ℕ, ◌+◌, ◌^◌, ◌≤◌, ◌<◌, ◌≡◌, List, ◌++◌, length, take, drop, ok, err, All-append, arith, Result,
  append_assoc, All, ◌>>=◌, length-take, length-drop, take-append-drop, drop-drop, All-split, sym,
  ap, ◌∙◌,
}
use undelete_master.Base.Words.{
  IsByte, IsU16, IsU32, IsU64, to_le_bytes, from_le_bytes, to_le_bytes-from_le_bytes,
  from_le_bytes-lt,
}
use undelete_master.Protocol.Errors.{ProtocolError}
use undelete_master.Protocol.Payload.Reader
use undelete_master.Protocol.Payload.Reader.{PayloadReader, take_bytes}

-- The bytes behind the cursor.
abbrev pub remaining : PayloadReader → List ℕ
remaining r = drop r.position r.bytes

-- A cursor over bytes that has not run past them.
pub record IsSound (r : PayloadReader) : Type 0 where
  pub inside : r.position ≤ length r.bytes
  pub typed : All IsByte (remaining r)

-- What a read of `xs` leaves.
pub record Took (r : PayloadReader) (xs : List ℕ) (r' : PayloadReader) : Type 0 where
  pub before : remaining r ≡ xs ++ remaining r'
  pub bytes : All IsByte xs
  pub rest : IsSound r'

take_bytes_ok :
    (r : PayloadReader) (n : ℕ) (xs : List ℕ) (r' : PayloadReader)
    → take_bytes r n ≡ ok (xs, r')
    → (r.position + n ≤ length r.bytes)
      × (xs ≡ take n (remaining r))
      × (r'.bytes ≡ r.bytes)
      × (r'.position ≡ r.position + n)
unfolding take_bytes
take_bytes_ok r n xs r' e = ground arith

pub take_bytes_inv :
    (r : PayloadReader) (n : ℕ) (xs : List ℕ) (r' : PayloadReader)
    → IsSound r
    → take_bytes r n ≡ ok (xs, r')
    → Took r xs r' × (length xs ≡ n)
take_bytes_inv r n xs r' s e =
    let (fits, head, tail, at) = take_bytes_ok r n xs r' e in
    let split = take-append-drop n (remaining r) in
    let left : remaining r' ≡ drop n (remaining r) =
      cc (drop-drop r.position n r.bytes, tail, at) in
    let whole : remaining r ≡ xs ++ remaining r' = cc in
    let (t, u) = All-split IsByte xs (remaining r') (rw (← whole) s.typed) in
    (
      record {
        before = whole;
        bytes = t;
        rest = record { inside = rw (tail, at) fits; typed = u };
      },
      rw head (omega (arith, length-take n (remaining r), length-drop r.position r.bytes)),
    )

-- A number of `w` bytes that `from_le_bytes` reads.
word_inv :
    (w : ℕ) (r : PayloadReader) (xs : List ℕ) (r' : PayloadReader)
    → IsSound r
    → take_bytes r w ≡ ok (xs, r')
    → Took r (to_le_bytes w (from_le_bytes xs)) r' × (from_le_bytes xs < 256 ^ w)
word_inv w r xs r' s e =
    let (t, l) = take_bytes_inv r w xs r' s e in
    let same = to_le_bytes-from_le_bytes xs t.bytes in
    let bound = from_le_bytes-lt xs t.bytes in (rw (← l, same) t, rw (← l) bound)

abbrev read_word :
    Result ProtocolError (List ℕ × PayloadReader) → Result ProtocolError (ℕ × PayloadReader)
read_word m = m >>= λ x. ok (from_le_bytes x.0, x.1)

read_word_inv :
    (m : Result ProtocolError (List ℕ × PayloadReader)) (v : ℕ) (r' : PayloadReader)
    → read_word m ≡ ok (v, r')
    → (xs : List ℕ) × (m ≡ ok (xs, r')) × (from_le_bytes xs ≡ v)
read_word_inv (ok (xs, r'')) v r' e = (xs, cc, cc)
read_word_inv (err x) v r' e = cc

module _ (r : PayloadReader) (v : ℕ) (r' : PayloadReader) (s : IsSound r) where
  pub u16_inv : Reader.u16 r ≡ ok (v, r') → Took r (to_le_bytes 2 v) r' × IsU16 v
  unfolding Reader.u16
  u16_inv e =
      let (xs, e1, e2) = read_word_inv (take_bytes r 2) v r' e in rw e2 at (word_inv 2 r xs r' s e1)

  pub u32_inv : Reader.u32 r ≡ ok (v, r') → Took r (to_le_bytes 4 v) r' × IsU32 v
  unfolding Reader.u32
  u32_inv e =
      let (xs, e1, e2) = read_word_inv (take_bytes r 4) v r' e in rw e2 at (word_inv 4 r xs r' s e1)

  pub u64_inv : Reader.u64 r ≡ ok (v, r') → Took r (to_le_bytes 8 v) r' × IsU64 v
  unfolding Reader.u64
  u64_inv e =
      let (xs, e1, e2) = read_word_inv (take_bytes r 8) v r' e in rw e2 at (word_inv 8 r xs r' s e1)

-- Two reads in a row.
pub Took-trans :
    {r r' r'' : PayloadReader} (xs ys : List ℕ)
    → Took r xs r'
    → Took r' ys r''
    → Took r (xs ++ ys) r''
Took-trans xs ys t u = record {
  before = t.before ∙ ap (◌++◌ xs) u.before ∙ sym (append_assoc xs ys _);
  bytes = All-append IsByte xs ys t.bytes u.bytes;
  rest = u.rest;
}
