-- ===== src/Protocol/Transport.antt =====
-- The transport as the protocol code sees it through `std::io::Read` and `std::io::Write`, and
-- `read_exact_bounded` of crates/broker-protocol/src/codec.rs.
--
-- A reader is the list of what its `read` calls meet, in order. A `chunk` is what is ready: a call
-- takes as much of it as its buffer holds and leaves the rest for the next call, an empty chunk and
-- the end of the list are `Ok(0)`. A reader that is interrupted for ever is no such list.
-- A writer keeps what reached the other side, and the outcomes of its coming calls; behind the
-- last of these every call succeeds.
pub mod Chunks
pub mod Taken
use undelete_master.Base.{
  ℕ, zero, suc, ◌+◌, ◌-◌, ◌≤◌, List, [], ◌∷◌, ◌++◌, length, take, drop, leb, if◌then◌else◌, Result,
  ok, err, checked_add, none, some, Option,
}
use undelete_master.Protocol.Errors.{FramePart, ErrorKind, ProtocolError}

pub data ReadEvent : Type 0 where
  chunk : List ℕ → ReadEvent
  fault : ErrorKind → ReadEvent
  -- a reader that claims to have read more than it was asked for
  overrun : ReadEvent

pub data WriteOutcome : Type 0 where
  done : WriteOutcome
  -- the call fails after the first `sent` bytes
  broken : (kind : ErrorKind) (sent : ℕ) → WriteOutcome

pub record Writer : Type 0 where
  pub written : List ℕ
  pub outcomes : List WriteOutcome

-- A computation that reads: its result, and what is left to read.
abbrev pub Reading : Type 0 → Type 0
Reading A = List ReadEvent → Result ProtocolError A × List ReadEvent

infixl 5 ◌>>=◌ ◌>>◌
abbrev pub ◌>>=◌ : {A B : Type 0} → Reading A → (A → Reading B) → Reading B
◌>>=◌ m f events = elim ((m events).0) [ ok a ↦ f a (m events).1 | err e ↦ (err e, (m events).1) ]

abbrev pub ◌>>◌ : {B : Type 0} → Reading (Unit {0}) → Reading B → Reading B
m >> k = m >>= λ _. k

abbrev pub lift : {A : Type 0} → Result ProtocolError A → Reading A
lift r events = (r, events)

-- The loop: `need` bytes are still wanted, and `got` holds those that were read.
pub read_loop : FramePart → ℕ → ℕ → List ℕ → Reading (List ℕ)
read_loop part expected zero got events = (ok got, events)
read_loop part expected (suc n) got [] =
    (err (ProtocolError.truncated part expected (length got)), [])
read_loop part expected (suc n) got (chunk [] ∷ events) =
    (err (ProtocolError.truncated part expected (length got)), events)
read_loop part expected (suc n) got (chunk (b ∷ bs) ∷ events) =
    let bytes = take (suc n) (b ∷ bs) in
    let more = drop (suc n) (b ∷ bs) in
    let whole = read_loop part expected (suc n - length (b ∷ bs)) (got ++ (b ∷ bs)) events in
    elim (checked_add (length got) (length bytes)) [
      | none ↦ (err ProtocolError.arithmetic_overflow, events)
      | some _ ↦
          if leb (length (b ∷ bs)) (suc n) then whole else (ok (got ++ bytes), chunk more ∷ events)
    ]
read_loop part expected (suc n) got (overrun ∷ events) =
    (err (ProtocolError.io ErrorKind.invalid_data), events)
read_loop part expected (suc n) got (fault ErrorKind.interrupted ∷ events) =
    read_loop part expected (suc n) got events
read_loop part expected (suc n) got (fault ErrorKind.unexpected_eof ∷ events) =
    (err (ProtocolError.truncated part expected (length got)), events)
read_loop part expected (suc n) got (fault kind ∷ events) = (err (ProtocolError.io kind), events)

-- Fills a buffer of `size` bytes.
unfoldable pub read_exact_bounded : ℕ → FramePart → Reading (List ℕ)
unfolding read_loop
read_exact_bounded size part = read_loop part size size []

-- `Write::write_all`
unfoldable pub write_all : List ℕ → Writer → Result ErrorKind (Unit {0}) × Writer
write_all bytes w = elim w.outcomes [
  | [] ↦ (ok tt, record w { written = w.written ++ bytes })
  | done ∷ later ↦ (ok tt, record { written = w.written ++ bytes; outcomes = later })
  | broken kind sent ∷ later ↦
      (err kind, record { written = w.written ++ take sent bytes; outcomes = later })
]

-- `Write::flush`
unfoldable pub flush : Writer → Result ErrorKind (Unit {0}) × Writer
flush w = elim w.outcomes [
  | [] ↦ (ok tt, w)
  | done ∷ later ↦ (ok tt, record w { outcomes = later })
  | broken kind sent ∷ later ↦ (err kind, record w { outcomes = later })
]
