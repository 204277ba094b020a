-- ===== src/Protocol/Transport/Chunks.antt =====
-- `read_exact_bounded` does not depend on how the transport cuts the stream into chunks.
use undelete_master.Base.{
  ℕ, zero, suc, ◌+◌, ◌-◌, ◌≤◌, ◌<◌, ◌≡◌, refl, List, [], ◌∷◌, ◌++◌, length, take, drop, leb, ok,
  arith, u64_max, Bool-cases, inl, inr, length-append, length-take, append_assoc, append-nil, sym,
  ap, ◌∙◌,
}
use undelete_master.Base.{Result, take-append, drop-append, if◌then◌else◌, append_split}
use undelete_master.Protocol.Errors.{FramePart, ErrorKind, ProtocolError}
use undelete_master.Protocol.Transport.{
  ReadEvent, chunk, fault, overrun, read_loop, read_exact_bounded,
}

-- The bytes that the transport will deliver.
abbrev pub contents : List ReadEvent → List ℕ
contents [] = []
contents (chunk bytes ∷ events) = bytes ++ contents events
contents (_ ∷ events) = contents events

-- No failure but an interruption, and no chunk that reads as the end of the stream.
abbrev pub IsSteady : List ReadEvent → Type 0
IsSteady [] = Unit
IsSteady (chunk bytes ∷ events) = (0 < length bytes) × IsSteady events
IsSteady (fault ErrorKind.interrupted ∷ events) = IsSteady events
IsSteady (_ ∷ events) = ⊥

-- The outcome of a read that got `xs` and left `ys` on a steady transport.
pub record Delivers {A : Type 0} (x : Result ProtocolError A × List ReadEvent) (a : A) (ys : List ℕ)
    : Type 0 where
  pub result : x.0 ≡ ok a
  pub rest : contents x.1 ≡ ys
  pub steady : IsSteady x.1

pub read_chunk :
    (part : FramePart) (expected n : ℕ) (got : List ℕ) (b : ℕ) (bs : List ℕ)
    (events : List ReadEvent)
    → length got + suc n ≤ u64_max
    → read_loop part expected (suc n) got (chunk (b ∷ bs) ∷ events) ≡ (
        if leb (length (b ∷ bs)) (suc n)
        then read_loop part expected (suc n - length (b ∷ bs)) (got ++ (b ∷ bs)) events
        else (ok (got ++ take (suc n) (b ∷ bs)), chunk (drop (suc n) (b ∷ bs)) ∷ events))
unfolding read_loop
read_chunk part expected n got b bs events h = ground (arith, length-take (suc n) (b ∷ bs))

pub read_interrupted :
    (part : FramePart) (expected n : ℕ) (got : List ℕ) (events : List ReadEvent)
    → read_loop part expected (suc n) got (fault ErrorKind.interrupted ∷ events)
      ≡ read_loop part expected (suc n) got events
unfolding read_loop
read_interrupted part expected n got events = refl

cut_at :
    (m : ℕ) (c xs zs : List ℕ) → c ≡ xs ++ zs → length xs ≡ m → (take m c ≡ xs) × (drop m c ≡ zs)
cut_at m c xs zs p l = rw (p, ← l) (take-append xs zs, drop-append xs zs)

cut-Delivers :
    (got : List ℕ) (m : ℕ) (c xs ys zs : List ℕ) (events : List ReadEvent)
    → take m c ≡ xs
    → drop m c ≡ zs
    → ys ≡ zs ++ contents events
    → IsSteady events
    → 0 < length zs
    → Delivers (ok (got ++ take m c), chunk (drop m c) ∷ events) (got ++ xs) ys
cut-Delivers got m c xs ys zs events head tail q s h = record {
  result = rw head;
  rest = rw tail (sym q);
  steady = (rw tail h, s);
}

read_loop_steady :
    (part : FramePart) (expected need : ℕ) (got : List ℕ) (events : List ReadEvent) (xs ys : List ℕ)
    → IsSteady events
    → length xs ≡ need
    → contents events ≡ xs ++ ys
    → length got + need ≤ u64_max
    → Delivers (read_loop part expected need got events) (got ++ xs) ys
read_loop_steady part expected zero got events [] ys s l e h =
    unfold read_loop in record { result = rw append-nil; rest = e; steady = s }
read_loop_steady part expected zero got events (x ∷ xs) ys s l e h = absurd (omega arith)
read_loop_steady part expected (suc n) got [] [] ys s l e h = absurd (omega arith)
read_loop_steady part expected (suc n) got [] (x ∷ xs) ys s l e h = cc
read_loop_steady part expected (suc n) got (chunk [] ∷ events) xs ys s l e h = absurd (omega arith)
read_loop_steady part expected (suc n) got (chunk (b ∷ bs) ∷ events) xs ys s l e h =
    elim (Bool-cases (leb (length (b ∷ bs)) (suc n))) [
      | inl fits ↦
          let (zs, p, q) = append_split (b ∷ bs) (contents events) xs ys e (ground arith) in
          let lz : length xs ≡ length (b ∷ bs) + length zs =
            ap length p ∙ length-append (b ∷ bs) zs in
          let ih =
            read_loop_steady part expected (suc n - length (b ∷ bs)) (got ++ (b ∷ bs)) events zs ys
              s.1 (omega arith) q (ground (arith, length-append got (b ∷ bs))) in
          rw (read_chunk part expected n got b bs events h, fits)
            (rw (p, ← append_assoc got (b ∷ bs) zs) ih)
      | inr more ↦
          let (zs, p, q) = append_split xs ys (b ∷ bs) (contents events) (sym e) (ground arith) in
          let (head, tail) = cut_at (suc n) (b ∷ bs) xs zs p l in
          rw (read_chunk part expected n got b bs events h, more)
            (cut-Delivers got (suc n) (b ∷ bs) xs ys zs events head tail q s.1
              (ground (arith, ap length p, length-append xs zs)))
    ]
read_loop_steady part expected (suc n) got (overrun ∷ events) xs ys s l e h = absurd s
read_loop_steady part expected (suc n) got (fault ErrorKind.interrupted ∷ events) xs ys s l e h =
    rw (read_interrupted part expected n got events)
      (read_loop_steady part expected (suc n) got events xs ys s l e h)
read_loop_steady part expected (suc n) got (fault ErrorKind.unexpected_eof ∷ events) xs ys s l e h =
    absurd s
read_loop_steady part expected (suc n) got (fault ErrorKind.invalid_data ∷ events) xs ys s l e h =
    absurd s
read_loop_steady part expected (suc n) got (fault (ErrorKind.other k) ∷ events) xs ys s l e h =
    absurd s

-- From a transport that does not fail, however it cuts the stream, the next `size` bytes are read in
-- full and in order, and the rest of the stream is left.
pub read_exact_bounded_steady :
    (part : FramePart) (size : ℕ) (events : List ReadEvent) (xs ys : List ℕ)
    → IsSteady events
    → length xs ≡ size
    → contents events ≡ xs ++ ys
    → size ≤ u64_max
    → Delivers (read_exact_bounded size part events) xs ys
unfolding read_exact_bounded
read_exact_bounded_steady part size events xs ys s l e h =
    read_loop_steady part size size [] events xs ys s l e (omega arith)
