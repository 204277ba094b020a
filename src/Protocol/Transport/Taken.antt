-- ===== src/Protocol/Transport/Taken.antt =====
-- What `read_exact_bounded` returned is what the transport held, failures in between or not.
use undelete_master.Base.{
  ℕ, zero, suc, ◌+◌, ◌-◌, ◌≤◌, ◌≡◌, refl, List, [], ◌∷◌, ◌++◌, length, take, drop, leb, ok, arith,
  u64_max, Result, Bool-cases, leb→le, inl, inr, length-append, length-take, append_assoc,
  take-append-drop, append-nil, ok-injective, sym, ap, ◌∙◌,
}
use undelete_master.Protocol.Errors.{FramePart, ErrorKind, ProtocolError}
use undelete_master.Protocol.Transport.{
  ReadEvent, chunk, fault, overrun, read_loop, read_exact_bounded,
}
use undelete_master.Protocol.Transport.Chunks.{contents, read_chunk, read_interrupted}

-- A read that succeeded took `need` bytes off the front of the stream.
abbrev pub Taken : Result ProtocolError (List ℕ) × List ReadEvent → List ℕ → ℕ → List ℕ → Type 0
Taken x got need before =
    (xs : List ℕ) × (x.0 ≡ ok (got ++ xs)) × (length xs ≡ need) × (before ≡ xs ++ contents x.1)

Taken-here :
    (got c : List ℕ) (n : ℕ) (events : List ReadEvent)
    → n ≤ length c
    → Taken (ok (got ++ take n c), chunk (drop n c) ∷ events) got n (c ++ contents events)
Taken-here got c n events h = (
  take n c,
  refl,
  omega (arith, length-take n c),
  ap (λ xs. xs ++ contents events) (sym (take-append-drop n c))
      ∙ append_assoc (take n c) (drop n c) (contents events),
)

Taken-on :
    (x : Result ProtocolError (List ℕ) × List ReadEvent) (got c before : List ℕ) (m n : ℕ)
    → Taken x (got ++ c) m before
    → length c + m ≡ n
    → Taken x got n (c ++ before)
Taken-on x got c before m n (xs, p, l, q) h = (
  c ++ xs,
  p ∙ ap ok (append_assoc got c xs),
  omega (arith, length-append c xs),
  ap (◌++◌ c) q ∙ sym (append_assoc c xs (contents x.1)),
)

read_loop-Taken :
    (part : FramePart) (expected need : ℕ) (got : List ℕ) (events : List ReadEvent) (r : List ℕ)
    → length got + need ≤ u64_max
    → (read_loop part expected need got events).0 ≡ ok r
    → Taken (read_loop part expected need got events) got need (contents events)
read_loop-Taken part expected zero got events r h e =
    unfold read_loop in ([], rw append-nil, refl, refl)
read_loop-Taken part expected (suc n) got [] r h e = unfold read_loop in cc
read_loop-Taken part expected (suc n) got (chunk [] ∷ events) r h e = unfold read_loop in cc
read_loop-Taken part expected (suc n) got (chunk (b ∷ bs) ∷ events) r h e =
    let c = b ∷ bs in
    elim (Bool-cases (leb (length c) (suc n))) [
      | inl fits ↦
          let step = read_chunk part expected n got b bs events h in
          let e' = rw (step, fits) at e in
          let small : length (got ++ c) + (suc n - length c) ≤ u64_max =
            omega (arith, length-append got c, leb→le (length c) (suc n) fits) in
          rw (step, fits)
            (Taken-on (read_loop part expected (suc n - length c) (got ++ c) events) got c
              (contents events) (suc n - length c) (suc n)
              (read_loop-Taken part expected (suc n - length c) (got ++ c) events r small e')
              (omega (arith, leb→le (length c) (suc n) fits)))
      | inr more ↦
          rw (read_chunk part expected n got b bs events h, more)
            (Taken-here got c (suc n) events (ground arith))
    ]
read_loop-Taken part expected (suc n) got (overrun ∷ events) r h e = unfold read_loop in cc
read_loop-Taken part expected (suc n) got (fault ErrorKind.interrupted ∷ events) r h e =
    let step = read_interrupted part expected n got events in
    rw step (read_loop-Taken part expected (suc n) got events r h (rw step at e))
read_loop-Taken part expected (suc n) got (fault ErrorKind.unexpected_eof ∷ events) r h e =
    unfold read_loop in cc
read_loop-Taken part expected (suc n) got (fault ErrorKind.invalid_data ∷ events) r h e =
    unfold read_loop in cc
read_loop-Taken part expected (suc n) got (fault (ErrorKind.other k) ∷ events) r h e =
    unfold read_loop in cc

-- Where a read succeeds, on any transport, the bytes returned are the next `size` bytes of the
-- stream, and what is left follows them.
pub read_exact_bounded_taken :
    (size : ℕ) (part : FramePart) (events : List ReadEvent) (xs : List ℕ)
    → size ≤ u64_max
    → (read_exact_bounded size part events).0 ≡ ok xs
    → (length xs ≡ size)
      × (contents events ≡ xs ++ contents (read_exact_bounded size part events).1)
unfolding read_exact_bounded
read_exact_bounded_taken size part events xs h e =
    let (ys, p, l, q) = read_loop-Taken part size size [] events xs (omega arith) e in
    let same : ys ≡ xs = ok-injective (sym p ∙ e) in (rw (← same) l, rw (← same) q)
