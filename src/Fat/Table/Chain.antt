-- ===== src/Fat/Table/Chain.antt =====
-- The walk along a chain of clusters, against the chains that the table holds.
use undelete_master.Base.{
  ℕ, zero, suc, ◌+◌, ◌≤◌, ◌<◌, ◌≡◌, ◌↔◌, ◌⊎◌, inl, inr, min, Bool, true, false, ◌||◌, Option, none,
  some, List, [], ◌∷◌, length, any, leb, ltb, ◌==◌, arith, refl, ap, sym, All, All-map, ◌∙◌,
  Bool-cases,
}
use undelete_master.Fat.Table.{FatTable, FatEntry, entry, round, push, follow, chain}

abbrev pub InRange : FatTable → ℕ → Type 0
InRange t c = (2 ≤ c) × (c < t.cluster_count + 2)

-- No number stands twice in a list.
abbrev pub NoRepeat : List ℕ → Type 0
NoRepeat [] = Unit {0}
NoRepeat (c ∷ cs) = (any (λ d. d == c) cs ≡ false) × NoRepeat cs

-- The clusters `cs` are data clusters, the first is `start`, and each entry names the next cluster.
abbrev pub IsLinked : FatTable → ℕ → List ℕ → Type 0
IsLinked t start [] = Unit {0}
IsLinked t start (c ∷ cs) =
    (c ≡ start)
    × InRange t c
    × ((cs ≡ []) ⊎ ((n : ℕ) × (entry t c ≡ some (FatEntry.next n)) × IsLinked t n cs))

-- The last entry of `cs` is the end of a chain.
abbrev pub IsEnded : FatTable → List ℕ → Type 0
IsEnded t [] = Unit → ⊥
IsEnded t (c ∷ []) = entry t c ≡ some FatEntry.end_of_chain
IsEnded t (c ∷ d ∷ cs) = IsEnded t (d ∷ cs)

-- No cluster of `cs` is in `visited`, and none stands twice.
abbrev IsFresh : List ℕ → List ℕ → Type 0
IsFresh visited [] = Unit {0}
IsFresh visited (c ∷ cs) = (any (λ d. d == c) visited ≡ false) × IsFresh (c ∷ visited) cs

-- What `rounds` rounds from `current` return.
abbrev IsWalk : FatTable → ℕ → List ℕ → ℕ → List ℕ × Bool → Type 0
IsWalk t rounds visited current (cs, complete) =
    IsFresh visited cs
    × IsLinked t current cs
    × (length cs ≤ rounds)
    × ((complete ≡ true) ↔ IsEnded t cs)

IsWalk-nil :
    (t : FatTable) (rounds : ℕ) (visited : List ℕ) (current : ℕ)
    → IsWalk t rounds visited current ([], false)
IsWalk-nil t rounds visited current = (tt, tt, omega arith, ((λ h. cc), λ h. absurd (h tt)))

IsWalk-last :
    (t : FatTable) (rounds : ℕ) (visited : List ℕ) (current : ℕ) (e : FatEntry) (complete : Bool)
    → InRange t current
    → any (λ d. d == current) visited ≡ false
    → entry t current ≡ some e
    → ((complete ≡ true) ↔ (e ≡ FatEntry.end_of_chain))
    → IsWalk t (suc rounds) visited current (current ∷ [], complete)
IsWalk-last t rounds visited current e complete i f same h =
    ((f, tt), (refl, i, inl refl), omega arith, ((λ c. same ∙ ap some (h.0 c)), λ k. h.1 cc))

IsWalk-next :
    (t : FatTable) (rounds : ℕ) (visited : List ℕ) (current n : ℕ) (r : List ℕ × Bool)
    → InRange t current
    → any (λ d. d == current) visited ≡ false
    → entry t current ≡ some (FatEntry.next n)
    → IsWalk t rounds (current ∷ visited) n r
    → IsWalk t (suc rounds) visited current (current ∷ r.0, r.1)
IsWalk-next t rounds visited current n ([], complete) i f e w =
    ((f, tt), (refl, i, inl refl), omega arith, ((λ h. absurd (w.3.0 h tt)), λ h. cc))
IsWalk-next t rounds visited current n (d ∷ cs, complete) i f e (a, b, c, h) =
    ((f, a), (refl, i, inr (n, e, b)), omega (arith, c), h)

follow_entry :
    (t : FatTable) (rounds : ℕ) (visited : List ℕ) (current : ℕ) (rest : ℕ → List ℕ × Bool)
    → ((n : ℕ) → IsWalk t rounds (current ∷ visited) n (rest n))
    → InRange t current
    → any (λ d. d == current) visited ≡ false
    → (o : Option FatEntry) → entry t current ≡ o
    → IsWalk t (suc rounds) visited current (push current (round o rest))
follow_entry t rounds visited current rest ih i f none e =
    ((f, tt), (refl, i, inl refl), omega arith, ((λ h. cc), λ h. cc))
follow_entry t rounds visited current rest ih i f (some (FatEntry.next n)) e =
    IsWalk-next t rounds visited current n (rest n) i f e (ih n)
follow_entry t rounds visited current rest ih i f (some FatEntry.end_of_chain) e =
    IsWalk-last t rounds visited current _ true i f e (ground arith)
follow_entry t rounds visited current rest ih i f (some FatEntry.free) e =
    IsWalk-last t rounds visited current _ false i f e (ground arith)
follow_entry t rounds visited current rest ih i f (some FatEntry.bad) e =
    IsWalk-last t rounds visited current _ false i f e (ground arith)
follow_entry t rounds visited current rest ih i f (some FatEntry.reserved) e =
    IsWalk-last t rounds visited current _ false i f e (ground arith)

follow_walks :
    (t : FatTable) (rounds : ℕ) (visited : List ℕ) (current : ℕ)
    → IsWalk t rounds visited current (follow t rounds visited current)
unfolding follow
follow_walks t zero visited current = IsWalk-nil t zero visited current
follow_walks t (suc rounds) visited current =
    elim (Bool-cases (ltb current 2 || leb (t.cluster_count + 2) current)) [
      | inl outside ↦ rw outside (IsWalk-nil t (suc rounds) visited current)
      | inr inside ↦ elim (Bool-cases (any (λ c. c == current) visited)) [
        | inl seen ↦ rw inside (rw seen (IsWalk-nil t (suc rounds) visited current))
        | inr new ↦
            let i : InRange t current = ground arith in
            rw inside (
              rw new (
                follow_entry t rounds visited current _
                  (λ n. follow_walks t rounds (current ∷ visited) n) i new (entry t current) refl))
      ]
    ]

InRange-test :
    (t : FatTable) (c : ℕ) → InRange t c → (ltb c 2 || leb (t.cluster_count + 2) c) ≡ false
InRange-test t c i = ground arith

-- A list that starts with the entry-linked clusters of a chain is followed to its end.
follow_complete :
    (t : FatTable) (rounds : ℕ) (visited cs : List ℕ) (current : ℕ)
    → IsFresh visited cs
    → IsLinked t current cs
    → length cs ≤ rounds
    → IsEnded t cs
    → follow t rounds visited current ≡ (cs, true)
unfolding follow
follow_complete t rounds visited [] current f l h e = absurd (e tt)
follow_complete t zero visited (c ∷ cs) current f l h e = absurd (omega arith)
follow_complete t (suc rounds) visited (c ∷ []) current f (same, i, _) h e =
    rw (sym same, InRange-test t c i, f.0, e) refl
follow_complete t (suc rounds) visited (c ∷ d ∷ cs) current f (same, i, inl none_left) h e = cc
follow_complete t (suc rounds) visited (c ∷ d ∷ cs) current f (same, i, inr (n, named, l)) h e =
    let rest = follow_complete t rounds (c ∷ visited) (d ∷ cs) n f.1 l (omega arith) e in
    rw (sym same, InRange-test t c i, f.0, named, rest) refl

-- Both readings of a list without repetition.
apart_any :
    (c : ℕ) (visited cs : List ℕ)
    → All (λ d. any (λ e. e == d) (c ∷ visited) ≡ false) cs
    → any (λ d. d == c) cs ≡ false
apart_any c visited [] h = refl
apart_any c visited (d ∷ cs) h = ground (arith, apart_any c visited cs h.1, h.0)

IsFresh-NoRepeat :
    (visited cs : List ℕ)
    → IsFresh visited cs
    → All (λ d. any (λ e. e == d) visited ≡ false) cs × NoRepeat cs
IsFresh-NoRepeat visited [] f = (tt, tt)
IsFresh-NoRepeat visited (c ∷ cs) f =
    let (apart, none_twice) = IsFresh-NoRepeat (c ∷ visited) cs f.1 in
    ((f.0, All-map (λ d h. ground arith) cs apart), (apart_any c visited cs apart, none_twice))

NoRepeat-IsFresh :
    (visited cs : List ℕ)
    → All (λ d. any (λ e. e == d) visited ≡ false) cs
    → NoRepeat cs
    → IsFresh visited cs
NoRepeat-IsFresh visited [] a f = tt
NoRepeat-IsFresh visited (c ∷ cs) a f =
    (a.0, NoRepeat-IsFresh (c ∷ visited) cs (apart_cons c visited cs f.0 a.1) f.1)
  where
    apart_cons :
        (c : ℕ) (visited cs : List ℕ)
        → any (λ d. d == c) cs ≡ false
        → All (λ d. any (λ e. e == d) visited ≡ false) cs
        → All (λ d. any (λ e. e == d) (c ∷ visited) ≡ false) cs
    apart_cons c visited [] h a = tt
    apart_cons c visited (d ∷ cs) h a = (ground arith, apart_cons c visited cs (ground arith) a.1)

-- `chain` reports a complete chain exactly when the table holds one of at most the allowed length:
-- data clusters without repetition, the first one asked for, each entry naming the next cluster and
-- the last one ending the chain. The list returned is that chain.
pub chain_complete_iff :
    (t : FatTable) (start max_clusters : ℕ) (cs : List ℕ)
    → (chain t start max_clusters ≡ (cs, true)) ↔ (
        IsLinked t start cs
        × IsEnded t cs
        × NoRepeat cs
        × (length cs ≤ min max_clusters t.cluster_count))
unfolding chain
chain_complete_iff t start max_clusters cs =
    let rounds = min max_clusters t.cluster_count in
    (
      (λ e.
          let (f, l, size, ended) = rw e at (follow_walks t rounds [] start) in
          (l, ended.0 refl, (IsFresh-NoRepeat [] cs f).1, size)),
      λ (l, e, f, size).
          follow_complete t rounds [] cs start (NoRepeat-IsFresh [] cs (all_apart cs) f) l size e,
    )
  where
    all_apart : (cs : List ℕ) → All (λ d. any (λ e. e == d) [] ≡ false) cs
    all_apart [] = tt
    all_apart (c ∷ cs) = (refl, all_apart cs)

-- Whatever the table holds, `chain` stops: it returns at most the allowed number of data clusters,
-- none twice, each named by the entry of the one before.
pub chain_is_path :
    (t : FatTable) (start max_clusters : ℕ)
    → let (cs, complete) = chain t start max_clusters in
      IsLinked t start cs × NoRepeat cs × (length cs ≤ min max_clusters t.cluster_count)
unfolding chain
chain_is_path t start max_clusters =
    let rounds = min max_clusters t.cluster_count in
    let (f, l, size, ended) = follow_walks t rounds [] start in
    (l, (IsFresh-NoRepeat [] _ f).1, size)
