-- ===== src/Page/Stall/Peak.antt =====
-- The points that `reduce` picks in StallChart of site-src/src/components/Cpu.tsx.
use llm_serve.Base.{
  ℕ, ◌≤◌, ◌≡◌, ◌⊎◌, inl, inr, refl, arith, List, [], ◌∷◌, Bool-cases, ltb, ltb→lt, sym, subst,
  false, if◌then◌else◌,
}
use llm_serve.Page.Data.{Pair}
use llm_serve.Page.Stall.{gap, off, higher, peak, nearer, near}

-- One of the points.
abbrev pub Among : Pair → List Pair → Type 0
Among q [] = ⊥
Among q (p ∷ ps) = (q ≡ p) ⊎ Among q ps

-- What holds of every point.
abbrev pub Every : (Pair → Type 0) → List Pair → Type 0
Every P [] = Unit {0}
Every P (p ∷ ps) = P p × Every P ps

-- One of the points, and none has a larger gap.
abbrev pub IsHighest : Pair → List Pair → Type 0
IsHighest q ps = Among q ps × Every (λ p. gap p ≤ gap q) ps

-- One of the points, and none is nearer to the pointer.
abbrev pub IsNearest : (dx width last : ℕ) → Pair → List Pair → Type 0
IsNearest dx width last q ps =
    Among q ps × Every (λ p. off dx width last q ≤ off dx width last p) ps

Among-past : (q a p : Pair) (ps : List Pair) → Among q (a ∷ ps) → Among q (a ∷ p ∷ ps)
Among-past q a p ps (inl i) = inl i
Among-past q a p ps (inr m) = inr (inr m)

-- `reduce` starts from the first point and meets it again.
Among-again : (q p : Pair) (ps : List Pair) → Among q (p ∷ p ∷ ps) → Among q (p ∷ ps)
Among-again q p ps (inl i) = inl i
Among-again q p ps (inr m) = m

higher-IsHighest : (a : Pair) (ps : List Pair) → IsHighest (higher a ps) (a ∷ ps)
unfolding higher
higher-IsHighest a [] = (inl refl, (omega arith, tt))
higher-IsHighest a (p ∷ ps) = elim (Bool-cases (ltb (gap a) (gap p))) [
  | inl e ↦
      let (q, (l, h)) = higher-IsHighest p ps in
      subst (λ t. IsHighest (higher (if t then p else a) ps) (a ∷ p ∷ ps)) (sym e)
        (inr q, (omega (arith, ltb→lt _ _ e), (l, h)))
  | inr e ↦
      let (q, (l, h)) = higher-IsHighest a ps in
      subst (λ t. IsHighest (higher (if t then p else a) ps) (a ∷ p ∷ ps)) (sym e)
        (Among-past _ a p ps q, (l, (ground arith, h)))
]

nearer-IsNearest :
    (dx width last : ℕ) (a : Pair) (ps : List Pair)
    → IsNearest dx width last (nearer dx width last a ps) (a ∷ ps)
unfolding nearer
nearer-IsNearest dx width last a [] = (inl refl, (omega arith, tt))
nearer-IsNearest dx width last a (p ∷ ps) =
    elim (Bool-cases (ltb (off dx width last p) (off dx width last a))) [
      | inl e ↦
          let (q, (l, h)) = nearer-IsNearest dx width last p ps in
          subst
            (λ t.
              IsNearest dx width last (nearer dx width last (if t then p else a) ps) (a ∷ p ∷ ps))
            (sym e) (inr q, (omega (arith, ltb→lt _ _ e), (l, h)))
      | inr e ↦
          let (q, (l, h)) = nearer-IsNearest dx width last a ps in
          subst
            (λ t.
              IsNearest dx width last (nearer dx width last (if t then p else a) ps) (a ∷ p ∷ ps))
            (sym e) (Among-past _ a p ps q, (l, (omega (arith, not_less _ _ e), h)))
    ]
  where
    not_less : (m n : ℕ) → ltb m n ≡ false → n ≤ m
    not_less m n h = ground arith

-- The circle marks a point of the series whose gap no other exceeds.
pub peak-IsHighest : (p : Pair) (ps : List Pair) → IsHighest (peak (p ∷ ps)) (p ∷ ps)
unfolding peak
peak-IsHighest p ps = let (q, (l, h)) = higher-IsHighest p (p ∷ ps) in (Among-again _ p ps q, h)

-- The readout is of a point of the series to which no other is nearer across.
pub near-IsNearest :
    (dx width last : ℕ) (p : Pair) (ps : List Pair)
    → IsNearest dx width last (near dx width last (p ∷ ps)) (p ∷ ps)
unfolding near
near-IsNearest dx width last p ps =
    let (q, (l, h)) = nearer-IsNearest dx width last p (p ∷ ps) in (Among-again _ p ps q, h)
