-- ===== src/Chart/Nearest.antt =====
-- The value that the pointer picks in site-src/src/components/LineChart.tsx.
use llm_serve.Base.{
  none, suc, ◌∷◌, ◌≡◌, ◌+◌, ◌⊎◌, inl, inr, subst, sym, ◌∙◌, refl, some, ltb, ltb→lt, Bool-cases,
  arith, zero, ℕ, suc, ◌≡◌, ◌≤◌, ◌<◌, List, [], ◌∷◌, length, get_or,
}
use llm_serve.Chart.{nearest_from, nearest, Axis, dist, x_at}

abbrev pub gap : Axis → ℕ → ℕ → ℕ
gap a px x = dist (x_at a x) px

-- `best` is the place of the value in `all` that lies closest, and its gap is `bd`.
pub record Best (a : Axis) (px : ℕ) (ys : List ℕ) (k : ℕ) : Type 0 where
  pub inside : k < length ys
  pub closest : (j : ℕ) → j < length ys → gap a px (get_or ys k 0) ≤ gap a px (get_or ys j 0)
  pub earliest : (j : ℕ) → j < k → gap a px (get_or ys k 0) < gap a px (get_or ys j 0)

-- What the loop returns from index `i` on: the best so far, or a better one further on.
Outcome : Axis → ℕ → ℕ → ℕ → ℕ → List ℕ → ℕ → Type 0
Outcome a px i best bd ys r =
    ((r ≡ best) × ((j : ℕ) → j < length ys → bd ≤ gap a px (get_or ys j 0)))
    ⊎ ((k : ℕ) × (r ≡ i + k) × (gap a px (get_or ys k 0) < bd) × Best a px ys k)

Best-head :
    (a : Axis) (px y : ℕ) (ys : List ℕ)
    → ((j : ℕ) → j < length ys → gap a px y ≤ gap a px (get_or ys j 0))
    → Best a px (y ∷ ys) 0
Best-head a px y ys h = record {
  inside = omega arith;
  closest = close;
  earliest = λ j k. absurd (omega arith);
}
  where
    close : (j : ℕ) → j < length (y ∷ ys) → gap a px y ≤ gap a px (get_or (y ∷ ys) j 0)
    close zero k = omega arith
    close (suc j) k = h j (omega arith)

Best-tail :
    (a : Axis) (px y k : ℕ) (ys : List ℕ)
    → gap a px (get_or ys k 0) < gap a px y
    → Best a px ys k
    → Best a px (y ∷ ys) (suc k)
Best-tail a px y k ys h b = record {
  inside = let i = b.inside in omega arith;
  closest = close;
  earliest = early;
}
  where
    close :
        (j : ℕ) → j < length (y ∷ ys) → gap a px (get_or ys k 0) ≤ gap a px (get_or (y ∷ ys) j 0)
    close zero l = omega arith
    close (suc j) l = b.closest j (omega arith)

    early : (j : ℕ) → j < suc k → gap a px (get_or ys k 0) < gap a px (get_or (y ∷ ys) j 0)
    early zero l = h
    early (suc j) l = b.earliest j (omega arith)

nearest_from-Outcome :
    (a : Axis) (px i best bd : ℕ) (ys : List ℕ)
    → Outcome a px i best bd ys (nearest_from a px i best (some bd) ys)
unfolding Outcome nearest_from
nearest_from-Outcome a px i best bd [] = inl (refl, λ j h. absurd (omega arith))
nearest_from-Outcome a px i best bd (y ∷ ys) = elim (Bool-cases (ltb (dist (x_at a y) px) bd)) [
  | inl e ↦ rw e (elim (nearest_from-Outcome a px (suc i) i (dist (x_at a y) px) ys) [
    | inl (q, h) ↦ inr (0, q ∙ sum_zero, ltb→lt _ _ e, Best-head a px y ys h)
    | inr (k, q, h, b) ↦
        inr (suc k, q ∙ sum_suc k, omega (arith, ltb→lt _ _ e), Best-tail a px y k ys h b)
  ])
  | inr e ↦ rw e (elim (nearest_from-Outcome a px (suc i) best bd ys) [
    | inl (q, h) ↦ inl (q, all_of h (ground arith))
    | inr (k, q, h, b) ↦
        (let l : bd ≤ dist (x_at a y) px = ground arith in
          inr (suc k, q ∙ sum_suc k, h, Best-tail a px y k ys (omega arith) b))
  ])
]
  where
    sum_zero : i ≡ i + 0
    sum_zero = omega arith

    sum_suc : (k : ℕ) → suc i + k ≡ i + suc k
    sum_suc k = omega arith

    all_of :
        ((j : ℕ) → j < length ys → bd ≤ gap a px (get_or ys j 0))
        → bd ≤ gap a px y
        → (j : ℕ) → j < length (y ∷ ys)
        → bd ≤ gap a px (get_or (y ∷ ys) j 0)
    all_of h l zero k = l
    all_of h l (suc j) k = h j (omega arith)

nearest_from-Best :
    (a : Axis) (px : ℕ) (ys : List ℕ) → 0 < length ys → Best a px ys (nearest_from a px 0 0 none ys)
unfolding nearest_from Outcome
nearest_from-Best a px [] h = absurd (omega arith)
nearest_from-Best a px (y ∷ ys) h = elim (nearest_from-Outcome a px 1 0 (gap a px y) ys) [
  | inl (q, k) ↦ subst (Best a px (y ∷ ys)) (sym q) (Best-head a px y ys k)
  | inr (k, q, l, b) ↦ subst (Best a px (y ∷ ys)) (sym (q ∙ one_more k)) (Best-tail a px y k ys l b)
]
  where
    one_more : (k : ℕ) → 1 + k ≡ suc k
    one_more k = omega arith

-- On an axis with at least one value the pointer picks the value whose position lies closest to it, the
-- first of those if several do.
pub nearest-Best : (a : Axis) (px : ℕ) → 0 < length a.xs → Best a px a.xs (nearest a px)
unfolding nearest
nearest-Best a px h = nearest_from-Best a px a.xs h
