-- ===== src/Chart/Keys.antt =====
-- Where the pointer and the keys of site-src/src/components/LineChart.tsx take the crosshair.
use llm_serve.Base.{
  ℕ, suc, ◌+◌, ◌≤◌, ◌<◌, arith, Option, none, some, List, [], ◌∷◌, length, ltb, Bool-cases, inl,
  inr,
}
use llm_serve.Chart.{
  Axis, nearest_from, nearest, dist, x_at, Chart, init, Event, move, arrow_right, arrow_left,
  other_key, focus, toggle_table, handle, left_of, or_first,
}

-- The crosshair is off, or at a value of the axis.
pub OnAxis : Axis → Option ℕ → Type 0
OnAxis a none = Unit {0}
OnAxis a (some i) = i < length a.xs

pub nearest_from-lt :
    (a : Axis) (px i best : ℕ) (bd : Option ℕ) (ys : List ℕ) (n : ℕ)
    → best < n
    → i + length ys ≤ n
    → nearest_from a px i best bd ys < n
unfolding nearest_from
nearest_from-lt a px i best bd [] n h k = h
nearest_from-lt a px i best none (y ∷ ys) n h k =
    nearest_from-lt a px (suc i) i (some (dist (x_at a y) px)) ys n (omega arith) (omega arith)
nearest_from-lt a px i best (some bd) (y ∷ ys) n h k =
    elim (Bool-cases (ltb (dist (x_at a y) px) bd)) [
      | inl e ↦ rw e (
          nearest_from-lt a px (suc i) i (some (dist (x_at a y) px)) ys n (omega arith)
            (omega arith))
      | inr e ↦ rw e (nearest_from-lt a px (suc i) best (some bd) ys n h (omega arith))
    ]

left_of-lt : (a : Axis) (o : Option ℕ) → 0 < length a.xs → OnAxis a o → left_of o < length a.xs
unfolding OnAxis
left_of-lt a none some_value h = omega arith
left_of-lt a (some i) some_value h = omega arith

or_first-lt : (a : Axis) (o : Option ℕ) → 0 < length a.xs → OnAxis a o → or_first o < length a.xs
unfolding OnAxis
or_first-lt a none some_value h = omega arith
or_first-lt a (some i) some_value h = h

handle-OnAxis :
    (a : Axis) (e : Event) (c : Chart)
    → 0 < length a.xs
    → OnAxis a c.active
    → OnAxis a (handle a e c).active
unfolding OnAxis handle nearest
handle-OnAxis a (move px) c some_value h =
    nearest_from-lt a px 0 0 none a.xs (length a.xs) (omega arith) (omega arith)
handle-OnAxis a arrow_right c some_value h = omega arith
handle-OnAxis a arrow_left c some_value h = left_of-lt a c.active some_value h
handle-OnAxis a focus c some_value h = or_first-lt a c.active some_value h
handle-OnAxis a other_key c some_value h = h
handle-OnAxis a toggle_table c some_value h = h
handle-OnAxis a _ c some_value h = tt

pub run : Axis → List Event → Chart → Chart
run a [] c = c
run a (e ∷ es) c = run a es (handle a e c)

run-OnAxis :
    (a : Axis) (es : List Event) (c : Chart)
    → 0 < length a.xs
    → OnAxis a c.active
    → OnAxis a (run a es c).active
unfolding run
run-OnAxis a [] c some_value h = h
run-OnAxis a (e ∷ es) c some_value h =
    run-OnAxis a es (handle a e c) some_value (handle-OnAxis a e c some_value h)

-- On an axis with at least one value, however the pointer moves and whichever keys are pressed, the
-- crosshair is off or at a value of the axis.
pub crosshair-OnAxis :
    (a : Axis) (es : List Event) → 0 < length a.xs → OnAxis a (run a es init).active
unfolding init OnAxis
crosshair-OnAxis a es some_value = run-OnAxis a es init some_value tt
