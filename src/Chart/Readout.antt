-- ===== src/Chart/Readout.antt =====
-- What site-src/src/components/LineChart.tsx writes beside the drawing: the rows of the table view and the
-- readout under the crosshair.
use llm_serve.Base.{
  ap₂, ℕ, ◌≡◌, refl, Option, none, some, List, [], ◌∷◌, map, get_elem?, String, Option-cases, inl,
  inr, zero, suc,
}
use mathlib.Core.Option.{some-injective}
use llm_serve.Chart.{Axis, Point, Series, Chart, ax, point_at, whisker}

-- A cell of the table: the value, and the range if the seeds differ. An empty one shows a dash.
abbrev pub TableCell : Type 0
TableCell = Option (ℕ × Option (ℕ × ℕ))

unfoldable pub table_cell : List Point → ℕ → TableCell
unfolding point_at whisker
table_cell ps x = elim (point_at ps x) [ none ↦ none | some p ↦ some (p.y, whisker p) ]

unfoldable pub table_row : List Series → ℕ → ℕ × List TableCell
unfolding table_cell
table_row ss x = (x, map (λ s. table_cell s.points x) ss)

unfoldable pub table_rows : Axis → List Series → List (ℕ × List TableCell)
unfolding table_row
table_rows a ss = map (table_row ss) a.xs

-- An entry of the readout; `not run` is none.
abbrev pub Reading : Type 0
Reading = String × Option ℕ

unfoldable pub reading : ℕ → Series → Reading
unfolding point_at
reading x s = (s.label, elim (point_at s.points x) [ none ↦ none | some p ↦ some p.y ])

-- The readout while the crosshair is at a value, none while it is off.
unfoldable pub readout : Axis → List Series → Chart → Option (ℕ × List Reading)
unfolding ax reading
readout a ss c = elim (ax a c) [ none ↦ none | some x ↦ some (x, map (reading x) ss) ]

abbrev pub value_of : TableCell → Option ℕ
value_of none = none
value_of (some v) = some (v.0)

abbrev pub values : ℕ × List TableCell → List (Option ℕ)
values r = map value_of (r.1)

abbrev pub read_values : ℕ × List Reading → List (Option ℕ)
read_values r = map (λ q. q.1) (r.1)

cell-reading : (x : ℕ) (s : Series) → value_of (table_cell s.points x) ≡ (reading x s).1
unfolding table_cell reading
cell-reading x s = elim (Option-cases (point_at s.points x)) [
  | inl e ↦ rw (value_of, table_cell, reading, e) refl
  | inr (p, e) ↦ rw (value_of, table_cell, reading, e) refl
]

row-reading :
    (x : ℕ) (ss : List Series)
    → map value_of (table_row ss x).1 ≡ map (λ q. q.1) (map (reading x) ss)
unfolding table_row table_cell reading
row-reading x [] = refl
row-reading x (s ∷ ss) = ap₂ (λ v vs. v ∷ vs) (cell-reading x s) (row-reading x ss)

rows-get_elem? :
    (ys : List ℕ) (ss : List Series) (i x : ℕ)
    → get_elem? ys i ≡ some x
    → get_elem? (map (table_row ss) ys) i ≡ some (table_row ss x)
rows-get_elem? [] ss i x h = cc
rows-get_elem? (y ∷ ys) ss zero x h = rw (some-injective _ _ h) refl
rows-get_elem? (y ∷ ys) ss (suc i) x h = rows-get_elem? ys ss i x h

-- With the crosshair at the value of place `i` the readout lists what the row `i` of the table view lists.
pub readout-table_rows :
    (a : Axis) (ss : List Series) (i x : ℕ) (as_table : _)
    → get_elem? a.xs i ≡ some x
    → (r : ℕ × List TableCell) × (q : ℕ × List Reading) × (get_elem? (table_rows a ss) i ≡ some r)
      × (readout a ss (record { active = some i; as_table = as_table }) ≡ some q)
      × (r.0 ≡ q.0)
      × (values r ≡ read_values q)
unfolding table_rows readout ax table_row
readout-table_rows a ss i x as_table h = (
  table_row ss x,
  (x, map (reading x) ss),
  rows-get_elem? a.xs ss i x h,
  rw (readout, ax, h) refl,
  refl,
  row-reading x ss,
)
