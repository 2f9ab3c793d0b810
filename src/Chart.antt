-- ===== src/Chart.antt =====
-- site-src/src/components/LineChart.tsx: the axis across, the crosshair that the pointer and the keys
-- move, what the readout and the table look up, and the labels at the ends of the lines. A position is
-- kept exactly: across it is multiplied by `scale`, upwards by the top of the axis. The logarithmic axis
-- is left out.
pub mod Nearest
pub mod Keys
pub mod Labels
pub mod Readout
mod Tests
use llm_serve.Base.{
  ℕ, zero, suc, ◌+◌, ◌-◌, ◌*◌, Bool, true, false, ◌&&◌, not, Option, none, some, List, [], ◌∷◌,
  length, get_elem?, map, if◌then◌else◌, ltb, leb, ◌==◌, max, min, String,
}

pub record Point : Type 0 where
  pub x : ℕ
  pub y : ℕ
  pub min_ : Option ℕ
  pub max_ : Option ℕ

pub record Series : Type 0 where
  pub key : String
  pub label : String
  pub color : String
  pub dash : Option String
  pub points : List Point

-- `M_LEFT`, `M_TOP` and `M_BOTTOM`
abbrev pub m_left : ℕ
m_left = 46

abbrev pub m_top : ℕ
m_top = 14

abbrev pub m_bottom : ℕ
m_bottom = 40

unfoldable pub narrow : ℕ → Bool
narrow w = ltb w 620

unfoldable pub m_right : ℕ → ℕ
unfolding narrow
m_right w = if narrow w then 14 else 178

-- `iw` and `ih`; `useWidth` gives at least 280.
unfoldable pub inner_width : ℕ → ℕ
unfolding m_right
inner_width w = w - m_left - m_right w

unfoldable pub inner_height : ℕ → ℕ
inner_height height = height - m_top - m_bottom

-- `Math.min(...xs)` and `Math.max(...xs)`, from the first value on.
unfoldable pub least : ℕ → List ℕ → ℕ
least x [] = x
least x (y ∷ ys) = least (min x y) ys

unfoldable pub greatest : ℕ → List ℕ → ℕ
greatest x [] = x
greatest x (y ∷ ys) = greatest (max x y) ys

-- `xMode`
pub data XMode : Type 0 where
  linear point : XMode

pub record Axis : Type 0 where
  pub mode : XMode
  pub xs : List ℕ
  pub iw : ℕ

-- None where no value is given: `Math.min()` is infinite.
unfoldable pub x_min : Axis → Option ℕ
unfolding least
x_min a = elim a.xs [ [] ↦ none | x ∷ ys ↦ some (least x ys) ]

-- None where no value is given: `Math.max()` is infinite, below every number.
unfoldable pub x_max : Axis → Option ℕ
unfolding greatest
x_max a = elim a.xs [ [] ↦ none | x ∷ ys ↦ some (greatest x ys) ]

-- `xMax - xMin`
unfoldable pub span : Option ℕ → Option ℕ → ℕ
span none high = 0
span (some low) none = 0
span (some low) (some high) = high - low

-- `x - xMin`
unfoldable pub past : Option ℕ → ℕ → ℕ
past none x = 0
past (some low) x = x - low

-- `p.x < xMax`
unfoldable pub ends_early : Option ℕ → ℕ → Bool
ends_early none x = false
ends_early (some high) x = ltb x high

-- The divisor of `X`: `xMax - xMin || 1`, or `Math.max(1, xs.length - 1)`. Without values a linear axis
-- has no positions, they are not numbers; the 1 there stands for none.
unfoldable pub scale : Axis → ℕ
unfolding x_min x_max span
scale a = elim a.mode [
  | linear ↦ max 1 (span (x_min a) (x_max a))
  | point ↦ max 1 (length a.xs - 1)
]

-- `xs.indexOf(x)`
unfoldable pub index_of : List ℕ → ℕ → Option ℕ
index_of [] x = none
index_of (y ∷ ys) x =
    let rest = index_of ys x in
    if y == x then some 0 else elim rest [ none ↦ none | some i ↦ some (suc i) ]

-- `X(x)` times the scale; a value that is not on the axis has the index -1 there.
unfoldable pub x_at : Axis → ℕ → ℕ
unfolding scale x_min past index_of
x_at a x = elim a.mode [
  | linear ↦ m_left * scale a + past (x_min a) x * a.iw
  | point ↦ elim (index_of a.xs x) [
    | some i ↦ m_left * scale a + i * a.iw
    | none ↦ m_left * scale a - a.iw
  ]
]

abbrev pub dist : ℕ → ℕ → ℕ
dist a b = max a b - min a b

-- The loop of `move`, from the index `i`: `bd` is infinite before the first value.
unfoldable pub nearest_from : Axis → ℕ → ℕ → ℕ → Option ℕ → List ℕ → ℕ
unfolding x_at
nearest_from a px i best bd [] = best
nearest_from a px i best none (x ∷ ys) = nearest_from a px (suc i) i (some (dist (x_at a x) px)) ys
nearest_from a px i best (some bd) (x ∷ ys) =
    let d = dist (x_at a x) px in
    let closer = nearest_from a px (suc i) i (some d) ys in
    let rest = nearest_from a px (suc i) best (some bd) ys in if ltb d bd then closer else rest

-- `best` for the pointer at `px`, times the scale.
unfoldable pub nearest : Axis → ℕ → ℕ
unfolding nearest_from
nearest a px = nearest_from a px 0 0 none a.xs

-- `active` and `asTable`
pub record Chart : Type 0 where
  pub active : Option ℕ
  pub as_table : Bool

unfoldable pub init : Chart
init = record { active = none; as_table = false }

pub data Event : Type 0 where
  move : ℕ → Event
  leave arrow_right arrow_left escape other_key focus blur toggle_table : Event

abbrev pub right_of : Option ℕ → ℕ
right_of none = 0
right_of (some i) = suc i

-- `(a ?? 1) - 1`, which `Math.max` keeps at 0
abbrev pub left_of : Option ℕ → ℕ
left_of none = 0
left_of (some i) = i - 1

abbrev pub or_first : Option ℕ → ℕ
or_first none = 0
or_first (some i) = i

-- On an axis without values the right arrow and `focus` leave an index that is not one of `xs`; it is -1
-- in the code after the right arrow and 0 here, and `ax` is none for both.
unfoldable pub handle : Axis → Event → Chart → Chart
unfolding nearest
handle a (move px) c = record c { active = some (nearest a px) }
handle a leave c = record c { active = none }
handle a arrow_right c = record c { active = some (min (length a.xs - 1) (right_of c.active)) }
handle a arrow_left c = record c { active = some (left_of c.active) }
handle a escape c = record c { active = none }
handle a other_key c = c
handle a focus c = record c { active = some (or_first c.active) }
handle a blur c = record c { active = none }
handle a toggle_table c = record c { as_table = not c.as_table }

-- `ax`
unfoldable pub ax : Axis → Chart → Option ℕ
ax a c = elim c.active [ none ↦ none | some i ↦ get_elem? a.xs i ]

-- `s.points.find((q) => q.x === x)`, for a row of the table and for the readout.
unfoldable pub point_at : List Point → ℕ → Option Point
point_at [] x = none
point_at (p ∷ ps) x = if p.x == x then some p else point_at ps x

-- The whisker of a point, drawn where its seeds differ.
unfoldable pub whisker : Point → Option (ℕ × ℕ)
whisker p = elim p.min_ [
  | none ↦ none
  | some a ↦ elim p.max_ [ none ↦ none | some b ↦ if b == a then none else some (a, b) ]
]

-- `Y(y)` times the top of the axis, for `y` up to the top.
unfoldable pub y_at : ℕ → ℕ → ℕ → ℕ
y_at ih top y = (m_top + ih) * top - y * ih

-- An entry of `labels`.
pub record End : Type 0 where
  pub key : String
  pub label : String
  pub color : String
  pub y : ℕ
  pub x : ℕ

unfoldable pub last_point : List Point → Option Point
last_point [] = none
last_point (p ∷ []) = some p
last_point (p ∷ q ∷ ps) = last_point (q ∷ ps)

-- The label of a line that ends at a point; `w - mRight` is `M_LEFT + iw`.
unfoldable pub end_at : Axis → ℕ → ℕ → Series → Point → End
unfolding x_at x_max ends_early scale y_at
end_at a ih top s p = record {
  key = s.key;
  label = s.label;
  color = s.color;
  y = y_at ih top p.y;
  x =
      if ends_early (x_max a) p.x
      then x_at a p.x + 12 * scale a
      else (m_left + a.iw + 12) * scale a;
}

-- `series.flatMap(...)`
unfoldable pub ends : Axis → ℕ → ℕ → List Series → List End
unfolding end_at last_point
ends a ih top [] = []
ends a ih top (s ∷ ss) =
    let rest = ends a ih top ss in
    elim (last_point s.points) [ none ↦ rest | some p ↦ end_at a ih top s p ∷ rest ]

-- `.sort((a, b) => a.y - b.y)`, which keeps the order of equals.
unfoldable pub insert : End → List End → List End
insert e [] = e ∷ []
insert e (f ∷ fs) = let rest = insert e fs in if leb e.y f.y then e ∷ f ∷ fs else f ∷ rest

unfoldable pub sort : List End → List End
unfolding insert
sort [] = []
sort (e ∷ es) = insert e (sort es)

-- The loop over `ends` from its second entry, with the one before it. The test `b.y - a.y < 15` is written
-- without a difference, which may be negative. `px` is a pixel in the units of `y`.
unfoldable pub nudge_from : ℕ → End → List End → List End
nudge_from px a [] = []
nudge_from px a (b ∷ bs) =
    let c : End =
      if (a.x == b.x) && ltb b.y (a.y + 15 * px) then record b { y = a.y + 15 * px } else b in
    c ∷ nudge_from px c bs

unfoldable pub nudge : ℕ → List End → List End
unfolding nudge_from
nudge px [] = []
nudge px (e ∷ es) = e ∷ nudge_from px e es

-- `labels`
unfoldable pub labels : ℕ → Axis → ℕ → ℕ → List Series → List End
unfolding narrow ends sort nudge
labels w a ih top ss = if narrow w then [] else nudge top (sort (ends a ih top ss))
