-- ===== src/Page/Stall.antt =====
-- StallChart of site-src/src/components/Cpu.tsx: the gaps between two tokens over time, with and without one
-- long prompt. A time is counted in hundredths of a second and a gap in units of 10^-10 s, so that a tenth
-- of it is the unit of the ticks. A position across is multiplied by the last time and one upwards by the
-- top of the axis; neither is rounded.
pub mod Peak
pub mod Drawn
use llm_serve.Base.{
  ℕ, zero, suc, ◌+◌, ◌-◌, ◌*◌, ◌/◌, Bool, true, false, Option, none, some, List, [], ◌∷◌, ◌++◌, map,
  if◌then◌else◌, ltb, leb, max,
}
use llm_serve.Format.{nice_ticks}
use llm_serve.Chart.{greatest, dist}
use llm_serve.Page.Data.{Pair}

-- `m` and `h`
abbrev pub m_left : ℕ
m_left = 46

abbrev pub m_right : ℕ
m_right = 16

abbrev pub m_top : ℕ
m_top = 16

abbrev pub m_bottom : ℕ
m_bottom = 38

abbrev pub height : ℕ
height = 300

unfoldable pub inner_width : ℕ → ℕ
inner_width w = w - m_left - m_right

abbrev pub inner_height : ℕ
inner_height = height - m_top - m_bottom

abbrev pub time : Pair → ℕ
time p = p.0

abbrev pub gap : Pair → ℕ
gap p = p.1

-- `tMax`, and `gMax` in units of 10^-11 s.
unfoldable pub t_max : List Pair → List Pair → ℕ
unfolding greatest
t_max base inj = greatest 0 (map time base ++ map time inj)

unfoldable pub g_max : List Pair → List Pair → ℕ
unfolding greatest
g_max base inj = 11 * greatest 0 (map gap base ++ map gap inj)

unfoldable pub ticks : List Pair → List Pair → List ℕ
unfolding g_max nice_ticks
ticks base inj = nice_ticks (g_max base inj) 4

unfoldable pub top : List Pair → List Pair → ℕ
unfolding ticks greatest
top base inj = greatest 0 (ticks base inj)

-- `X`, multiplied by `tMax`, and `Y` of a gap, multiplied by `top`.
unfoldable pub x_at : ℕ → ℕ → ℕ → ℕ
unfolding inner_width
x_at w last t = m_left * last + t * inner_width w

unfoldable pub y_at : ℕ → ℕ → ℕ
y_at upmost g = (m_top + inner_height) * upmost - 10 * g * inner_height

-- `line`: the corners of the path, of which the first is moved to.
unfoldable pub line : ℕ → ℕ → ℕ → List Pair → List (ℕ × ℕ)
unfolding x_at y_at
line w last upmost pts = map (λ p. (x_at w last (time p), y_at upmost (gap p))) pts

-- `reduce` from the first member, which it meets again.
unfoldable pub higher : Pair → List Pair → Pair
higher a [] = a
higher a (p ∷ ps) = higher (if ltb (gap a) (gap p) then p else a) ps

-- `peak`
unfoldable pub peak : List Pair → Pair
unfolding higher
peak [] = (0, 0)
peak (p ∷ ps) = higher p (p ∷ ps)

-- How far a point is from the pointer, `dx` of `width` along an axis up to `last`, multiplied by `width`.
abbrev pub off : ℕ → ℕ → ℕ → Pair → ℕ
off dx width last p = dist (time p * width) (dx * last)

unfoldable pub nearer : ℕ → ℕ → ℕ → Pair → List Pair → Pair
nearer dx width last a [] = a
nearer dx width last a (p ∷ ps) =
    nearer dx width last (if ltb (off dx width last p) (off dx width last a) then p else a) ps

-- `near`
unfoldable pub near : ℕ → ℕ → ℕ → List Pair → Pair
unfolding nearer
near dx width last [] = (0, 0)
near dx width last (p ∷ ps) = nearer dx width last p (p ∷ ps)

-- `hover`: a time and the gaps of the two series.
pub record Hover : Type 0 where
  pub t : ℕ
  pub b : ℕ
  pub i : ℕ

pub data Event : Type 0 where
  move : (dx width : ℕ) → Event
  leave : Event

unfoldable pub handle : List Pair → List Pair → Event → Option Hover
unfolding near t_max
handle base inj (move dx width) =
    let last = t_max base inj in
    let i = near dx width last inj in
    some (record { t = time i; b = gap (near dx width last base); i = gap i })
handle base inj leave = none

-- `Math.round(g * 1000)`
unfoldable pub ms : ℕ → ℕ
ms g = (g + 5_000_000) / 10_000_000

-- `worstB` and `worstI`
abbrev pub or_zero : Option ℕ → ℕ
or_zero none = 0
or_zero (some g) = g

-- The readout: the time and the two gaps that the pointer picks, or the worst gaps.
unfoldable pub readout : Option Hover → Option ℕ → Option ℕ → Option ℕ × ℕ × ℕ
unfolding ms
readout (some v) worst_b worst_i = (some v.t, ms v.b, ms v.i)
readout none worst_b worst_i = (none, ms (or_zero worst_b), ms (or_zero worst_i))

-- The times written along the axis, in seconds.
unfoldable pub upto : ℕ → List ℕ → List ℕ
upto last [] = []
upto last (t ∷ ts) = if leb (100 * t) last then t ∷ upto last ts else upto last ts

unfoldable pub times : ℕ → List ℕ
unfolding upto
times last = upto last (0 ∷ 5 ∷ 10 ∷ 15 ∷ 20 ∷ 25 ∷ 30 ∷ [])
