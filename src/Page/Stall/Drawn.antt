-- ===== src/Page/Stall/Drawn.antt =====
-- Where StallChart of site-src/src/components/Cpu.tsx draws its lines.
use llm_serve.Base.{ℕ, ◌+◌, ◌*◌, ◌≤◌, arith, List, [], ◌∷◌, ◌++◌, max}
use llm_serve.Chart.{greatest}
use llm_serve.Page.Data.{Pair}
use llm_serve.Page.Stall.{m_left, m_top, inner_width, inner_height, time, gap, x_at, y_at}

greatest_monotone : (x y : ℕ) (ys : List ℕ) → x ≤ y → greatest x ys ≤ greatest y ys
unfolding greatest
greatest_monotone x y [] h = h
greatest_monotone x y (z ∷ zs) h = greatest_monotone (max x z) (max y z) zs (omega arith)

-- Both series, one after the other.
abbrev pub drawn : List Pair → List Pair → List Pair
drawn base inj = base ++ inj

-- A point within the axes, each position multiplied as it is kept.
pub record IsInside (w last upmost : ℕ) (p : Pair) : Type 0 where
  pub right_of_axis : m_left * last ≤ x_at w last (time p)
  pub left_of_end : x_at w last (time p) ≤ (m_left + inner_width w) * last
  pub below_top : m_top * upmost ≤ y_at upmost (gap p)
  pub above_axis : y_at upmost (gap p) ≤ (m_top + inner_height) * upmost
