-- ===== src/Chart/Labels.antt =====
-- The distances of the labels at the ends of the lines of site-src/src/components/LineChart.tsx.
use llm_serve.Base.{ℕ, ◌+◌, ◌*◌, ◌≤◌, ◌≡◌, ◌&&◌, List, [], ◌∷◌, ltb, ◌==◌, if◌then◌else◌}
use llm_serve.Chart.{End}

abbrev pub AllAt : ℕ → List End → Type 0
AllAt x [] = Unit {0}
AllAt x (e ∷ es) = (e.x ≡ x) × AllAt x es

abbrev pub Sorted : List End → Type 0
Sorted [] = Unit {0}
Sorted (e ∷ []) = Unit {0}
Sorted (e ∷ f ∷ es) = (e.y ≤ f.y) × Sorted (f ∷ es)

abbrev nudged : ℕ → End → End → End
nudged px a b =
    if (a.x == b.x) && ltb b.y (a.y + 15 * px) then record b { y = a.y + 15 * px } else b

-- Each entry at least 15 pixels below the one before.
abbrev pub SpacedFrom : ℕ → ℕ → List End → Type 0
SpacedFrom px y [] = Unit {0}
SpacedFrom px y (e ∷ es) = (y + 15 * px ≤ e.y) × SpacedFrom px e.y es
