-- ===== src/Chart/Tests.antt =====
-- A chart of three rates and two lines.
use llm_serve.Base.{ℕ, ◌≡◌, refl, arith, none, List, [], ◌∷◌, get_or}
use llm_serve.Chart.{
  Axis, linear, nearest, Point, Series, End, labels, init, move, arrow_right, arrow_left, focus,
}
use llm_serve.Chart.Nearest.{Best, nearest-Best}
use llm_serve.Chart.Keys.{OnAxis, run, crosshair-OnAxis}

abbrev axis : Axis
axis = record { mode = linear; xs = 1 ∷ 2 ∷ 4 ∷ []; iw = 600 }

abbrev at_point : ℕ → ℕ → Point
at_point x y = record { x = x; y = y; min_ = none; max_ = none }

abbrev two_lines : List Series
two_lines =
    record {
      key = "m2";
      label = "Static";
      color = "";
      dash = none;
      points = at_point 1 3 ∷ at_point 4 10 ∷ [];
    }
    ∷ record {
      key = "m5";
      label = "Paged";
      color = "";
      dash = none;
      points = at_point 1 4 ∷ at_point 4 10 ∷ [];
    }
    ∷ []

abbrev label_at : ℕ → ℕ → End
label_at y x = record { key = ""; label = ""; color = ""; y = y; x = x }

nearest_second : nearest axis 700 ≡ 1
unfolding nearest
nearest_second = refl

nearest-Best_example : Best axis 700 axis.xs (nearest axis 700)
nearest-Best_example = nearest-Best axis 700 (omega arith)

crosshair-OnAxis_example :
    OnAxis axis
      (run axis
        (focus ∷ arrow_right ∷ arrow_right ∷ arrow_right ∷ move 700 ∷ arrow_left ∷ [])
        init).active
crosshair-OnAxis_example =
    crosshair-OnAxis axis
      (focus ∷ arrow_right ∷ arrow_right ∷ arrow_right ∷ move 700 ∷ arrow_left ∷ []) (omega arith)

abbrev first_label : End
first_label = get_or (labels 840 axis 286 12 two_lines) 0 (label_at 0 0)

abbrev second_label : End
second_label = get_or (labels 840 axis 286 12 two_lines) 1 (label_at 0 0)
