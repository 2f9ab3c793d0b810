-- ===== src/Site/Hooks/Progress.antt =====
-- The range and the growth of useScrollProgress of site-src/src/lib/hooks.ts.
use llm_serve.Base.{ℕ, ◌-◌, ◌≤◌, ◌<◌, ◌≡◌, arith}
use llm_serve.Site.Hooks.{progress, measure}

-- The bar is drawn between 0 and 1, wherever the page is scrolled.
pub progress_bounds :
    (a b sh ih : ℕ)
    → (0 < (progress a b sh ih).den) × ((progress a b sh ih).num ≤ (progress a b sh ih).den)
unfolding progress
progress_bounds a b sh ih = ground arith

-- Scrolling down never shrinks the bar.
pub progress_mono :
    (a a' sh ih : ℕ)
    → a ≤ a'
    → ((progress a 0 sh ih).den ≡ (progress a' 0 sh ih).den)
      × ((progress a 0 sh ih).num ≤ (progress a' 0 sh ih).num)
unfolding progress
progress_mono a a' sh ih h = ground arith

-- At the end of a page that is taller than the window the bar is full.
pub progress_full :
    (a sh ih : ℕ) → ih < sh → sh - ih ≤ a → (progress a 0 sh ih).num ≡ (progress a 0 sh ih).den
unfolding progress
progress_full a sh ih h k = ground arith

-- A chart is never drawn narrower than 280 pixels.
pub le-measure : (n d : ℕ) → 280 ≤ measure n d
unfolding measure
le-measure n d = omega arith
