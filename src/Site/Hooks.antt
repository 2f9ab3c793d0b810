-- ===== src/Site/Hooks.antt =====
-- site-src/src/lib/hooks.ts. A hook's effect becomes a function of the hook's state and of what the
-- browser reports. A length or a ratio that the browser measures is a numerator over a denominator.
pub mod Highlight
pub mod Progress
pub mod Ticker
use llm_serve.Base.{
  ℕ, zero, suc, ◌+◌, ◌-◌, ◌*◌, ◌/◌, Bool, true, false, ◌&&◌, not, Option, none, some, List, [], ◌∷◌,
  if◌then◌else◌, ltb, leb, ◌==◌, max, min, String, str_eq,
}

-- `Math.round(n / d)` for `0 < d`
abbrev pub round_div : ℕ → ℕ → ℕ
round_div n d = (2 * n + d) / (2 * d)

-- `measure` of `useWidth`
unfoldable pub measure : ℕ → ℕ → ℕ
measure n d = max 280 (round_div n d)

-- An `IntersectionObserverEntry`, its ratio in hundredths of a percent.
pub record Entry : Type 0 where
  pub id : String
  pub is_intersecting : Bool
  pub ratio : ℕ

-- The `Map` of `useScrollSpy`, latest first.
abbrev pub Visible : Type 0
Visible = List (String × ℕ)

unfoldable pub ratio_of : Visible → String → ℕ
ratio_of [] id = 0
ratio_of ((k, v) ∷ m) id = if str_eq k id then v else ratio_of m id

-- `for (const e of entries) visible.set(e.target.id, e.isIntersecting ? e.intersectionRatio : 0)`
unfoldable pub note_entries : List Entry → Visible → Visible
note_entries [] m = m
note_entries (e ∷ es) m = note_entries es ((e.id, if e.is_intersecting then e.ratio else 0) ∷ m)

-- `ids.find((id) => (visible.get(id) ?? 0) > 0)`
unfoldable pub first_visible : List String → Visible → Option String
unfolding ratio_of
first_visible [] m = none
first_visible (id ∷ ids) m = if ltb 0 (ratio_of m id) then some id else first_visible ids m

pub record Spy : Type 0 where
  pub active : String
  pub visible : Visible

-- `ids[0] ?? ''`
unfoldable pub spy_init : List String → Spy
spy_init [] = record { active = ""; visible = [] }
spy_init (id ∷ ids) = record { active = id; visible = [] }

-- `if (first) setActive(first)`: the empty text is falsy too.
unfoldable pub set_active : Option String → String → String
set_active none active = active
set_active (some id) active = if str_eq id "" then active else id

-- One call of the observer.
unfoldable pub observe : List String → List Entry → Spy → Spy
unfolding note_entries first_visible set_active
observe ids entries s =
    let m = note_entries entries s.visible in
    record { active = set_active (first_visible ids m) s.active; visible = m }

pub record Fraction : Type 0 where
  pub num : ℕ
  pub den : ℕ

-- `useScrollProgress` at a scroll position `above - below`, which is negative in an overscroll.
unfoldable pub progress : ℕ → ℕ → ℕ → ℕ → Fraction
progress above below scroll_height inner_height =
    let most = scroll_height - inner_height in
    if ltb 0 most
    then record { num = min most (above - below); den = most }
    else record { num = 0; den = 1 }

-- `useTicker`: the intervals that the window runs, each with its period, and the cleanup that React
-- holds for the effect.
pub record Timers : Type 0 where
  pub running : List (ℕ × ℕ)
  pub fresh_id : ℕ
  pub cleanup : Option ℕ

unfoldable pub clear_interval : ℕ → List (ℕ × ℕ) → List (ℕ × ℕ)
clear_interval id [] = []
clear_interval id ((k, ms) ∷ ts) =
    let rest = clear_interval id ts in if k == id then rest else (k, ms) ∷ rest

-- React runs the cleanup of the last effect, if it returned one.
unfoldable pub run_cleanup : Option ℕ → Timers → Timers
unfolding clear_interval
run_cleanup none t = record t { cleanup = none }
run_cleanup (some id) t = record t { running = clear_interval id t.running; cleanup = none }

-- The effect: nothing while inactive, else `window.setInterval`.
unfoldable pub start_ticker : ℕ → Bool → Timers → Timers
start_ticker ms false t = t
start_ticker ms true t = record {
  running = (t.fresh_id, ms) ∷ t.running;
  fresh_id = suc t.fresh_id;
  cleanup = some t.fresh_id;
}

-- A render in which `ms` or `active` changed, and the unmounting of the component.
pub data TickerEvent : Type 0 where
  deps : ℕ → Bool → TickerEvent
  unmount : TickerEvent

unfoldable pub ticker_step : TickerEvent → Timers → Timers
unfolding run_cleanup start_ticker
ticker_step (deps ms active) t = start_ticker ms active (run_cleanup t.cleanup t)
ticker_step unmount t = run_cleanup t.cleanup t
