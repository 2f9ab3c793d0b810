-- ===== src/Site/Hooks/Ticker.antt =====
-- The intervals that useTicker of site-src/src/lib/hooks.ts starts and clears.
use llm_serve.Base.{
  ℕ, ◌≡◌, refl, arith, Bool, true, false, Option, none, some, List, [], ◌∷◌, if◌then◌else◌,
}
use llm_serve.Site.Hooks.{
  Timers, deps, unmount, clear_interval, run_cleanup, start_ticker, ticker_step,
}

-- The intervals of a window that has no other: the one that the cleanup knows, or none.
abbrev pub Owned : Option ℕ → List (ℕ × ℕ) → Type 0
Owned none ts = ts ≡ []
Owned (some id) ts = (ms : ℕ) × (ts ≡ (id, ms) ∷ [])

abbrev pub IsTidy : Timers → Type 0
IsTidy t = Owned t.cleanup t.running

cleared :
    (t : Timers) (c : Option ℕ)
    → Owned c t.running
    → ((run_cleanup c t).running ≡ []) × ((run_cleanup c t).cleanup ≡ none)
unfolding run_cleanup clear_interval
cleared t none h = (h, refl)
cleared t (some id) (ms, e) = (rw e (ground arith), refl)

-- Where the window runs at most the interval that the cleanup knows, after a render an active ticker
-- has exactly one interval, of the period asked for, and an inactive one has none; after unmounting
-- there is none.
pub ticker_step_lem :
    (t : Timers) (ms : ℕ) (active : Bool)
    → IsTidy t
    → IsTidy (ticker_step (deps ms active) t)
      × ((id : ℕ) × ((ticker_step (deps ms active) t).running
            ≡ (if active then (id, ms) ∷ [] else [])))
      × ((ticker_step unmount t).running ≡ [])
unfolding ticker_step
ticker_step_lem t ms active h = ((after active).0, (after active).1, (cleared t t.cleanup h).0)
  where
    c : Timers
    c = run_cleanup t.cleanup t

    after :
        (active : Bool)
        → IsTidy (start_ticker ms active c)
          × ((id : ℕ) × ((start_ticker ms active c).running
                ≡ (if active then (id, ms) ∷ [] else [])))
    after true =
        unfold start_ticker in let e = (cleared t t.cleanup h).0 in ((ms, rw e), (c.fresh_id, rw e))
    after false = unfold start_ticker in let (e, n) = cleared t t.cleanup h in (rw n e, (0, e))
