-- ===== src/Site/Tests.antt =====
-- The page's shell on small inputs.
use mathlib.Core.List.{Mem}
use llm_serve.Base.{
  ℕ, ◌≡◌, ◌⊎◌, refl, true, false, none, some, List, [], ◌∷◌, length, String, if◌then◌else◌,
}
use llm_serve.Site.Hooks.{Entry, Spy, observe, ratio_of, Timers, ticker_step, deps, unmount}
use llm_serve.Site.Hooks.Highlight.{IsFirst, reported}
use llm_serve.Site.Hooks.Ticker.{IsTidy, ticker_step_lem}
use llm_serve.Site.Nav.{section_ids}
use llm_serve.Site.Nav.Ids.{highlight_lem}
use llm_serve.Site.Sidebar.{Document, menu, mount, handle}
use llm_serve.Site.Sidebar.Effects.{InSync, mount-InSync, handle-InSync}
use llm_serve.Site.Problems
use llm_serve.Site.Problems.{
  Problem, shown, counts, keeps, only, measurement, correctness, harness, operations, process, View,
  click, is_open,
}

abbrev two_entries : List Entry
two_entries =
    record { id = "results"; is_intersecting = true; ratio = 4000 }
    ∷ record { id = "problem"; is_intersecting = false; ratio = 0 }
    ∷ []

abbrev at_top : Spy
at_top = record { active = "overview"; visible = [] }

abbrev one_interval : Timers
one_interval = record { running = (3, 1100) ∷ []; fresh_id = 4; cleanup = some 3 }

abbrev plain : Document
plain = record { theme = none; stored = none; writable = true; overflow = ""; listeners = false }

abbrev one_problem : Problem
one_problem = record {
  id = "p1";
  tag = harness;
  when = "";
  title = "Port held";
  symptom = "";
  wrong_model = "";
  cause = "";
  fix = "";
  lesson = "";
  evidence = "";
  source = "";
}

abbrev two_problems : List Problem
two_problems = one_problem ∷ record one_problem { id = "p2"; tag = measurement } ∷ []

harness_shown : length (shown (only harness) two_problems) ≡ 1
unfolding shown
harness_shown = refl

plain-InSync : InSync (mount plain)
plain-InSync = mount-InSync plain refl refl

highlight_lem_example :
    let t = observe section_ids two_entries at_top in
    (IsFirst section_ids (reported two_entries at_top.visible) t.active
      ⊎ (((k : String) → Mem k section_ids → reported two_entries at_top.visible k ≡ 0)
          × (t.active ≡ at_top.active)))
    × ((k : String) → ratio_of t.visible k ≡ reported two_entries at_top.visible k)
highlight_lem_example = highlight_lem two_entries at_top

ticker_step_lem_example :
    IsTidy (ticker_step (deps 2400 true) one_interval)
    × ((id : ℕ) × ((ticker_step (deps 2400 true) one_interval).running
          ≡ (if true then (id, 2400) ∷ [] else [])))
    × ((ticker_step unmount one_interval).running ≡ [])
ticker_step_lem_example = ticker_step_lem one_interval 2400 true (1100, refl)

handle-InSync_example : InSync (handle menu (mount plain))
handle-InSync_example = handle-InSync menu (mount plain) plain-InSync

abbrev first_open : View
first_open = record { tag = Problems.all; open_ = some "p1" }
