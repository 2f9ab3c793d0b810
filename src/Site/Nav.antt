-- ===== src/Site/Nav.antt =====
-- site-src/src/nav.ts: the groups of the navigation, an icon kept by its name, and the order of the
-- sections in site-src/src/App.tsx.
pub mod Ids
use llm_serve.Base.{List, [], ◌∷◌, ◌++◌, map, String}

pub record NavItem : Type 0 where
  pub id : String
  pub label : String
  pub icon : String

pub record NavGroup : Type 0 where
  pub title : String
  pub items : List NavItem

abbrev pub item : String → String → String → NavItem
item id label icon = record { id = id; label = label; icon = icon }

unfoldable pub nav : List NavGroup
nav =
    record {
      title = "The result";
      items =
          item "overview" "Overview" "BookOpen"
          ∷ item "results" "Ablation" "Gauge"
          ∷ item "load" "Under load" "TrendingUp"
          ∷ [];
    }
    ∷ record {
      title = "How it is built";
      items =
          item "journey" "Build order" "Route"
          ∷ item "architecture" "System design" "Network"
          ∷ item "memory" "KV memory" "Layers"
          ∷ item "motion" "In motion" "Play"
          ∷ item "cpu" "CPU limits" "Cpu"
          ∷ [];
    }
    ∷ record {
      title = "Proof";
      items =
          item "correctness" "Correctness" "ShieldCheck"
          ∷ item "operations" "Operations" "Activity"
          ∷ [];
    }
    ∷ record {
      title = "Honesty";
      items =
          item "problems" "Problems fixed" "Wrench"
          ∷ item "negative-results" "Negative results" "TriangleAlert"
          ∷ item "methodology" "Method" "FlaskConical"
          ∷ item "limitations" "Limitations" "Scale"
          ∷ item "reproduce" "Reproduce" "Terminal"
          ∷ [];
    }
    ∷ []

abbrev pub ids_of : List NavItem → List String
ids_of [] = []
ids_of (i ∷ is) = i.id ∷ ids_of is

abbrev pub ids_of_groups : List NavGroup → List String
ids_of_groups [] = []
ids_of_groups (g ∷ gs) = ids_of g.items ++ ids_of_groups gs

-- `NAV.flatMap((g) => g.items.map((i) => i.id))`
unfoldable pub section_ids : List String
unfolding nav
section_ids = ids_of_groups nav

-- The order of the sections in `App` of site-src/src/App.tsx, by the id that each component gives.
unfoldable pub page_sections : List String
page_sections =
    "overview" ∷ "results" ∷ "load" ∷ "journey" ∷ "architecture" ∷ "memory" ∷ "motion" ∷ "cpu"
    ∷ "correctness" ∷ "operations" ∷ "problems" ∷ "negative-results" ∷ "methodology" ∷ "limitations"
    ∷ "reproduce" ∷ []
