-- ===== src/Site/Problems.antt =====
-- site-src/src/components/Problems.tsx: the filter by kind, the counts on its buttons and the list of
-- problems of which at most one is open.
pub mod Filter
use llm_serve.Base.{
  ℕ, zero, suc, Bool, true, false, Option, none, some, List, [], ◌∷◌, String, str_eq, if◌then◌else◌,
  length,
}

pub data Tag : Type 0 where
  measurement correctness harness operations process : Tag

pub record Problem : Type 0 where
  pub id : String
  pub tag : Tag
  pub when : String
  pub title : String
  pub symptom : String
  pub wrong_model : String
  pub cause : String
  pub fix : String
  pub lesson : String
  pub evidence : String
  pub source : String

-- `ProblemTag | 'all'`
pub data Choice : Type 0 where
  all : Choice
  only : Tag → Choice

-- `Object.keys(TAGS)` with the labels
unfoldable pub tags : List (Choice × String)
tags =
    (all, "All")
    ∷ (only measurement, "Measurement")
    ∷ (only correctness, "Correctness")
    ∷ (only harness, "Harness")
    ∷ (only operations, "Operations")
    ∷ (only process, "Process")
    ∷ []

-- `p.tag === t`
abbrev pub tag_eq : Tag → Tag → Bool
tag_eq measurement measurement = true
tag_eq correctness correctness = true
tag_eq harness harness = true
tag_eq operations operations = true
tag_eq process process = true
tag_eq _ _ = false

abbrev pub keeps : Choice → Tag → Bool
keeps all t = true
keeps (only u) t = tag_eq t u

-- `problems.filter((p) => tag === 'all' || p.tag === tag)`
unfoldable pub shown : Choice → List Problem → List Problem
shown c [] = []
shown c (p ∷ ps) = let rest = shown c ps in if keeps c p.tag then p ∷ rest else rest

unfoldable pub counts : Choice → List Problem → ℕ
unfolding shown
counts all ps = length ps
counts (only t) ps = length (shown (only t) ps)

pub record View : Type 0 where
  pub tag : Choice
  pub open_ : Option String

-- `useState('all')` and `useState(problems[0]?.id ?? null)`
unfoldable pub init : List Problem → View
init [] = record { tag = all; open_ = none }
init (p ∷ ps) = record { tag = all; open_ = some p.id }

abbrev pub is_open : Option String → String → Bool
is_open none id = false
is_open (some o) id = str_eq o id

-- The click on a button of the filter, and on a problem.
unfoldable pub choose : Choice → View → View
choose c v = record v { tag = c }

unfoldable pub click : String → View → View
click id v = record v { open_ = if is_open v.open_ id then none else some id }

-- The rows of the answer to a problem, label first.
unfoldable pub fields : Problem → List (String × String)
fields p =
    ("What I saw", p.symptom)
    ∷ ("The wrong assumption", p.wrong_model)
    ∷ ("What was actually happening", p.cause)
    ∷ ("The fix", p.fix)
    ∷ ("What it taught", p.lesson)
    ∷ []
