-- ===== src/Site/Problems/Filter.antt =====
-- What the filter of site-src/src/components/Problems.tsx lists and counts.
use mathlib.Core.HLevel.{×_prop}
use mathlib.Core.List.{Mem, Mem-prop, mem-cons, not-mem-nil}
use mathlib.Core.Logic.Or
use llm_serve.Base.{
  ◌∙◌, suc, ◌+◌, ◌≡◌, ◌↔◌, not, ◌&&◌, inl, inr, refl, ap, arith, Bool, true, Bool-cases, List, [],
  ◌∷◌, String, str_eq, length,
}
use llm_serve.Site.Problems.{
  Tag, measurement, correctness, harness, operations, process, Problem, Choice, all, only, keeps,
  shown, counts, View, click, is_open,
}

shown_all : (ps : List Problem) → shown all ps ≡ ps
unfolding shown
shown_all [] = refl
shown_all (p ∷ ps) = ap (λ l. p ∷ l) (shown_all ps)

one_kind :
    (p : Problem) (ps : List Problem) (t : Tag)
    → p.tag ≡ t
    → counts (only measurement) (p ∷ ps)
        + counts (only correctness) (p ∷ ps)
        + counts (only harness) (p ∷ ps)
        + counts (only operations) (p ∷ ps)
        + counts (only process) (p ∷ ps)
      ≡ suc (
          counts (only measurement) ps
          + counts (only correctness) ps
          + counts (only harness) ps
          + counts (only operations) ps
          + counts (only process) ps)
unfolding counts
one_kind p ps measurement e = rw e (omega arith)
one_kind p ps _ e = rw e (omega arith)

-- The number on each button is the number of problems that its click lists.
pub length-shown : (c : Choice) (ps : List Problem) → length (shown c ps) ≡ counts c ps
unfolding counts
length-shown all ps = ap length (shown_all ps)
length-shown (only t) ps = refl

-- The numbers on the buttons of the five kinds add up to the number of all problems.
pub counts_add_up :
    (ps : List Problem)
    → counts (only measurement) ps
        + counts (only correctness) ps
        + counts (only harness) ps
        + counts (only operations) ps
        + counts (only process) ps
      ≡ counts all ps
counts_add_up [] = unfold counts in refl
counts_add_up (p ∷ ps) =
    one_kind p ps p.tag refl ∙ ap suc (counts_add_up ps) ∙ unfold counts in refl

-- A choice lists exactly the problems of its kind.
pub mem-shown :
    (c : Choice) (ps : List Problem) (q : Problem)
    → Mem q (shown c ps) ↔ (Mem q ps × (keeps c q.tag ≡ true))
unfolding shown
mem-shown c [] q = ((λ m. absurd (not-mem-nil m)), (λ h. absurd (not-mem-nil h.0)))
mem-shown c (p ∷ ps) q = elim (Bool-cases (keeps c p.tag)) [
  | inl e ↦ rw e (
    (λ m.
        Or.elim (×_prop Mem-prop Bool_prop) (mem-cons.0 m) (λ r. (mem-cons.1 (Or.inl r), rw r e))
          (λ t. let h = (mem-shown c ps q).0 t in (mem-cons.1 (Or.inr h.0), h.1))),
    (λ h.
        Or.elim Mem-prop (mem-cons.0 h.0) (λ r. mem-cons.1 (Or.inl r))
          (λ t. mem-cons.1 (Or.inr ((mem-shown c ps q).1 (t, h.1))))),
  )
  | inr e ↦ rw e (
    (λ m. let h = (mem-shown c ps q).0 m in (mem-cons.1 (Or.inr h.0), h.1)),
    (λ h.
        Or.elim Mem-prop (mem-cons.0 h.0) (λ r. let k = h.1 in absurd (ground arith))
          (λ t. (mem-shown c ps q).1 (t, h.1))),
  )
]
  where
    Bool_prop : {b : Bool} → IsProp (b ≡ true)
    Bool_prop = hlevel

-- After a click at most the problem clicked is open: it is open exactly if it was closed, and every
-- other problem is closed.
pub is_open-click :
    (id other : String) (v : View)
    → is_open (click id v).open_ other ≡ (str_eq id other && not (is_open v.open_ id))
unfolding click
is_open-click id other v = elim (Bool-cases (is_open v.open_ id)) [
  | inl e ↦ rw e (ground arith)
  | inr e ↦ rw e (ground arith)
]
