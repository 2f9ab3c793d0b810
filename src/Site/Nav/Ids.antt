-- ===== src/Site/Nav/Ids.antt =====
-- The ids of the navigation, site-src/src/nav.ts, against the page and the highlight.
use mathlib.Core.List.{Mem, mem-cons, not-mem-nil, Nodup, Nodup-cons, Nodup-nil}
use mathlib.Core.Logic.Or
use mathlib.Core.HLevel.{⊥_prop}
use llm_serve.Base.{
  ◌≡◌, ◌⊎◌, inl, inr, refl, subst, Bool, Bool-cases, true, false, not, ◌&&◌, List, [], ◌∷◌, String,
  str_eq, eq_iff, arith,
}
use llm_serve.Site.Nav.{section_ids, page_sections}
use llm_serve.Site.Hooks.{Entry, Spy, observe, ratio_of}
use llm_serve.Site.Hooks.Highlight.{IsFirst, reported, observe_lem, ratio_of-note_entries}

absent : String → List String → Bool
absent k [] = true
absent k (x ∷ xs) = not (str_eq k x) && absent k xs

no_repeat : List String → Bool
no_repeat [] = true
no_repeat (x ∷ xs) = absent x xs && no_repeat xs

absent_sound : (k : String) (xs : List String) → absent k xs ≡ true → ¬ Mem k xs
unfolding absent
absent_sound k [] h m = not-mem-nil m
absent_sound k (x ∷ xs) h m =
    Or.elim ⊥_prop (mem-cons.0 m) (λ e. ground (arith, eq_iff k x))
      (absent_sound k xs (ground arith))

no_repeat_sound : (xs : List String) → no_repeat xs ≡ true → Nodup xs
unfolding no_repeat
no_repeat_sound [] h = Nodup-nil
no_repeat_sound (x ∷ xs) h =
    Nodup-cons.1 (absent_sound x xs (ground arith), no_repeat_sound xs (ground arith))

-- The navigation lists the sections in the order of the page, each once.
pub section_ids_lem : (section_ids ≡ page_sections) × Nodup section_ids
unfolding section_ids page_sections no_repeat absent
section_ids_lem = (refl, no_repeat_sound section_ids refl)

named : (xs : List String) → absent "" xs ≡ true → (k : String) → Mem k xs → str_eq k "" ≡ false
named xs h k m = elim (Bool-cases (str_eq k "")) [
  | inl e ↦ absurd (absent_sound "" xs h (subst (λ s. Mem s xs) ((eq_iff k "").0 e) m))
  | inr e ↦ e
]

section_named : (k : String) → Mem k section_ids → str_eq k "" ≡ false
unfolding section_ids absent
section_named k m = named section_ids refl k m

-- After the observer has reported, the item of the navigation that is highlighted is that of the first
-- section that shows; where none does, it stays. A section shows by as much as its last entry in the
-- report says, nothing if that is not intersecting; without an entry by as much as was known before. What
-- is known of every section afterwards is just that.
pub highlight_lem :
    (entries : List Entry) (s : Spy)
    → let t = observe section_ids entries s in
      (IsFirst section_ids (reported entries s.visible) t.active
        ⊎ (((k : String) → Mem k section_ids → reported entries s.visible k ≡ 0)
            × (t.active ≡ s.active)))
      × ((k : String) → ratio_of t.visible k ≡ reported entries s.visible k)
unfolding observe
highlight_lem entries s =
    (observe_lem section_ids entries s section_named, ratio_of-note_entries entries s.visible)
