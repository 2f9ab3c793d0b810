-- ===== src/Site/Hooks/Highlight.antt =====
-- Which section useScrollSpy of site-src/src/lib/hooks.ts highlights.
use mathlib.Core.List.{Mem, mem-cons, mem-cons_self, not-mem-nil}
use native.Mathlib.Nat.{ℕ_set}
use mathlib.Core.Logic.Or
use mathlib.Core.Option.{some-injective}
use llm_serve.Base.{
  ℕ, ◌∙◌, Option, refl, ◌∙◌, ◌<◌, ◌≡◌, ◌⊎◌, inl, inr, sym, ap, subst, arith, false, Bool-cases,
  Option-cases, none, some, List, [], ◌∷◌, ◌++◌, if◌then◌else◌, ltb, String, str_eq,
}
use llm_serve.Site.Hooks.{
  Entry, Visible, ratio_of, note_entries, first_visible, Spy, set_active, observe,
}

-- `before` stands in front of `id` in `ids`, and nothing in it is on screen.
pub record IsFirst (ids : List String) (seen : String → ℕ) (id : String) : Type 0 where
  pub before : List String
  pub after : List String
  pub split : ids ≡ before ++ (id ∷ after)
  pub hidden : (k : String) → Mem k before → seen k ≡ 0
  pub shown : 0 < seen id

pub first_visible-IsFirst :
    (ids : List String) (m : Visible) (id : String)
    → first_visible ids m ≡ some id
    → IsFirst ids (ratio_of m) id
unfolding first_visible
first_visible-IsFirst [] m id h = cc
first_visible-IsFirst (k ∷ ids) m id h = elim (Bool-cases (ltb 0 (ratio_of m k))) [
  | inl e ↦
      (let q = some-injective _ _ (rw e at h) in
        record {
          before = [];
          after = ids;
          split = ap (λ x. x ∷ ids) q;
          hidden = λ x m'. absurd (not-mem-nil m');
          shown = subst (λ x. 0 < ratio_of m x) q (ground arith);
        })
  | inr e ↦
      (let r = first_visible-IsFirst ids m id (rw e at h) in
        record {
          before = k ∷ r.before;
          after = r.after;
          split = ap (λ l. k ∷ l) r.split;
          hidden =
              λ x m'. Or.elim (ℕ_set _ _) (mem-cons.0 m') (λ q. rw q (ground arith)) (r.hidden x);
          shown = r.shown;
        })
]

first_visible-none :
    (ids : List String) (m : Visible) (k : String)
    → first_visible ids m ≡ none
    → Mem k ids
    → ratio_of m k ≡ 0
unfolding first_visible
first_visible-none [] m k h t = absurd (not-mem-nil t)
first_visible-none (i ∷ ids) m k h t = elim (Bool-cases (ltb 0 (ratio_of m i))) [
  | inl e ↦ (let n = rw e at h in cc)
  | inr e ↦
      Or.elim (ℕ_set _ _) (mem-cons.0 t) (λ q. rw q (ground arith))
        (first_visible-none ids m k (rw e at h))
]

mem-split : (before after : List String) (id : String) → Mem id (before ++ (id ∷ after))
mem-split [] after id = mem-cons_self
mem-split (b ∷ before) after id = mem-cons.1 (Or.inr (mem-split before after id))

-- The last entry of a report that is about a section.
unfoldable pub last_entry : List Entry → String → Option Entry
last_entry [] k = none
last_entry (e ∷ es) k =
    let rest = last_entry es k in
    elim rest [ some d ↦ some d | none ↦ if str_eq e.id k then some e else none ]

-- How much of a section shows by its entry in a report, if it has one, else by what was known.
unfoldable pub by_entry : Option Entry → ℕ → ℕ
by_entry none known = known
by_entry (some e) known = if e.is_intersecting then e.ratio else 0

-- How much of each section shows after a report.
abbrev pub reported : List Entry → Visible → String → ℕ
reported es m k = by_entry (last_entry es k) (ratio_of m k)

-- The map holds what the report says of the sections it is about, and what it held of the others.
pub ratio_of-note_entries :
    (es : List Entry) (m : Visible) (k : String) → ratio_of (note_entries es m) k ≡ reported es m k
unfolding note_entries ratio_of last_entry by_entry
ratio_of-note_entries [] m k = refl
ratio_of-note_entries (e ∷ es) m k =
    let r = ratio_of-note_entries es ((e.id, if e.is_intersecting then e.ratio else 0) ∷ m) k in
    elim (Option-cases (last_entry es k)) [
      | inr (d, q) ↦ r ∙ rw (q, last_entry) refl
      | inl q ↦ elim (Bool-cases (str_eq e.id k)) [
        | inl t ↦ r ∙ rw (q, last_entry, t, ratio_of) refl
        | inr t ↦ r ∙ rw (q, last_entry, t, ratio_of) refl
      ]
    ]

IsFirst-same :
    (ids : List String) (f g : String → ℕ) (id : String)
    → ((k : String) → f k ≡ g k)
    → IsFirst ids f id
    → IsFirst ids g id
IsFirst-same ids f g id h p = record {
  before = p.before;
  after = p.after;
  split = p.split;
  hidden = λ k t. sym (h k) ∙ p.hidden k t;
  shown = subst (λ n. 0 < n) (h id) p.shown;
}

-- After the observer has reported, the highlighted section is the first in reading order that shows by
-- the report; where none does, the highlight stays. No section id is empty.
pub observe_lem :
    (ids : List String) (entries : List Entry) (s : Spy)
    → ((k : String) → Mem k ids → str_eq k "" ≡ false)
    → IsFirst ids (reported entries s.visible) (observe ids entries s).active
      ⊎ (((k : String) → Mem k ids → reported entries s.visible k ≡ 0)
          × ((observe ids entries s).active ≡ s.active))
unfolding observe set_active
observe_lem ids entries s named =
    let m = note_entries entries s.visible in
    let same = ratio_of-note_entries entries s.visible in
    elim (Option-cases (first_visible ids m)) [
      | inl e ↦ inr ((λ k t. sym (same k) ∙ first_visible-none ids m k e t), rw (e, set_active))
      | inr (id, e) ↦
          (let f =
              IsFirst-same ids (ratio_of m) (reported entries s.visible) id same
                (first_visible-IsFirst ids m id e) in
            let listed = subst (λ l. Mem id l) (sym f.split) (mem-split f.before f.after id) in
            inl (
              subst (λ k. IsFirst ids (reported entries s.visible) k)
                (sym (rw (e, set_active, named id listed))) f))
    ]
