-- ===== src/Engine/Scheduler/Victims.antt =====
-- The victims of `_ensure_capacity` of engine/scheduler.py.
use mathlib.Core.Option.{some-injective}
use llm_serve.Base.{
  str_eq, ◌<◌, ◌≡◌, ◌∙◌, inl, inr, refl, sym, ap, subst, arith, false, some, List, [], ◌∷◌, length,
  String, Bool-cases,
}
use llm_serve.Engine.Held.{All, find_live-Place}
use llm_serve.Engine.Blocks.Service.{find_live}
use llm_serve.Engine.Scheduler.{Request, finished}
use llm_serve.Engine.Scheduler.Order.{victim_of}
use llm_serve.Engine.Scheduler.Room.{objects}
use llm_serve.Engine.Scheduler.Invariant.{Unfinished}
use llm_serve.Engine.Scheduler.Rows.{
  RowOf, AllIds, StandsIn, objects-All, victim_of-All, length-objects,
}

abbrev pub IsVictim : List Request → List String → Request → Type 0
IsVictim running ids r =
    (find_live running r.request_id ≡ some r) × ((finished r ≡ false) × StandsIn r.request_id ids)

pub only :
    (running : List Request) (id : String) (r : Request)
    → find_live running id ≡ some r
    → length running ≡ 1
    → running ≡ r ∷ []
unfolding find_live
only [] id r e one = absurd (omega arith)
only (x ∷ []) id r e one = elim (Bool-cases (str_eq x.request_id id)) [
  | inl t ↦ ap (λ y. y ∷ []) (some-injective _ _ (rw (t, find_live) at e))
  | inr t ↦ (let k = rw (t, find_live) at e in absurd (cc))
]
only (x ∷ y ∷ ys) id r e one = absurd (omega arith)

pub has_id :
    (running : List Request) (id : String) (r : Request)
    → find_live running id ≡ some r
    → r.request_id ≡ id
has_id running id r e =
    let (p, q) = find_live-Place running id r e in ap (λ x. x.request_id) (sym q) ∙ p.has_id

-- Where there are rows there is a victim among them.
pub victim_of-IsVictim :
    (running : List Request) (ids : List String)
    → AllIds (RowOf Unfinished running) ids
    → 0 < length ids
    → (b : Request) × (bs : List Request) × ((objects running ids ≡ b ∷ bs)
        × IsVictim running ids (victim_of b bs))
victim_of-IsVictim running ids a h = found (objects running ids) refl
  where
    all : All (IsVictim running ids) (objects running ids)
    all =
        objects-All Unfinished (IsVictim running ids) running ids
          (λ id r st e p.
            let i = has_id running id r e in
            (
              subst (λ k. find_live running k ≡ some r) (sym i) e,
              (p, subst (λ k. StandsIn k ids) (sym i) st),
            ))
          a

    found :
        (l : List Request)
        → objects running ids ≡ l
        → (b : Request) × (bs : List Request) × ((objects running ids ≡ b ∷ bs)
            × IsVictim running ids (victim_of b bs))
    found [] e = absurd (
        let k : length (objects running ids) ≡ 0 = ap length e in
        omega (arith, length-objects Unfinished running ids a))
    found (b ∷ bs) e =
        let (p, q) = subst (All (IsVictim running ids)) e all in
        (b, bs, (e, victim_of-All (IsVictim running ids) b bs p q))
