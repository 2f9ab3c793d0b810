-- ===== src/Motion/Memory/Rounds.antt =====
-- The rounds of the admission loop of memStep, site-src/src/components/Motion.tsx.
use mathlib.Core.List.{Perm, perm_append_comm}
use mathlib.Core.List.Perm
use llm_serve.Base.{
  ℕ, zero, suc, ◌+◌, ◌≤◌, ◌<◌, ◌≡◌, ◌⊎◌, inl, inr, refl, sym, ◌∙◌, ap, subst, arith, Option-cases,
  none, some, List, [], ◌∷◌, ◌++◌, length, length-append, Bool-cases, leb,
}
use llm_serve.Shuffle.Order.{length-range_from}
use llm_serve.Motion.Stream.{final_of, final_bounds}
use llm_serve.Motion.Memory.{
  Mode, contiguous, paged, MReq, MemSim, Admission, place, new_req, reserve_cells, admit, reserve,
  max_reqs, cell_count,
}
use llm_serve.Motion.Memory.Taken.{taken}
use llm_serve.Motion.Memory.Ownership.{claims, claims_of}
use llm_serve.Motion.Memory.Placing.{reserve-perm, length-reserve_cells, claims-append}

-- How many cells a request holds: its whole reservation, or one for each token.
abbrev pub Held : Mode → MReq → Type 0
Held contiguous r = length r.cells ≡ reserve
Held paged r = length r.cells ≡ r.tokens

-- The requests have rising ids from `lo` and below `n`, their own lengths, at most `slack` tokens
-- less than one more than those, and the cells of their mode.
abbrev pub Reqs : Mode → ℕ → ℕ → ℕ → List MReq → Type 0
Reqs m slack lo n [] = lo ≤ n
Reqs m slack lo n (r ∷ rs) =
    (lo ≤ r.id)
    × (r.final ≡ final_of r.id)
    × (r.tokens < r.final + slack)
    × Held m r
    × Reqs m slack (suc r.id) n rs

-- `base` is the number of requests finished before.
pub record Fits (m : Mode) (base : ℕ) (a : Admission) : Type 0 where
  pub cells_len : length a.cells ≡ cell_count
  pub owned : Perm (taken a.cells) (claims a.reqs)
  pub bounded : length a.reqs ≤ max_reqs
  pub counted : base + length a.reqs ≡ a.next
  pub reqs : Reqs m 0 0 a.next a.reqs

abbrev pub admission : MemSim → Admission
admission s = record { cells = s.cells; reqs = s.reqs; next = s.next }

abbrev pub Inv : Mode → MemSim → Type 0
Inv m s = Fits m s.finished (admission s)

-- One round of the admission loop.
abbrev pub admit_round : Mode → Admission → ℕ → Admission
admit_round m a start = record {
  cells = reserve_cells m a.next start a.cells;
  reqs = a.reqs ++ (new_req m a.next start ∷ []);
  next = suc a.next;
}

-- What every round keeps holds when the loop ends.
pub admit_inv {ℓ} :
    (P : Admission → Type ℓ) (m : Mode)
    → ((a : Admission) (start : ℕ)
        → place m a.cells ≡ some start
        → length a.reqs < max_reqs
        → P a
        → P (admit_round m a start))
    → (fuel : ℕ) (a : Admission) → P a
    → P (admit m fuel a)
unfolding admit
admit_inv P m keep zero a p = p
admit_inv P m keep (suc fuel) a p = elim (Option-cases (place m a.cells)) [
  | inl e ↦ rw (e, admit) p
  | inr (start, e) ↦ elim (Bool-cases (leb max_reqs (length a.reqs))) [
    | inl t ↦ rw (e, admit, t) p
    | inr f ↦
        rw (e, admit, f)
          (admit_inv P m keep fuel (admit_round m a start) (keep a start e (ground arith) p))
  ]
]

-- With fuel that exceeds the requests still to come up to twelve, the admission loop ends by its own
-- test: no place is left, or at least twelve requests are running.
pub admit_stops :
    (m : Mode) (fuel : ℕ) (a : Admission)
    → max_reqs < length a.reqs + fuel
    → (place m (admit m fuel a).cells ≡ none) ⊎ (max_reqs ≤ length (admit m fuel a).reqs)
unfolding admit
admit_stops m zero a h = inr (omega arith)
admit_stops m (suc fuel) a h = elim (Option-cases (place m a.cells)) [
  | inl e ↦ rw (e, admit) (inl e)
  | inr (start, e) ↦ elim (Bool-cases (leb max_reqs (length a.reqs))) [
    | inl t ↦ rw (e, admit, t) (inr (ground arith))
    | inr f ↦
        rw (e, admit, f)
          (admit_stops m fuel (admit_round m a start)
            (let l = length-append a.reqs (new_req m a.next start ∷ []) in omega arith))
  ]
]

new_req-Held : (m : Mode) (id start : ℕ) → Held m (new_req m id start)
unfolding new_req
new_req-Held contiguous id start = length-range_from reserve start
new_req-Held paged id start = refl

new_req_lem :
    (m : Mode) (id start : ℕ)
    → ((new_req m id start).id ≡ id)
      × ((new_req m id start).final ≡ final_of id)
      × ((new_req m id start).tokens ≡ 0)
unfolding new_req
new_req_lem contiguous id start = (refl, refl, refl)
new_req_lem paged id start = (refl, refl, refl)

Reqs-append :
    (m : Mode) (lo n start : ℕ) (rs : List MReq)
    → Reqs m 0 lo n rs
    → Reqs m 0 lo (suc n) (rs ++ (new_req m n start ∷ []))
Reqs-append m lo n start [] h =
    let (i, f, t) = new_req_lem m n start in
    let b = final_bounds n in
    (omega arith, f ∙ ap final_of (sym i), omega arith, new_req-Held m n start, omega arith)
Reqs-append m lo n start (r ∷ rs) (a, b, c, d, h) =
    (a, b, c, d, Reqs-append m (suc r.id) n start rs h)

pub admit_round-Fits :
    (m : Mode) (base : ℕ) (a : Admission) (start : ℕ)
    → place m a.cells ≡ some start
    → length a.reqs < max_reqs
    → Fits m base a
    → Fits m base (admit_round m a start)
admit_round-Fits m base a start e lt f = record {
  cells_len = length-reserve_cells m a.next start a.cells ∙ f.cells_len;
  owned =
      subst (λ l. Perm (taken (reserve_cells m a.next start a.cells)) l)
        (sym (claims-append a.reqs (new_req m a.next start)))
        (Perm.trans (reserve-perm m a.next start a.cells f.cells_len e) (
          Perm.trans (Perm.append_left (claims_of (new_req m a.next start)) f.owned)
            (perm_append_comm (claims_of (new_req m a.next start)) (claims a.reqs))));
  bounded = let l = length-append a.reqs (new_req m a.next start ∷ []) in omega arith;
  counted =
      let l = length-append a.reqs (new_req m a.next start ∷ []) in
      let c = f.counted in omega arith;
  reqs = Reqs-append m 0 a.next start a.reqs f.reqs;
}
