-- ===== src/Engine/Scheduler/Repeats.antt =====
-- Ids without repetition: the rows of engine/scheduler.py.
use mathlib.Core.Option.{some-injective}
use llm_serve.Base.{
  ◌∙◌, suc, ◌≤◌, ◌≡◌, inl, inr, refl, sym, ap, subst, arith, false, some, List, [], ◌∷◌, ◌++◌,
  length, String, str_eq, eq_iff, Bool-cases,
}
use llm_serve.Engine.Held.{All, occurs, hit_self, NotLive-of_none}
use llm_serve.Engine.Blocks.{mutate}
use llm_serve.Engine.Blocks.Owned.{NotLive}
use llm_serve.Engine.Blocks.Service.{find_live}
use llm_serve.Engine.Scheduler.{Request}
use llm_serve.Engine.Scheduler.Room.{without, ids_of}
use llm_serve.Engine.Scheduler.Rows.{AllIds, StandsIn}

-- Ids without repetition.
abbrev pub Differs : String → List String → Type 0
Differs id ids = AllIds (λ x. str_eq x id ≡ false) ids

abbrev pub Distinct : List String → Type 0
Distinct [] = Unit {0}
Distinct (id ∷ ids) = Differs id ids × Distinct ids

without-append :
    (id : String) (xs ys : List String) → without id (xs ++ ys) ≡ without id xs ++ without id ys
unfolding without
without-append id [] ys = refl
without-append id (x ∷ xs) ys = elim (Bool-cases (str_eq x id)) [
  | inl e ↦ rw e (without-append id xs ys)
  | inr e ↦ rw e (ap (λ l. x ∷ l) (without-append id xs ys))
]

Differs-without : (y id : String) (xs : List String) → Differs y xs → Differs y (without id xs)
unfolding without
Differs-without y id [] a = tt
Differs-without y id (x ∷ xs) (p, a) = elim (Bool-cases (str_eq x id)) [
  | inl e ↦ rw e (Differs-without y id xs a)
  | inr e ↦ rw e (p, Differs-without y id xs a)
]

Distinct-without : (id : String) (xs : List String) → Distinct xs → Distinct (without id xs)
unfolding without
Distinct-without id [] a = tt
Distinct-without id (x ∷ xs) (p, a) = elim (Bool-cases (str_eq x id)) [
  | inl e ↦ rw e (Distinct-without id xs a)
  | inr e ↦ rw e (Differs-without x id xs p, Distinct-without id xs a)
]

pub Distinct-removed :
    (id : String) (xs ys : List String)
    → Distinct (xs ++ ys)
    → Distinct (without id xs ++ without id ys)
Distinct-removed id xs ys d =
    subst Distinct (without-append id xs ys) (Distinct-without id (xs ++ ys) d)

Differs-ids_of : (id : String) (rs : List Request) → NotLive id rs → Differs id (ids_of rs)
Differs-ids_of id [] n = tt
Differs-ids_of id (r ∷ rs) (n, ns) = (n, Differs-ids_of id rs ns)

pub Distinct-ids_of :
    (rs : List Request) → ((id : String) → occurs id rs ≤ 1) → Distinct (ids_of rs)
unfolding occurs
Distinct-ids_of [] h = tt
Distinct-ids_of (r ∷ rs) h = (
  Differs-ids_of r.request_id rs
      (NotLive-of_none r.request_id rs (omega (arith, h r.request_id, hit_self r))),
  Distinct-ids_of rs (λ id. omega (arith, h id)),
)

-- A write to one row leaves the others.
pub find_live-mutate_ne :
    (r : Request) (running : List Request) (id : String)
    → str_eq r.request_id id ≡ false
    → find_live (mutate r running) id ≡ find_live running id
unfolding find_live mutate
find_live-mutate_ne r [] id h = refl
find_live-mutate_ne r (x ∷ xs) id h = elim (Bool-cases (str_eq x.request_id r.request_id)) [
  | inl e ↦
      let q : str_eq x.request_id id ≡ false =
        subst (λ k. str_eq k id ≡ false) (sym ((eq_iff x.request_id r.request_id).0 e)) h in
      rw (e, h, q) refl
  | inr e ↦ elim (Bool-cases (str_eq x.request_id id)) [
    | inl q ↦ rw (e, q) refl
    | inr q ↦ rw (e, q) (find_live-mutate_ne r xs id h)
  ]
]

pub All-find :
    (P : Request → Type 0) (running : List Request) (id : String) (r : Request)
    → find_live running id ≡ some r
    → All P running
    → P r
unfolding find_live
All-find P [] id r e a = cc
All-find P (x ∷ xs) id r e (p, a) = elim (Bool-cases (str_eq x.request_id id)) [
  | inl t ↦ subst P (some-injective _ _ (rw (t, find_live) at e)) p
  | inr t ↦ All-find P xs id r (rw (t, find_live) at e) a
]

without-Differs : (id : String) (xs : List String) → Differs id xs → without id xs ≡ xs
unfolding without
without-Differs id [] a = refl
without-Differs id (x ∷ xs) (p, a) = rw p (ap (λ l. x ∷ l) (without-Differs id xs a))

-- Without repetition a removal takes one.
without_one :
    (id : String) (xs : List String)
    → Distinct xs
    → StandsIn id xs
    → suc (length (without id xs)) ≡ length xs
unfolding without
without_one id [] d h = absurd h
without_one id (x ∷ xs) (p, d) (inl e) =
    let q = without-Differs id xs (subst (λ k. Differs k xs) ((eq_iff x id).0 e) p) in
    rw e (ap (λ l. suc (length l)) q)
without_one id (x ∷ xs) (p, d) (inr h) = elim (Bool-cases (str_eq x id)) [
  | inl e ↦
      let q = without-Differs id xs (subst (λ k. Differs k xs) ((eq_iff x id).0 e) p) in
      rw e (ap (λ l. suc (length l)) q)
  | inr e ↦ rw e (ap suc (without_one id xs d h))
]

pub without_one_of :
    (id : String) (xs ys : List String)
    → Distinct (xs ++ ys)
    → StandsIn id (xs ++ ys)
    → suc (length (without id xs ++ without id ys)) ≡ length (xs ++ ys)
without_one_of id xs ys d h =
    ap (λ l. suc (length l)) (sym (without-append id xs ys)) ∙ without_one id (xs ++ ys) d h
