-- ===== src/Engine/Held.antt =====
-- Lists of requests with different ids: what the loops of engine/scheduler.py and engine/block_manager.py do
-- at the place of one of them.
use llm_serve.Base.{
  arith, ℕ, ◌<◌, if◌then◌else◌, if◌then◌else◌, ◌<◌, ℕ, arith, ◌+◌, ◌≡◌, refl, ap, true, some, List,
  [], ◌∷◌, ◌++◌, String, str_eq, eq_iff, Bool-cases, inl, inr,
}
use mathlib.Core.Option.{some-injective}
use llm_serve.Engine.Request.{Request}
use llm_serve.Engine.Blocks.{mutate, pop_live, set_live}
use llm_serve.Engine.Blocks.Owned.{IsLive, NotLive, str_eq_refl}
use llm_serve.Engine.Blocks.Service.{find_live}

pub IsLive-middle :
    (r : Request) (xs ys : List Request) → NotLive r.request_id xs → IsLive r (xs ++ (r ∷ ys))
IsLive-middle r [] ys n = inl refl
IsLive-middle r (x ∷ xs) ys (n, ns) = inr (n, IsLive-middle r xs ys ns)

pub pop_live-middle :
    (r s : Request) (xs ys : List Request)
    → r.request_id ≡ s.request_id
    → NotLive r.request_id xs
    → pop_live r.request_id (xs ++ (s ∷ ys)) ≡ xs ++ ys
unfolding pop_live
pop_live-middle r s [] ys e n =
    let t : str_eq s.request_id r.request_id ≡ true = rw e (str_eq_refl s.request_id) in rw t refl
pop_live-middle r s (x ∷ xs) ys e (n, ns) = rw n (ap (λ l. x ∷ l) (pop_live-middle r s xs ys e ns))

pub mutate-middle :
    (r s : Request) (xs ys : List Request)
    → r.request_id ≡ s.request_id
    → NotLive r.request_id xs
    → mutate r (xs ++ (s ∷ ys)) ≡ xs ++ (r ∷ ys)
unfolding mutate
mutate-middle r s [] ys e n =
    let t : str_eq s.request_id r.request_id ≡ true = rw e (str_eq_refl s.request_id) in rw t refl
mutate-middle r s (x ∷ xs) ys e (n, ns) = rw n (ap (λ l. x ∷ l) (mutate-middle r s xs ys e ns))

pub set_live-end :
    (r : Request) (xs : List Request) → NotLive r.request_id xs → set_live r xs ≡ xs ++ (r ∷ [])
unfolding set_live
set_live-end r [] n = refl
set_live-end r (x ∷ xs) (n, ns) = rw n (ap (λ l. x ∷ l) (set_live-end r xs ns))

-- Where the request of an id stands.
pub record Place (id : String) (xs : List Request) : Type 0 where
  pub before : List Request
  pub at : Request
  pub after : List Request
  pub split : xs ≡ before ++ (at ∷ after)
  pub has_id : at.request_id ≡ id
  pub first : NotLive id before

pub find_live-Place :
    (xs : List Request) (id : String) (r : Request)
    → find_live xs id ≡ some r
    → (p : Place id xs) × (p.at ≡ r)
unfolding find_live
find_live-Place [] id r h = cc
find_live-Place (x ∷ xs) id r h = elim (Bool-cases (str_eq x.request_id id)) [
  | inl e ↦ (
    record {
      before = [];
      at = x;
      after = xs;
      split = refl;
      has_id = (eq_iff x.request_id id).0 e;
      first = tt;
    },
    some-injective _ _ (rw (e, find_live) at h),
  )
  | inr e ↦
      (let (p, q) = find_live-Place xs id r (rw (e, find_live) at h) in
        (
          record {
            before = x ∷ p.before;
            at = p.at;
            after = p.after;
            split = ap (λ l. x ∷ l) p.split;
            has_id = p.has_id;
            first = (e, p.first);
          },
          q,
        ))
]

pub find_live-middle :
    (r : Request) (id : String) (xs ys : List Request)
    → r.request_id ≡ id
    → NotLive id xs
    → find_live (xs ++ (r ∷ ys)) id ≡ some r
unfolding find_live
find_live-middle r id [] ys e n =
    let t : str_eq r.request_id id ≡ true = rw e (str_eq_refl id) in rw t refl
find_live-middle r id (x ∷ xs) ys e (n, ns) = rw n (find_live-middle r id xs ys e ns)

pub NotLive-append :
    (id : String) (xs ys : List Request) → NotLive id xs → NotLive id ys → NotLive id (xs ++ ys)
NotLive-append id [] ys n m = m
NotLive-append id (x ∷ xs) ys (n, ns) m = (n, NotLive-append id xs ys ns m)

-- How often an id stands in a list.
unfoldable pub hit : String → Request → ℕ
hit id r = if str_eq r.request_id id then 1 else 0

unfoldable pub occurs : String → List Request → ℕ
unfolding hit
occurs id [] = 0
occurs id (r ∷ rs) = hit id r + occurs id rs

pub occurs-append :
    (id : String) (xs ys : List Request) → occurs id (xs ++ ys) ≡ occurs id xs + occurs id ys
unfolding occurs
occurs-append id [] ys = omega arith
occurs-append id (x ∷ xs) ys = omega (arith, occurs-append id xs ys)

-- The same at the place of one request.
pub occurs-middle :
    (id : String) (r : Request) (xs ys : List Request)
    → occurs id (xs ++ (r ∷ ys)) ≡ occurs id xs + hit id r + occurs id ys
unfolding occurs
occurs-middle id r xs ys = omega (arith, occurs-append id xs (r ∷ ys))

pub hit_self : (r : Request) → hit r.request_id r ≡ 1
unfolding hit
hit_self r = rw (str_eq_refl r.request_id) refl

pub hit_same : (id : String) (r s : Request) → s.request_id ≡ r.request_id → hit id s ≡ hit id r
unfolding hit
hit_same id r s e = rw e refl

pub NotLive-of_none : (id : String) (xs : List Request) → occurs id xs ≡ 0 → NotLive id xs
unfolding occurs hit
NotLive-of_none id [] h = tt
NotLive-of_none id (x ∷ xs) h = elim (Bool-cases (str_eq x.request_id id)) [
  | inl e ↦ absurd (let k = rw e at h in omega arith)
  | inr e ↦ (let k = rw e at h in (e, NotLive-of_none id xs (omega arith)))
]

pub find_live-of_some :
    (id : String) (xs : List Request)
    → 0 < occurs id xs
    → (r : Request) × (find_live xs id ≡ some r)
unfolding occurs hit find_live
find_live-of_some id [] h = absurd (omega arith)
find_live-of_some id (x ∷ xs) h = elim (Bool-cases (str_eq x.request_id id)) [
  | inl e ↦ (x, rw e refl)
  | inr e ↦ (let k = rw e at h in rw e (find_live-of_some id xs (omega arith)))
]

pub occurs-of_find :
    (id : String) (xs : List Request) (r : Request) → find_live xs id ≡ some r → 0 < occurs id xs
unfolding occurs hit find_live
occurs-of_find id [] r h = cc
occurs-of_find id (x ∷ xs) r h = elim (Bool-cases (str_eq x.request_id id)) [
  | inl e ↦ rw e (omega arith)
  | inr e ↦ rw e (omega (arith, occurs-of_find id xs r (rw (e, find_live) at h)))
]

-- Every element of a list.
abbrev pub All : (Request → Type 0) → List Request → Type 0
All P [] = Unit {0}
All P (r ∷ rs) = P r × All P rs

pub All-append :
    (P : Request → Type 0) (xs ys : List Request) → All P xs → All P ys → All P (xs ++ ys)
All-append P [] ys a b = b
All-append P (x ∷ xs) ys (p, a) b = (p, All-append P xs ys a b)

pub All-split :
    (P : Request → Type 0) (xs : List Request) (r : Request) (ys : List Request)
    → All P (xs ++ (r ∷ ys))
    → All P xs × (P r × All P ys)
All-split P [] r ys (p, a) = (tt, (p, a))
All-split P (x ∷ xs) r ys (p, a) = let (u, v) = All-split P xs r ys a in ((p, u), v)

pub All-both :
    (P Q : Request → Type 0) (rs : List Request) → All P rs → All Q rs → All (λ r. P r × Q r) rs
All-both P Q [] a b = tt
All-both P Q (r ∷ rs) (p, a) (q, b) = ((p, q), All-both P Q rs a b)
