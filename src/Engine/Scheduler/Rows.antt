-- ===== src/Engine/Scheduler/Rows.antt =====
-- Ids that stand for rows: the references to requests in `_ensure_capacity` and `_decode` of
-- engine/scheduler.py.
use mathlib.Core.Option.{some-injective}
use llm_serve.Base.{
  none, suc, ◌≤◌, ◌<◌, ◌≡◌, ◌⊎◌, inl, inr, refl, sym, ap, subst, arith, true, false, some, List, [],
  ◌∷◌, ◌++◌, length, String, str_eq, eq_iff, Bool-cases,
}
use llm_serve.Engine.Held.{All}
use llm_serve.Engine.Blocks.Owned.{str_eq_refl}
use llm_serve.Engine.Blocks.Service.{find_live}
use llm_serve.Engine.Scheduler.{Request}
use llm_serve.Engine.Scheduler.Order.{victim_of, better_victim}
use llm_serve.Engine.Scheduler.Room.{objects, without}

-- The id stands for a row that has the property.
abbrev pub RowOf : (Request → Type 0) → List Request → String → Type 0
RowOf P running id = (r : Request) × ((find_live running id ≡ some r) × P r)

abbrev pub AllIds : (String → Type 0) → List String → Type 0
AllIds P [] = Unit {0}
AllIds P (id ∷ ids) = P id × AllIds P ids

abbrev pub StandsIn : String → List String → Type 0
StandsIn id [] = ⊥
StandsIn id (x ∷ xs) = (str_eq x id ≡ true) ⊎ StandsIn id xs

pub AllIds-map :
    (P Q : String → Type 0) (ids : List String)
    → ((id : String) → P id → Q id)
    → AllIds P ids
    → AllIds Q ids
AllIds-map P Q [] f a = tt
AllIds-map P Q (id ∷ ids) f (p, a) = (f id p, AllIds-map P Q ids f a)

pub AllIds-append :
    (P : String → Type 0) (xs ys : List String) → AllIds P xs → AllIds P ys → AllIds P (xs ++ ys)
AllIds-append P [] ys a b = b
AllIds-append P (x ∷ xs) ys (p, a) b = (p, AllIds-append P xs ys a b)

-- What a removal leaves differs from what was removed.
pub AllIds-without :
    (P : String → Type 0) (id : String) (xs : List String)
    → AllIds P xs
    → AllIds (λ x. P x × (str_eq x id ≡ false)) (without id xs)
unfolding without
AllIds-without P id [] a = tt
AllIds-without P id (x ∷ xs) (p, a) = elim (Bool-cases (str_eq x id)) [
  | inl e ↦ rw e (AllIds-without P id xs a)
  | inr e ↦ rw e ((p, e), AllIds-without P id xs a)
]

pub length-without : (id : String) (xs : List String) → length (without id xs) ≤ length xs
unfolding without
length-without id [] = omega arith
length-without id (x ∷ xs) = ground (arith, length-without id xs)

pub without_shorter :
    (id : String) (xs : List String) → StandsIn id xs → length (without id xs) < length xs
unfolding without
without_shorter id [] h = absurd h
without_shorter id (x ∷ xs) (inl e) = rw e (omega (arith, length-without id xs))
without_shorter id (x ∷ xs) (inr h) = ground (arith, without_shorter id xs h)

pub StandsIn-append :
    (id : String) (xs ys : List String) → StandsIn id (xs ++ ys) → StandsIn id xs ⊎ StandsIn id ys
StandsIn-append id [] ys h = inr h
StandsIn-append id (x ∷ xs) ys (inl e) = inl (inl e)
StandsIn-append id (x ∷ xs) ys (inr h) = elim (StandsIn-append id xs ys h) [
  | inl k ↦ inl (inr k)
  | inr k ↦ inr k
]

-- A row is written to.
pub Row-write :
    (P Q : Request → Type 0) (r s : Request) (xs ys : List Request) (id : String)
    → s.request_id ≡ r.request_id
    → ((x : Request) → P x → Q x)
    → (P r → Q s)
    → RowOf P (xs ++ (r ∷ ys)) id
    → RowOf Q (xs ++ (s ∷ ys)) id
unfolding find_live
Row-write P Q r s [] ys id e f g (x, (h, p)) = elim (Bool-cases (str_eq r.request_id id)) [
  | inl t ↦
      let t1 : str_eq s.request_id id ≡ true = rw e t in
      (s, (rw t1 refl, g (subst P (sym (some-injective _ _ (rw (t, find_live) at h))) p)))
  | inr t ↦
      let t1 : str_eq s.request_id id ≡ false = rw e t in
      (x, (rw t1 (rw (t, find_live) at h), f x p))
]
Row-write P Q r s (y ∷ xs) ys id e f g (x, (h, p)) = elim (Bool-cases (str_eq y.request_id id)) [
  | inl t ↦ (x, (rw t (rw (t, find_live) at h), f x p))
  | inr t ↦
      let (x1, (h1, p1)) = Row-write P Q r s xs ys id e f g (x, (rw (t, find_live) at h, p)) in
      (x1, (rw t h1, p1))
]

-- Another row is taken out.
pub Row-remove :
    (P : Request → Type 0) (r : Request) (xs ys : List Request) (id : String)
    → str_eq id r.request_id ≡ false
    → RowOf P (xs ++ (r ∷ ys)) id
    → RowOf P (xs ++ ys) id
unfolding find_live
Row-remove P r [] ys id ne (x, (h, p)) = elim (Bool-cases (str_eq r.request_id id)) [
  | inl t ↦ absurd (
      let e : id ≡ r.request_id = sym ((eq_iff r.request_id id).0 t) in
      let k : str_eq id r.request_id ≡ true = (eq_iff id r.request_id).1 e in cc)
  | inr t ↦ (x, (rw (t, find_live) at h, p))
]
Row-remove P r (y ∷ xs) ys id ne (x, (h, p)) = elim (Bool-cases (str_eq y.request_id id)) [
  | inl t ↦ (x, (rw t (rw (t, find_live) at h), p))
  | inr t ↦
      let (x1, (h1, p1)) = Row-remove P r xs ys id ne (x, (rw (t, find_live) at h, p)) in
      (x1, (rw t h1, p1))
]

-- The objects of rows.
pub objects-All :
    (P Q : Request → Type 0) (running : List Request) (ids : List String)
    → ((id : String) (r : Request) → StandsIn id ids → find_live running id ≡ some r → P r → Q r)
    → AllIds (RowOf P running) ids
    → All Q (objects running ids)
unfolding objects
objects-All P Q running [] f a = tt
objects-All P Q running (id ∷ ids) f ((r, (e, p)), a) =
    let rest = objects-All P Q running ids (λ i x st h k. f i x (inr st) h k) a in
    subst (λ o. All Q (elim o [ none ↦ objects running ids | some x ↦ x ∷ objects running ids ]))
      (sym e) (f id r (inl (str_eq_refl id)) e p, rest)

pub length-objects :
    (P : Request → Type 0) (running : List Request) (ids : List String)
    → AllIds (RowOf P running) ids
    → length (objects running ids) ≡ length ids
unfolding objects
length-objects P running [] a = refl
length-objects P running (id ∷ ids) ((r, (e, p)), a) =
    subst
      (λ o.
        length (elim o [ none ↦ objects running ids | some x ↦ x ∷ objects running ids ])
        ≡ suc (length ids))
      (sym e) (ap suc (length-objects P running ids a))

-- The victim is one of them.
pub victim_of-All :
    (P : Request → Type 0) (b : Request) (bs : List Request) → P b → All P bs → P (victim_of b bs)
unfolding victim_of
victim_of-All P b [] p a = p
victim_of-All P b (x ∷ xs) p (q, a) = elim (Bool-cases (better_victim b x)) [
  | inl e ↦ rw e (victim_of-All P x xs q a)
  | inr e ↦ rw e (victim_of-All P b xs p a)
]
