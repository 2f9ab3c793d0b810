-- ===== src/Engine/Blocks/Service.antt =====
-- The allocator as the scheduler of engine/scheduler.py uses it: a request is admitted if `can_allocate`
-- agrees, and the other calls are made for running requests.
use mathlib.Core.Option.{some-injective}
use llm_serve.Base.{
  ℕ, ◌≡◌, subst, Bool, Option, none, some, List, [], ◌∷◌, if◌then◌else◌, String, str_eq, eq_iff,
  Bool-cases, Option-cases, inl, inr,
}
use llm_serve.Engine.Blocks.{
  Request, Manager, init, can_allocate, allocate, append_slot, free, emit,
}
use llm_serve.Engine.Blocks.Owned.{
  Owned, init-Owned, allocate-Owned, append_slot-Owned, free-Owned, emit-Owned, NotLive, IsLive,
}

unfoldable pub find_live : List Request → String → Option Request
find_live [] id = none
find_live (x ∷ xs) id = if str_eq x.request_id id then some x else find_live xs id

-- What the scheduler does with the allocator.
pub data Op : Type 0 where
  admit : Request → ℕ → Op
  grow release : String → Op
  token : String → ℕ → Op

unfoldable admitted : Manager → Option (Manager × Request) → Manager
admitted m none = m
admitted m (some (m1, r1)) = m1

unfoldable for_live : Manager → Option Request → (Request → Manager) → Manager
for_live m none f = m
for_live m (some r) f = f r

unfoldable pub serve_one : Manager → Op → Manager
unfolding find_live admitted for_live can_allocate allocate append_slot emit free
serve_one m (admit r headroom) = if can_allocate m r headroom then admitted m (allocate m r) else m
serve_one m (grow id) = for_live m (find_live m.live id) (λ r. (append_slot m r).1)
serve_one m (token id tok) = for_live m (find_live m.live id) (λ r. (emit m r tok).0)
serve_one m (release id) = for_live m (find_live m.live id) (λ r. (free m r).0)

unfoldable pub serve : List Op → Manager → Manager
unfolding serve_one
serve [] m = m
serve (o ∷ os) m = serve os (serve_one m o)

find_live-IsLive :
    (xs : List Request) (id : String) (r : Request)
    → find_live xs id ≡ some r
    → (r.request_id ≡ id) × IsLive r xs
unfolding find_live
find_live-IsLive [] id r h = cc
find_live-IsLive (x ∷ xs) id r h = elim (Bool-cases (str_eq x.request_id id)) [
  | inl e ↦
      (let q = some-injective _ _ (rw (e, find_live) at h) in
        (subst (λ y. y.request_id ≡ id) q ((eq_iff x.request_id id).0 e), inl q))
  | inr e ↦ (let (a, b) = find_live-IsLive xs id r (rw (e, find_live) at h) in (a, inr (rw a e, b)))
]

-- A request that is to be admitted has an id that no running request has.
abbrev pub IsApart : Op → Manager → Type 0
IsApart (admit r headroom) m = NotLive r.request_id m.live
IsApart (grow id) m = Unit {0}
IsApart (token id tok) m = Unit {0}
IsApart (release id) m = Unit {0}

-- It is so of each operation at its time.
abbrev pub AreApart : List Op → Manager → Type 0
AreApart [] m = Unit {0}
AreApart (o ∷ os) m = IsApart o m × AreApart os (serve_one m o)

for_live-Owned :
    (m : Manager) (id : String) (f : Request → Manager)
    → ((r : Request) → IsLive r m.live → Owned (f r))
    → Owned m
    → Owned (for_live m (find_live m.live id) f)
unfolding for_live
for_live-Owned m id f k v = elim (Option-cases (find_live m.live id)) [
  | inl e ↦ rw (e, for_live) v
  | inr (r, e) ↦ rw (e, for_live) (k r (find_live-IsLive m.live id r e).1)
]

admit-Owned :
    (m : Manager) (r : Request) (h : ℕ)
    → NotLive r.request_id m.live
    → Owned m
    → Owned (serve_one m (admit r h))
unfolding serve_one admitted
admit-Owned m r h apart v = elim (Bool-cases (can_allocate m r h)) [
  | inr g ↦ rw (serve_one, g) v
  | inl g ↦ elim (Option-cases (allocate m r)) [
    | inl a ↦ rw (serve_one, g, a) v
    | inr ((m1, r1), a) ↦ rw (serve_one, g, a) (allocate-Owned m m1 r r1 apart a v)
  ]
]

serve_one-Owned : (m : Manager) (o : Op) → IsApart o m → Owned m → Owned (serve_one m o)
unfolding serve_one
serve_one-Owned m (admit r h) apart v = admit-Owned m r h apart v
serve_one-Owned m (grow id) apart v =
    for_live-Owned m id (λ r. (append_slot m r).1) (λ r l. append_slot-Owned m r l v) v
serve_one-Owned m (token id tok) apart v =
    for_live-Owned m id (λ r. (emit m r tok).0) (λ r l. emit-Owned m r tok l v) v
serve_one-Owned m (release id) apart v =
    for_live-Owned m id (λ r. (free m r).0) (λ r l. free-Owned m r l v) v

serve-Owned : (os : List Op) (m : Manager) → AreApart os m → Owned m → Owned (serve os m)
unfolding serve
serve-Owned [] m apart v = v
serve-Owned (o ∷ os) m (a, apart) v = serve-Owned os (serve_one m o) apart (serve_one-Owned m o a v)

-- From a fresh pool, whatever requests are admitted when `can_allocate` agrees, grown, served and freed, in
-- either mode of admission, every block of the pool stands once in the free list or in the table of one
-- running request, if none is admitted while another of its id runs.
pub pool-Owned :
    (n size : ℕ) (reserve : Bool) (os : List Op)
    → AreApart os (init n size reserve)
    → Owned (serve os (init n size reserve))
pool-Owned n size reserve os apart =
    serve-Owned os (init n size reserve) apart (init-Owned n size reserve)
