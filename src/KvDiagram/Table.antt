-- ===== src/KvDiagram/Table.antt =====
-- The block table against the owner map: site-src/src/components/KvDiagram.tsx.
use mathlib.Core.List.{Nodup}
use mathlib.Core.Option.{some-injective}
use llm_serve.Base.{
  ℕ, zero, suc, ◌+◌, ◌≤◌, ◌<◌, ◌≡◌, ◌≢◌, ◌↔◌, ◌⊎◌, inl, inr, refl, sym, ◌∙◌, ap, arith, true,
  Bool-cases, Option, none, some, if◌then◌else◌, List, [], ◌∷◌, map, length, get_elem?,
  get_elem?-lt, get_elem?-inj, get_elem?-eq-get_or, get_or,
}
use llm_serve.Shuffle.{range, range_from, shuffle}
use llm_serve.Shuffle.Order.{shuffle-Nodup}
use llm_serve.KvDiagram.{OwnerMap, owner_from, owner, table, phys, blocks, key_eq, pool}
use llm_serve.KvDiagram.Blocks.{blocks-le}

key_eq_iff : (p q : Option ℕ) → (key_eq p q ≡ true) ↔ (p ≡ q)
key_eq_iff none none = ground arith
key_eq_iff none (some b) = ground arith
key_eq_iff (some a) none = ground arith
key_eq_iff (some a) (some b) = ground arith

-- A key that the table does not hold is not touched.
owner_from-miss :
    (i : ℕ) (m : OwnerMap) (ps : List (Option ℕ)) (q : Option ℕ)
    → ((j : ℕ) → get_elem? ps j ≢ some q)
    → owner_from i m ps q ≡ m q
unfolding owner_from
owner_from-miss i m [] q h = refl
owner_from-miss i m (p ∷ ps) q h =
    owner_from-miss (suc i) _ ps q (λ j. h (suc j)) ∙ ground (arith, key_eq_iff p q, h 0)

-- The last place of a key is its owner.
owner_from-hit :
    (i : ℕ) (m : OwnerMap) (ps : List (Option ℕ)) (q : Option ℕ) (k : ℕ)
    → get_elem? ps k ≡ some q
    → ((j : ℕ) → k < j → get_elem? ps j ≢ some q)
    → owner_from i m ps q ≡ some (i + k)
unfolding owner_from
owner_from-hit i m [] q k h l = cc
owner_from-hit i m (p ∷ ps) q zero h l =
    owner_from-miss (suc i) _ ps q (λ j. l (suc j) (omega arith)) ∙ ground (arith, key_eq_iff p q)
owner_from-hit i m (p ∷ ps) q (suc k) h l =
    owner_from-hit (suc i) _ ps q k h (λ j lt. l (suc j) (omega arith)) ∙ ap some (omega arith)

-- An owner is a place of the key, or was in the map before.
owner_from_sound :
    (i : ℕ) (m : OwnerMap) (ps : List (Option ℕ)) (q : Option ℕ) (v : ℕ)
    → owner_from i m ps q ≡ some v
    → ((k : ℕ) × (get_elem? ps k ≡ some q) × (v ≡ i + k)) ⊎ (m q ≡ some v)
unfolding owner_from
owner_from_sound i m [] q v h = inr h
owner_from_sound i m (p ∷ ps) q v h =
    elim (owner_from_sound (suc i) (λ k. if key_eq p k then some i else m k) ps q v h) [
      | inl (k, e, f) ↦ inl (suc k, e, omega arith)
      | inr e ↦ elim (Bool-cases (key_eq p q)) [
        | inl t ↦ inl (0, ap some ((key_eq_iff p q).0 t), ground arith)
        | inr f ↦ inr (rw f at e)
      ]
    ]

get_elem?-map-range_from :
    (f : ℕ → Option ℕ) (n i k : ℕ) → k < n → get_elem? (map f (range_from n i)) k ≡ some (f (i + k))
unfolding range_from
get_elem?-map-range_from f zero i k h = elim h [ ]
get_elem?-map-range_from f (suc n) i zero h = ap (λ a. some (f a)) (omega arith)
get_elem?-map-range_from f (suc n) i (suc k) h =
    get_elem?-map-range_from f n (suc i) k (omega arith) ∙ ap (λ a. some (f a)) (omega arith)

length-map-range_from : (f : ℕ → Option ℕ) (n i : ℕ) → length (map f (range_from n i)) ≡ n
unfolding range_from
length-map-range_from f zero i = refl
length-map-range_from f (suc n) i = ap suc (length-map-range_from f n (suc i))

pub length-table : (tokens bs : ℕ) → length (table tokens bs) ≡ blocks tokens bs
unfolding table range
length-table tokens bs = length-map-range_from (get_elem? phys) (blocks tokens bs) 0

table-get :
    (tokens bs i : ℕ)
    → i < blocks tokens bs
    → get_elem? (table tokens bs) i ≡ some (get_elem? phys i)
unfolding table range
table-get tokens bs i h =
    get_elem?-map-range_from (get_elem? phys) (blocks tokens bs) 0 i h
    ∙ ap (λ k. some (get_elem? phys k)) {x = 0 + i} {y = i} (omega arith)

phys-Nodup : Nodup phys
unfolding phys
phys-Nodup = shuffle-Nodup 7 31

length-phys : length phys ≡ pool
unfolding phys shuffle
length-phys = refl

-- Two logical blocks never share a physical one.
pub table-inj :
    (tokens bs i j p : ℕ)
    → get_elem? (table tokens bs) i ≡ some (some p)
    → get_elem? (table tokens bs) j ≡ some (some p)
    → i ≡ j
table-inj tokens bs i j p h k = get_elem?-inj phys i j phys-Nodup (at i h) (at j k)
  where
    at : (a : ℕ) → get_elem? (table tokens bs) a ≡ some (some p) → get_elem? phys a ≡ some p
    at a e = some-injective _ _ (
        sym (
          table-get tokens bs a
            (rw (length-table tokens bs) at (get_elem?-lt (table tokens bs) a e)))
        ∙ e)

-- `owner.get(p)` is the logical block `i` exactly when the block table sends `i` to `p`.
pub owner-table :
    (tokens bs p i : ℕ)
    → (owner tokens bs (some p) ≡ some i) ↔ (get_elem? (table tokens bs) i ≡ some (some p))
unfolding owner
owner-table tokens bs p i = (
  (λ h. elim (owner_from_sound 0 (λ _. none) (table tokens bs) (some p) i h) [
    | inl (k, e, f) ↦ (let g : k ≡ i = omega arith in rw g at e)
    | inr e ↦ cc
  ]),
  (λ h.
      owner_from-hit 0 (λ _. none) (table tokens bs) (some p) i h
        (λ j lt e. let g = table-inj tokens bs i j p h e in omega arith)
      ∙ ap some (omega arith)),
)

-- With the slider at most at 96 and blocks of at least 4 tokens, each logical block has a physical one.
pub table_total :
    (tokens bs i : ℕ)
    → tokens ≤ 96
    → 4 ≤ bs
    → i < blocks tokens bs
    → (p : ℕ) × (get_elem? (table tokens bs) i ≡ some (some p))
      × (owner tokens bs (some p) ≡ some i)
table_total tokens bs i h k l =
    (get_or phys i 0, e, (owner-table tokens bs (get_or phys i 0) i).1 e)
  where
    few : blocks tokens bs ≤ 24
    few = blocks-le tokens bs 24 (omega arith) (omega arith)

    e : get_elem? (table tokens bs) i ≡ some (some (get_or phys i 0))
    e =
        table-get tokens bs i l
        ∙ ap some (get_elem?-eq-get_or phys i 0 (omega (arith, length-phys, few)))
