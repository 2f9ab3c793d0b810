-- ===== src/Arch/Integrity.antt =====
-- The map of site-src/src/content/architecture.ts against itself: what its edges and its trace name,
-- and where it draws them.
use llm_serve.Base.{
  ℕ, zero, suc, ◌+◌, ◌≤◌, ◌<◌, ◌≡◌, ◌⊎◌, inl, inr, refl, subst, Bool, true, false, ◌&&◌, ◌||◌, none,
  some, List, [], ◌∷◌, get_elem?, leb, &&_split, ltb, String, Option-cases, arith,
}
use mathlib.Core.Option.{some-injective}
use llm_serve.Arch.{ArchNode, ArchEdge, Command, move, horizontal, vertical, TraceStep, arch_view}
use llm_serve.Arch.Nodes.{nodes}
use llm_serve.Arch.Edges.{edges, trace}
use llm_serve.Arch.Diagram.{find_node, Point}

module _ {ℓ} {A : Type ℓ} where
  abbrev pub all : (A → Bool) → List A → Bool
  all p [] = true
  all p (x ∷ xs) = p x && all p xs

  pub all-get_elem? :
      (p : A → Bool) (xs : List A) (i : ℕ) {x : A}
      → all p xs ≡ true
      → get_elem? xs i ≡ some x
      → p x ≡ true
  all-get_elem? p [] i h e = cc
  all-get_elem? p (x ∷ xs) zero h e = subst (λ z. p z ≡ true) (some-injective _ _ e) (ground arith)
  all-get_elem? p (x ∷ xs) (suc i) h e = all-get_elem? p xs i (ground arith) e

  abbrev pub pairs : (A → A → Bool) → List A → Bool
  pairs p [] = true
  pairs p (x ∷ xs) = all (p x) xs && pairs p xs

  pub pairs-get_elem? :
      (p : A → A → Bool) (xs : List A) (i j : ℕ) {x y : A}
      → pairs p xs ≡ true
      → i < j
      → get_elem? xs i ≡ some x
      → get_elem? xs j ≡ some y
      → p x y ≡ true
  pairs-get_elem? p [] i j h l e f = cc
  pairs-get_elem? p (x ∷ xs) i zero h l e f = absurd (omega arith)
  pairs-get_elem? p (x ∷ xs) zero (suc j) {y = y} h l e f =
      subst (λ k. p k y ≡ true) (some-injective _ _ e) (all-get_elem? (p x) xs j (ground arith) f)
  pairs-get_elem? p (x ∷ xs) (suc i) (suc j) h l e f =
      pairs-get_elem? p xs i j (ground arith) (omega arith) e f

abbrev origin : Point
origin = record { x = 0; y = 0 }

-- The point at which a path begins, and the one that it has drawn to.
abbrev pub start_of : List Command → Point
start_of (move x y ∷ cs) = record { x = x; y = y }
start_of _ = origin

abbrev pub end_of : Point → List Command → Point
end_of p [] = p
end_of p (move x y ∷ cs) = end_of (record { x = x; y = y }) cs
end_of p (horizontal x ∷ cs) = end_of (record p { x = x }) cs
end_of p (vertical y ∷ cs) = end_of (record p { y = y }) cs

-- A point on the border of a box, or within it.
pub record Touches (n : ArchNode) (p : Point) : Type 0 where
  pub left : n.x ≤ p.x
  pub right : p.x ≤ n.x + n.w
  pub top : n.y ≤ p.y
  pub bottom : p.y ≤ n.y + n.h

abbrev touches : ArchNode → Point → Bool
touches n p = (leb n.x p.x && leb p.x (n.x + n.w)) && (leb n.y p.y && leb p.y (n.y + n.h))

touches_sound : (n : ArchNode) (p : Point) → touches n p ≡ true → Touches n p
touches_sound n p h = record {
  left = ground arith;
  right = ground arith;
  top = ground arith;
  bottom = ground arith;
}

-- The box that an id names has the point.
pub record Lands (id : String) (p : Point) : Type 0 where
  pub node : ArchNode
  pub found : find_node nodes id ≡ some node
  pub touched : Touches node p

lands : String → Point → Bool
lands id p = elim (find_node nodes id) [ none ↦ false | some n ↦ touches n p ]

lands_sound : (id : String) (p : Point) → lands id p ≡ true → Lands id p
unfolding lands
lands_sound id p h = elim (Option-cases (find_node nodes id)) [
  | inl e ↦ (let k = rw (e, lands) at h in cc)
  | inr (n, e) ↦ record { node = n; found = e; touched = touches_sound n p (rw (e, lands) at h) }
]

edge_lands : ArchEdge → Bool
edge_lands e = lands e.from_ (start_of e.d) && lands e.to_ (end_of (start_of e.d) e.d)

-- Every edge of the map joins two components that exist, and its path runs from the box of the one to the
-- box of the other.
pub edges_land :
    (i : ℕ) (e : ArchEdge)
    → get_elem? edges i ≡ some e
    → Lands e.from_ (start_of e.d) × Lands e.to_ (end_of (start_of e.d) e.d)
unfolding edge_lands lands edges nodes find_node
edges_land i e h =
    let (a, b) =
      &&_split (lands e.from_ (start_of e.d)) (lands e.to_ (end_of (start_of e.d) e.d))
        (all-get_elem? edge_lands edges i refl h) in
    (lands_sound e.from_ (start_of e.d) a, lands_sound e.to_ (end_of (start_of e.d) e.d) b)

stop_found : TraceStep → Bool
stop_found t = elim (find_node nodes t.node) [ none ↦ false | some n ↦ true ]

-- Every stop of the trace is a component of the map.
pub trace_found :
    (i : ℕ) (t : TraceStep)
    → get_elem? trace i ≡ some t
    → (n : ArchNode) × (find_node nodes t.node ≡ some n)
unfolding stop_found trace nodes find_node
trace_found i t h =
    let g = all-get_elem? stop_found trace i refl h in
    elim (Option-cases (find_node nodes t.node)) [
      | inl e ↦ (let k = rw (e, stop_found) at g in cc)
      | inr r ↦ r
    ]

abbrev pub Apart : ArchNode → ArchNode → Type 0
Apart n m = (n.x + n.w < m.x) ⊎ (m.x + m.w < n.x) ⊎ (n.y + n.h < m.y) ⊎ (m.y + m.h < n.y)

abbrev apart : ArchNode → ArchNode → Bool
apart n m =
    ltb (n.x + n.w) m.x || (ltb (m.x + m.w) n.x || (ltb (n.y + n.h) m.y || ltb (m.y + m.h) n.y))

apart_sound : (n m : ArchNode) → apart n m ≡ true → Apart n m
apart_sound n m h = ground arith

abbrev fits : ArchNode → Bool
fits n = leb (n.x + n.w) arch_view.w && leb (arch_view.above + n.y + n.h) arch_view.h

-- The boxes of two components of the map lie apart, and each lies within the drawing.
pub nodes-Apart :
    (i j : ℕ) (n m : ArchNode)
    → i < j
    → get_elem? nodes i ≡ some n
    → get_elem? nodes j ≡ some m
    → Apart n m × (n.x + n.w ≤ arch_view.w) × (arch_view.above + n.y + n.h ≤ arch_view.h)
unfolding nodes
nodes-Apart i j n m l e f =
    let g = all-get_elem? fits nodes i refl e in
    (apart_sound n m (pairs-get_elem? apart nodes i j refl l e f), ground arith, ground arith)
