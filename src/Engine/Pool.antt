-- ===== src/Engine/Pool.antt =====
-- An allocator in the middle of a scheduler's step, engine/scheduler.py: what it holds and what waits.
use mathlib.Core.List.{append_assoc}
use llm_serve.Base.{
  ◌≤ℤ◌, pos, ℕ, ◌+◌, ◌≤◌, ◌≡◌, ◌∙◌, refl, sym, ap, subst, arith, Bool, true, some, List, [], ◌∷◌,
  ◌++◌, String,
}
use llm_serve.Engine.Request.{Request, output_len}
use llm_serve.Engine.Blocks.{mutate, pop_live}
use llm_serve.Engine.Blocks.Owned.{NotLive, IsLive}
use llm_serve.Engine.Allocator.{Allocator, Lawful, SameShape, with_table}
use llm_serve.Engine.Held.{
  occurs, occurs-append, occurs-middle, hit_self, hit_same, NotLive-of_none, IsLive-middle,
  pop_live-middle, mutate-middle,
}

module _ (al : Allocator) (law : Lawful al) where
  open al use {Pool, live, can_allocate, allocate, append_slot, free, write}
  open law use {Ok, admits, grows, frees, writes}

  -- The pool is in order and holds `held`; no id stands twice in `held` and `waits`.
  pub record Holds (p : Pool) (held waits : List Request) : Type 0 where
    pub in_order : Ok p
    pub held_is : live p ≡ held
    pub once : (id : String) → occurs id held + occurs id waits ≤ 1

  -- The end of what has been done and the front of what is to be done.
  pub Holds-unshift :
      {p : Pool} {waits : List Request} (xs : List Request) (r : Request) (ys : List Request)
      → Holds p (xs ++ (r ∷ ys)) waits
      → Holds p ((xs ++ (r ∷ [])) ++ ys) waits
  Holds-unshift {p} {waits} xs r ys h =
      subst (λ l. Holds p l waits) (sym (append_assoc xs (r ∷ []) ys)) h

  pub Holds-shift :
      {p : Pool} {waits : List Request} (xs : List Request) (r : Request) (ys : List Request)
      → Holds p ((xs ++ (r ∷ [])) ++ ys) waits
      → Holds p (xs ++ (r ∷ ys)) waits
  Holds-shift {p} {waits} xs r ys h = subst (λ l. Holds p l waits) (append_assoc xs (r ∷ []) ys) h

  pub Holds-NotLive :
      (p : Pool) (r : Request) (xs ys waits : List Request)
      → Holds p (xs ++ (r ∷ ys)) waits
      → NotLive r.request_id xs
  Holds-NotLive p r xs ys waits h =
      NotLive-of_none r.request_id xs
        (omega (arith, h.once r.request_id, occurs-middle r.request_id r xs ys, hit_self r))

  pub Holds-IsLive :
      (p : Pool) (r : Request) (xs ys waits : List Request)
      → Holds p (xs ++ (r ∷ ys)) waits
      → IsLive r (live p)
  Holds-IsLive p r xs ys waits h =
      subst (IsLive r) (sym h.held_is) (IsLive-middle r xs ys (Holds-NotLive p r xs ys waits h))

  -- A write to a request that is held.
  pub write-Holds :
      (p : Pool) (r s : Request) (xs ys waits : List Request)
      → Holds p (xs ++ (r ∷ ys)) waits
      → SameShape r s
      → pos (output_len s) ≤ℤ s.max_new_tokens
      → Holds (write p s) (xs ++ (s ∷ ys)) waits
  write-Holds p r s xs ys waits h same le =
      let n = Holds-NotLive p r xs ys waits h in
      let (fine, now) = writes p r s h.in_order (Holds-IsLive p r xs ys waits h) same le in
      record {
        in_order = fine;
        held_is =
            now
            ∙ ap (mutate s) h.held_is
            ∙ mutate-middle s r xs ys same.same_id
                (subst (λ id. NotLive id xs) (sym same.same_id) n);
        once = λ id. omega (
          arith,
          h.once id,
          occurs-middle id r xs ys,
          occurs-middle id s xs ys,
          hit_same id r s same.same_id,
        );
      }

  -- Room for one more token of a request that is held.
  pub grow-Holds :
      (p : Pool) (r : Request) (xs ys waits : List Request)
      → Holds p (xs ++ (r ∷ ys)) waits
      → (q : Pool) × (table : List ℕ) × (ok : Bool) × ((append_slot p r
            ≡ (ok, q, with_table r table))
          × Holds q (xs ++ (with_table r table ∷ ys)) waits)
  grow-Holds p r xs ys waits h =
      let n = Holds-NotLive p r xs ys waits h in
      let (q, table, ok, (e, (fine, now))) =
        grows p r h.in_order (Holds-IsLive p r xs ys waits h) in
      (
        q,
        table,
        ok,
        (
          e,
          record {
            in_order = fine;
            held_is =
                now
                ∙ ap (mutate (with_table r table)) h.held_is
                ∙ mutate-middle (with_table r table) r xs ys refl n;
            once = λ id. omega (
              arith,
              h.once id,
              occurs-middle id r xs ys,
              occurs-middle id (with_table r table) xs ys,
              hit_same id r (with_table r table) refl,
            );
          },
        ),
      )

  pub Holds-waits :
      (p : Pool) (held waits fewer : List Request)
      → ((id : String) → occurs id fewer ≤ occurs id waits)
      → Holds p held waits
      → Holds p held fewer
  Holds-waits p held waits fewer le h = record {
    in_order = h.in_order;
    held_is = h.held_is;
    once = λ id. omega (arith, h.once id, le id);
  }

  -- A request that is held gives its memory back, and may wait again.
  pub free-Holds :
      (p : Pool) (r s : Request) (xs ys waits : List Request)
      → s.request_id ≡ r.request_id
      → Holds p (xs ++ (r ∷ ys)) waits
      → Holds (free p r).0 (xs ++ ys) (waits ++ (s ∷ [])) × ((free p r).1 ≡ with_table r [])
  unfolding occurs
  free-Holds p r s xs ys waits same h =
      let n = Holds-NotLive p r xs ys waits h in
      let (fine, (now, out)) = frees p r h.in_order (Holds-IsLive p r xs ys waits h) in
      (
        record {
          in_order = fine;
          held_is = now ∙ ap (pop_live r.request_id) h.held_is ∙ pop_live-middle r r xs ys refl n;
          once = λ id. omega (
            arith,
            h.once id,
            occurs-middle id r xs ys,
            occurs-append id xs ys,
            occurs-append id waits (s ∷ []),
            hit_same id r s same,
          );
        },
        out,
      )

  -- A waiting request is let in.
  pub admit-Holds :
      (p : Pool) (r : Request) (headroom : ℕ) (held waits : List Request)
      → Holds p held (r ∷ waits)
      → pos (output_len r) ≤ℤ r.max_new_tokens
      → can_allocate p r headroom ≡ true
      → (q : Pool) × (table : List ℕ) × ((allocate p r ≡ some (q, with_table r table))
          × Holds q (held ++ (with_table r table ∷ [])) waits)
  unfolding occurs
  admit-Holds p r headroom held waits h le e =
      let n : NotLive r.request_id held =
        NotLive-of_none r.request_id held (omega (arith, h.once r.request_id, hit_self r)) in
      let (q, table, (a, (fine, now))) =
        admits p r headroom h.in_order (subst (NotLive r.request_id) (sym h.held_is) n) le e in
      (
        q,
        table,
        (
          a,
          record {
            in_order = fine;
            held_is = now ∙ ap (λ l. l ++ (with_table r table ∷ [])) h.held_is;
            once = λ id. omega (
              arith,
              h.once id,
              occurs-append id held (with_table r table ∷ []),
              hit_same id r (with_table r table) refl,
            );
          },
        ),
      )
