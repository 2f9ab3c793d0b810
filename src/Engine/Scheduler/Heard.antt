-- ===== src/Engine/Scheduler/Heard.antt =====
-- What a client hears of its request: the calls of `sink` in engine/scheduler.py.
use mathlib.Core.List.{append-nil}
use llm_serve.Engine.Scheduler.Capacity.{str_eq_sym}
use llm_serve.Engine.Blocks.Owned.{str_eq_refl}
use llm_serve.Base.{
  ◌+◌, subst, ap₂, ℕ, ◌≤◌, ◌≡◌, ◌∙◌, inl, inr, refl, sym, ap, arith, true, false, some, List, [],
  ◌∷◌, ◌++◌, String, str_eq, eq_iff, Bool-cases, if◌then◌else◌,
}
use llm_serve.Engine.Request.{Request}
use llm_serve.Engine.Allocator.{Allocator}
use llm_serve.Engine.Held.{All-append, occurs-append, All, occurs, hit, hit_same}
use llm_serve.Engine.Blocks.{mutate, pop_live}
use llm_serve.Engine.Scheduler.{Sched, Event}
use llm_serve.Engine.Scheduler.Emit.{emitted, calls_sink}

-- The tokens that the sink of a request was called with, in their order.
unfoldable pub sent : String → List Event → List ℕ
sent id [] = []
sent id (e ∷ es) = let rest = sent id es in if str_eq e.to id then e.token ∷ rest else rest

-- A request with a sink has told it its tokens, each once and in their order.
abbrev pub Heard : List Event → Request → Type 0
Heard es r = r.sink ≡ true → sent r.request_id es ≡ r.output_token_ids

-- What of a request a change of memory, state or flags leaves alone.
pub record SameTokens (r s : Request) : Type 0 where
  pub same_id : s.request_id ≡ r.request_id
  pub same_sink : s.sink ≡ r.sink
  pub same_output : s.output_token_ids ≡ r.output_token_ids

-- What the allocator changes of a request is its table.
pub record OnlyTables (al : Allocator) : Type 0 where
  pub allocate_same :
      (p : al.Pool) (r : Request) (q : al.Pool) (r1 : Request)
      → al.allocate p r ≡ some (q, r1)
      → SameTokens r r1
  pub append_same : (p : al.Pool) (r : Request) → SameTokens r ((al.append_slot p r).2)
  pub free_same : (p : al.Pool) (r : Request) → SameTokens r ((al.free p r).1)

pub Heard-same : (es : List Event) (r s : Request) → SameTokens r s → Heard es r → Heard es s
Heard-same es r s t h k =
    ap (λ i. sent i es) t.same_id ∙ h (sym t.same_sink ∙ k) ∙ sym t.same_output

pub SameTokens-refl : (r : Request) → SameTokens r r
SameTokens-refl r = record { same_id = refl; same_sink = refl; same_output = refl }

sent-append : (id : String) (es fs : List Event) → sent id (es ++ fs) ≡ sent id es ++ sent id fs
unfolding sent
sent-append id [] fs = refl
sent-append id (e ∷ es) fs = elim (Bool-cases (str_eq e.to id)) [
  | inl h ↦ rw h (ap (λ l. e.token ∷ l) (sent-append id es fs))
  | inr h ↦ rw h (sent-append id es fs)
]

emitted_tokens :
    (r : Request) (tok : ℕ)
    → ((emitted r tok).request_id ≡ r.request_id)
      × (((emitted r tok).sink ≡ r.sink)
          × ((emitted r tok).output_token_ids ≡ r.output_token_ids ++ (tok ∷ [])))
unfolding emitted
emitted_tokens r tok = ground arith

sent_one : (r : Request) (tok : ℕ) → r.sink ≡ true → sent r.request_id (calls_sink r tok) ≡ tok ∷ []
unfolding calls_sink sent
sent_one r tok k = rw (k, str_eq_refl r.request_id) refl

sent_none :
    (id : String) (r : Request) (tok : ℕ)
    → str_eq r.request_id id ≡ false
    → sent id (calls_sink r tok) ≡ []
unfolding calls_sink sent
sent_none id r tok ne = elim (Bool-cases r.sink) [ inl k ↦ rw (k, ne) refl | inr k ↦ rw k refl ]

-- The sink of the request hears the token that is made.
pub emitted-Heard :
    (es : List Event) (r : Request) (tok : ℕ)
    → Heard es r
    → Heard (es ++ calls_sink (emitted r tok) tok) (emitted r tok)
emitted-Heard es r tok h k =
    let (i, (z, o)) = emitted_tokens r tok in
    let r1 = emitted r tok in
    sent-append r1.request_id es (calls_sink r1 tok)
    ∙ ap₂ (λ xs ys. xs ++ ys) (ap (λ j. sent j es) i ∙ h (sym z ∙ k)) (sent_one r1 tok k)
    ∙ sym o

-- Nobody else hears it.
pub others-Heard :
    (es : List Event) (r : Request) (tok : ℕ) (xs : List Request)
    → occurs r.request_id xs ≡ 0
    → All (Heard es) xs
    → All (Heard (es ++ calls_sink r tok)) xs
unfolding occurs hit
others-Heard es r tok [] n a = tt
others-Heard es r tok (x ∷ xs) n (h, a) = elim (Bool-cases (str_eq x.request_id r.request_id)) [
  | inl e ↦ absurd (let n1 = rw e at n in omega arith)
  | inr e ↦
      let n1 = rw e at n in
      (
        λ k.
            sent-append x.request_id es (calls_sink r tok)
            ∙ ap (λ l. sent x.request_id es ++ l)
                (sent_none x.request_id r tok (str_eq_sym x.request_id r.request_id e))
            ∙ append-nil (sent x.request_id es)
            ∙ h k,
        others-Heard es r tok xs (omega arith) a,
      )
]

-- A write of the request among those who run.
pub mutate-All :
    (P : Request → Type 0) (r : Request) (xs : List Request) → P r → All P xs → All P (mutate r xs)
unfolding mutate
mutate-All P r [] p a = tt
mutate-All P r (x ∷ xs) p (h, a) = elim (Bool-cases (str_eq x.request_id r.request_id)) [
  | inl e ↦ rw e (p, a)
  | inr e ↦ rw e (h, mutate-All P r xs p a)
]

pub occurs-mutate :
    (id : String) (r : Request) (xs : List Request) → occurs id (mutate r xs) ≡ occurs id xs
unfolding mutate occurs
occurs-mutate id r [] = refl
occurs-mutate id r (x ∷ xs) = elim (Bool-cases (str_eq x.request_id r.request_id)) [
  | inl e ↦ rw e (omega (arith, hit_same id x r (sym ((eq_iff x.request_id r.request_id).0 e))))
  | inr e ↦ rw e (omega (arith, occurs-mutate id r xs))
]

-- Among those who run, where the id stands once, the others do not hear it.
pub mutate-Heard :
    (es : List Event) (r : Request) (tok : ℕ) (xs : List Request)
    → occurs r.request_id xs ≤ 1
    → Heard (es ++ calls_sink r tok) r
    → All (Heard es) xs
    → All (Heard (es ++ calls_sink r tok)) (mutate r xs)
unfolding mutate occurs hit
mutate-Heard es r tok [] n p a = tt
mutate-Heard es r tok (x ∷ xs) n p (h, a) = elim (Bool-cases (str_eq x.request_id r.request_id)) [
  | inl e ↦ let n1 = rw e at n in rw e (p, others-Heard es r tok xs (omega arith) a)
  | inr e ↦
      let n1 = rw e at n in
      let one : occurs r.request_id (x ∷ []) ≡ 0 = rw e (omega arith) in
      rw e
        ((others-Heard es r tok (x ∷ []) one (h, tt)).0, mutate-Heard es r tok xs (omega arith) p a)
]

pub pop_live-All :
    (P : Request → Type 0) (id : String) (xs : List Request) → All P xs → All P (pop_live id xs)
unfolding pop_live
pop_live-All P id [] a = tt
pop_live-All P id (x ∷ xs) (h, a) = elim (Bool-cases (str_eq x.request_id id)) [
  | inl e ↦ rw e a
  | inr e ↦ rw e (h, pop_live-All P id xs a)
]

pub All-parts :
    (P : Request → Type 0) (xs ys : List Request) → All P (xs ++ ys) → All P xs × All P ys
All-parts P [] ys a = (tt, a)
All-parts P (x ∷ xs) ys (h, a) = let (p, q) = All-parts P xs ys a in ((h, p), q)

module _ (al : Allocator) where
  -- All requests of a scheduler are heard in `es`.
  pub record AllHeard (es : List Event) (s : Sched al) : Type 0 where
    pub of_running : All (Heard es) s.running
    pub of_waiting : All (Heard es) s.waiting
    pub of_left : All (Heard es) s.left

  -- Those who do not run, and those of outside.
  abbrev pub beside : Sched al → List Request → List Request
  beside s later = s.waiting ++ (s.left ++ later)

  -- No id stands twice, here and outside.
  abbrev pub Once : Sched al → List Request → Type 0
  Once s later =
      (id : String)
      → occurs id s.running + occurs id s.waiting + occurs id s.left + occurs id later ≤ 1

  pub AllHeard-beside :
      (es : List Event) (s : Sched al) (later : List Request)
      → AllHeard es s
      → All (Heard es) later
      → All (Heard es) (beside s later)
  AllHeard-beside es s later a l =
      All-append (Heard es) s.waiting (s.left ++ later) a.of_waiting
        (All-append (Heard es) s.left later a.of_left l)

  pub occurs-beside :
      (id : String) (s : Sched al) (later : List Request)
      → occurs id (beside s later) ≡ occurs id s.waiting + occurs id s.left + occurs id later
  occurs-beside id s later =
      omega (arith, occurs-append id s.waiting (s.left ++ later), occurs-append id s.left later)

  -- Back to the three lists, which are as they were.
  pub AllHeard-of :
      (es : List Event) (s out : Sched al) (later : List Request)
      → out.waiting ≡ s.waiting
      → out.left ≡ s.left
      → All (Heard es) out.running
      → All (Heard es) (beside s later)
      → AllHeard es out × All (Heard es) later
  AllHeard-of es s out later w l a b =
      let (p, q) = All-parts (Heard es) s.waiting (s.left ++ later) b in
      let (q1, q2) = All-parts (Heard es) s.left later q in
      (
        record {
          of_running = a;
          of_waiting = subst (All (Heard es)) (sym w) p;
          of_left = subst (All (Heard es)) (sym l) q1;
        },
        q2,
      )
