-- ===== src/Engine/Facade/Tests.antt =====
-- Two requests on an engine of seven blocks of sixteen tokens.
use llm_serve.Base.{
  pos, ◌+ℤ◌, ℕ, ◌+◌, ◌*◌, ◌≤◌, ◌≡◌, ◌∙◌, inl, inr, refl, sym, ap, arith, true, false, none, some,
  List, [], ◌∷◌, ◌++◌, map, length, String, str_eq, eq_iff, Bool-cases, min,
}
use llm_serve.Shuffle.{range}
use llm_serve.Engine.Request.{Request, is_waiting}
use llm_serve.Engine.Held.{All, occurs, hit}
use llm_serve.Engine.Blocks.{
  can_allocate, append_slot, blocks_for_budget, Manager, allocate, set_committed, worst, set_live,
  blocks_needed,
}
use llm_serve.Engine.Blocks as Blocks
use llm_serve.Engine.Blocks.Clash.{allocate_same_id}
use llm_serve.Engine.Blocks.Owned.{Owned}
use llm_serve.Engine.Paged as Paged
use llm_serve.Engine.Paged.{paged}
use llm_serve.Engine.Paged.Optimistic.{optimistic, init-IsOptimistic}
use llm_serve.Engine.Slots.{slots, slots_for_budget}
use llm_serve.Engine.Slots.Whole.{IsWhole}
use llm_serve.Engine.Scheduler.{Sched, Config, Runner, Row, ok, continuous, max_context, fresh}
use llm_serve.Engine.Allocator.{Lawful}
use llm_serve.Engine.Scheduler.Invariant.{Inv, total}
use llm_serve.Engine.Scheduler.Ensured.{Ensures}
use llm_serve.Engine.Scheduler.Capacity.{batch_ids}
use llm_serve.Engine.Scheduler.Capacity.{ensure_capacity-Ensures}
use llm_serve.Engine.Scheduler.Decode.{unfinished}
use llm_serve.Engine.Scheduler.Order.{sort_by, goes_first}
use llm_serve.Engine.Scheduler.Admit.{pop_admissible}
use llm_serve.Engine.Scheduler.Room.{ids_of, ensure_capacity}
use llm_serve.Engine.Scheduler.Step.{Input, arrive, hang_up, tick, run}
use llm_serve.Engine.Scheduler.Stepped.{arrivals, fresh-Inv, run_lem}
use llm_serve.Engine.Scheduler.Prefilled.{Answers, length-map}
use llm_serve.Engine.Scheduler.Queue.{pop_admissible-InOrder, InOrder}
use llm_serve.Engine.Facade.{paged_engine, slot_engine, generate_batch}
use llm_serve.Engine.Facade.Running.{
  Whatever, Whatever-same, AreNew, IsServing, paged_engine-IsServing, slot_engine-IsServing,
}
use llm_serve.Engine.Facade.Streaming.{paged_engine-AllHeard}
use llm_serve.Engine.Scheduler.Heard.{AllHeard}
use llm_serve.Engine.Facade.Granted.{append_slot_succeeds, allocate_succeeds}

abbrev ask : String → ℕ → ℕ → ℕ → Request
unfolding range
ask id prompt most arrival = record {
  request_id = id;
  prompt_token_ids = range prompt;
  max_new_tokens = pos most;
  ignore_eos = false;
  output_token_ids = [];
  state = is_waiting;
  arrival_time = arrival;
  finish_reason = none;
  block_table = [];
  admit_seq = 0;
  preempt_count = 0;
  cancelled = false;
  sink = true;
}

abbrev sevens : Runner
sevens n rows = map (λ (row : Row). 7) rows

sevens-Answers : Answers sevens
sevens-Answers n rows = length-map (λ (row : Row). 7) rows

abbrev settings : Config
settings = record { batching = continuous; max_batch = 2; preemption = true }

abbrev short : Request
unfolding range
short = ask "a" 3 2 0

abbrev longer : Request
unfolding range
longer = ask "b" 5 3 1

abbrev both : List Input
unfolding range
both = arrive short ∷ arrive longer ∷ tick ∷ hang_up "b" ∷ tick ∷ []

two_ids :
    (r s : Request) (id : String)
    → str_eq r.request_id s.request_id ≡ false
    → occurs id (r ∷ s ∷ []) ≤ 1
unfolding occurs hit
two_ids r s id h = elim (Bool-cases (str_eq r.request_id id)) [
  | inr e ↦ rw e (ground arith)
  | inl e ↦ elim (Bool-cases (str_eq s.request_id id)) [
    | inr f ↦ rw (e, f) (omega arith)
    | inl f ↦ absurd (
        let p = (eq_iff r.request_id id).0 e ∙ sym ((eq_iff s.request_id id).0 f) in
        let q = (eq_iff r.request_id s.request_id).1 p in cc)
  ]
]

both-AreNew : AreNew both
unfolding arrivals range
both-AreNew = record {
  each = (
    (omega arith, (omega arith, (refl, refl))),
    ((omega arith, (omega arith, (refl, refl))), tt),
  );
  once = λ id. two_ids short longer id refl;
}

generated :
    (generate_batch paged sevens 9 (paged_engine settings 8 16) (short ∷ longer ∷ []))
    ≡ ok ((7 ∷ 7 ∷ []) ∷ (7 ∷ 7 ∷ 7 ∷ []) ∷ [])
unfolding generate_batch paged_engine fresh short Blocks.can_allocate Blocks.init blocks_needed
    blocks_for_budget allocate Paged.write Blocks.append_slot Blocks.free
generated = refl

paged_engine-IsServing_example :
    (out : Sched paged) × ((run paged sevens both (paged_engine settings 8 16) ≡ ok out)
      × IsServing paged Owned settings both out)
paged_engine-IsServing_example =
    paged_engine-IsServing settings 8 16 sevens both (omega arith) sevens-Answers both-AreNew

slot_engine-IsServing_example :
    (out : Sched slots) × ((run slots sevens both (slot_engine settings 8) ≡ ok out)
      × IsServing slots
          (IsWhole (min 2 (slots_for_budget (8 * 1024 * 1024) max_context)))
          settings
          both
          out)
slot_engine-IsServing_example =
    slot_engine-IsServing settings 8 sevens both (omega arith) sevens-Answers both-AreNew

-- A scheduler on seven blocks, where a request may be evicted.
abbrev law : Lawful paged
law = optimistic 7 16 Whatever Whatever-same

abbrev start : Sched paged
start = fresh paged settings (Blocks.init 7 16 false)

start-Inv : Inv paged law start
unfolding optimistic Blocks.init
start-Inv =
    fresh-Inv paged law settings (Blocks.init 7 16 false) (init-IsOptimistic 7 16 (omega arith))
      refl

waiting_pair :
    (out : Sched paged) × ((run paged sevens (arrive short ∷ arrive longer ∷ []) start ≡ ok out)
      × (Inv paged law out
          × (((id : String)
                → total paged id out
                  ≡ total paged id start + occurs id (arrivals (arrive short ∷ arrive longer ∷ [])))
              × (out.cfg ≡ start.cfg))))
unfolding arrivals range optimistic fresh occurs
waiting_pair =
    run_lem paged law sevens sevens-Answers (arrive short ∷ arrive longer ∷ []) start start-Inv
      (inl refl) both-AreNew.each (tt, (tt, tt)) (λ id. omega (arith, two_ids short longer id refl))

pop_admissible-InOrder_example :
    let s = waiting_pair.0 in
    let sorted = sort_by goes_first s.waiting in
    (out : Sched paged) × (let_in : List Request) × ((pop_admissible paged s 2 ≡ ok (out, let_in))
      × ((ids_of let_in ++ ids_of out.waiting ≡ ids_of sorted)
          × (InOrder sorted
              × (((id : String) → occurs id sorted ≡ occurs id s.waiting) × (length let_in ≤ 2)))))
pop_admissible-InOrder_example =
    pop_admissible-InOrder paged law waiting_pair.0 2 waiting_pair.1.1.0

served_pair :
    (out : Sched paged) × ((run paged sevens both start ≡ ok out)
      × (Inv paged law out
          × (((id : String) → total paged id out ≡ total paged id start + occurs id (arrivals both))
              × (out.cfg ≡ start.cfg))))
unfolding arrivals range optimistic fresh occurs
served_pair =
    run_lem paged law sevens sevens-Answers both start start-Inv (inl refl) both-AreNew.each
      (tt, (tt, tt)) (λ id. omega (arith, two_ids short longer id refl))

ensure_capacity-Ensures_example :
    let s = served_pair.0 in
    Ensures paged law s (batch_ids paged law s) (ensure_capacity paged s (unfinished s.running))
unfolding fresh
ensure_capacity-Ensures_example =
    ensure_capacity-Ensures paged law served_pair.0 served_pair.1.1.0
      (inl (ap (λ c. c.preemption) served_pair.1.1.1.1))

abbrev first_in : Manager
unfolding range
first_in = record (Blocks.init 7 16 true) {
  free_blocks = 1 ∷ 2 ∷ 3 ∷ 4 ∷ 5 ∷ 6 ∷ [];
  live = record short { block_table = 0 ∷ [] } ∷ [];
  committed = ("a", pos 1) ∷ [];
}

abbrev second_in : Manager
unfolding range
second_in = record (Blocks.init 7 16 true) {
  free_blocks = 2 ∷ 3 ∷ 4 ∷ 5 ∷ 6 ∷ [];
  live = record longer { request_id = "a"; block_table = 1 ∷ [] } ∷ [];
  committed = ("a", pos 1) ∷ [];
}

abbrev twin : Request
unfolding range
twin = record longer { request_id = "a" }

allocate_same_id_example :
    (second_in.committed ≡ set_committed "a" (worst 16 twin) [])
    × ((second_in.live ≡ set_live (record twin { block_table = 1 ∷ [] }) [])
        × (length second_in.free_blocks + blocks_needed 16 3 + blocks_needed 16 5 ≡ 7))
unfolding allocate Blocks.init range blocks_needed ◌+ℤ◌
allocate_same_id_example =
    allocate_same_id (Blocks.init 7 16 true) first_in second_in short
      (record short { block_table = 0 ∷ [] }) twin (record twin { block_table = 1 ∷ [] }) refl refl
      refl

paged_engine-AllHeard_example :
    (out : Sched paged) × ((run paged sevens both (paged_engine settings 8 16) ≡ ok out)
      × AllHeard paged out.events out)
paged_engine-AllHeard_example =
    paged_engine-AllHeard settings 8 16 sevens both (omega arith) sevens-Answers both-AreNew

abbrev steady : Config
steady = record { batching = continuous; max_batch = 2; preemption = false }

append_slot_succeeds_example :
    (out : Sched paged) × ((run paged sevens both (paged_engine steady 8 16) ≡ ok out)
      × All (λ r. (append_slot out.manager r).0 ≡ true) out.running)
append_slot_succeeds_example =
    append_slot_succeeds steady 8 16 sevens both refl (omega arith) sevens-Answers both-AreNew

allocate_succeeds_example :
    (out : Sched paged) × ((run paged sevens both (paged_engine steady 8 16) ≡ ok out)
      × All
          (λ r.
            (headroom : ℕ)
            → can_allocate out.manager r headroom ≡ true
            → (q : Manager × Request) × (allocate out.manager r ≡ some q))
          out.waiting)
allocate_succeeds_example =
    allocate_succeeds steady 8 16 sevens both refl (omega arith) sevens-Answers both-AreNew
