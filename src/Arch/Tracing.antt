-- ===== src/Arch/Tracing.antt =====
-- The trace through the map of site-src/src/components/SystemDiagram.tsx: where it can stand, how it
-- ends, and what it lights up.
use llm_serve.Base.{
  ℕ, zero, suc, ◌-◌, ◌<◌, ◌≡◌, inl, inr, refl, sym, subst, Bool, true, false, not, Option, none,
  some, List, [], ◌∷◌, get_elem?, length, ltb, leb, String, str_eq, eq_iff, Bool-cases, arith,
  if◌then◌else◌,
}
use mathlib.Core.Option.{some-injective}
use llm_serve.Arch.{ArchEdge}
use llm_serve.Arch.Edges.{edges, trace}
use llm_serve.Arch.Diagram.{
  Diagram, init, interval, start, reset, next, next_step, Event, handle, includes, edges_between,
  trace_edges, joins, node_at, tick, start_pressed, pause, next_pressed, reset_pressed, select,
  enter, leave,
}
use llm_serve.Arch.Replay.{ticks, ticks_lem}
use llm_serve.Arch.Integrity.{all, all-get_elem?, pairs}

-- The step is none, or one of the trace.
pub InTrace : Option ℕ → Type 0
InTrace none = Unit {0}
InTrace (some i) = i < length trace

abbrev stops : ℕ
stops = length trace

stops_lem : length trace ≡ 10
unfolding trace
stops_lem = refl

pub run : List Event → Diagram → Diagram
run [] d = d
run (e ∷ es) d = run es (handle e d)

interval-InTrace : (d : Diagram) → InTrace d.step → InTrace (interval d).step
unfolding InTrace interval
interval-InTrace d h = elim (Bool-cases d.playing) [
  | inr p ↦ rw p h
  | inl p ↦ rw p (elim (Bool-cases (leb (length trace) (next_step d.step))) [
    | inl q ↦ rw q h
    | inr q ↦ rw q (ground arith)
  ])
]

handle-InTrace : (e : Event) (d : Diagram) → InTrace d.step → InTrace (handle e d).step
unfolding InTrace handle start reset next
handle-InTrace tick d h = interval-InTrace d h
handle-InTrace start_pressed d h = omega (arith, stops_lem)
handle-InTrace pause d h = h
handle-InTrace next_pressed d h = omega (arith, stops_lem)
handle-InTrace reset_pressed d h = omega arith
handle-InTrace (select id) d h = omega arith
handle-InTrace (enter id) d h = h
handle-InTrace leave d h = h

pub run-InTrace : (es : List Event) (d : Diagram) → InTrace d.step → InTrace (run es d).step
unfolding run
run-InTrace [] d h = h
run-InTrace (e ∷ es) d h = run-InTrace es (handle e d) (handle-InTrace e d h)

-- Whatever the reader presses and however often the ticker fires, the trace stands at one of its stops or
-- at none.
pub trace_stands : (es : List Event) → InTrace (run es init).step
unfolding init InTrace
trace_stands es = run-InTrace es init (omega arith)

abbrev at : Diagram → ℕ → Diagram
at d i = record d { step = some i; playing = true }

interval_playing : (i : ℕ) (d : Diagram) → suc i < stops → interval (at d i) ≡ at d (suc i)
unfolding interval
interval_playing i d h = let q : leb stops (suc i) ≡ false = ground arith in rw (q, interval) refl

-- Once started and left alone the trace goes through its stops one after the other and then rests on the
-- last, no longer playing.
pub trace_plays :
    (n : ℕ) (d : Diagram)
    → ticks interval n (start d) ≡ (
        if ltb n (length trace)
        then record d { step = some n; playing = true }
        else record d { step = some (length trace - 1); playing = false })
unfolding start interval trace
trace_plays n d =
    ticks_lem interval stops (at d) (record d { step = some (stops - 1); playing = false })
      (omega arith) (λ i h. interval_playing i d h) refl refl n

abbrev other_id : ArchEdge → ArchEdge → Bool
other_id e f = not (str_eq f.id e.id)

str_ne_comm : (s t : String) → str_eq s t ≡ false → str_eq t s ≡ false
str_ne_comm s t h = elim (Bool-cases (str_eq t s)) [
  | inl e ↦ (let q = (eq_iff s t).1 (sym ((eq_iff t s).0 e)) in cc)
  | inr e ↦ e
]

-- Among edges with different ids, those listed are those that join the two places.
includes-edges_between_absent :
    (es : List ArchEdge) (s : String) (a b : Option String)
    → all (λ f. not (str_eq f.id s)) es ≡ true
    → includes (edges_between es a b) s ≡ false
unfolding includes edges_between
includes-edges_between_absent [] s a b h = refl
includes-edges_between_absent (e ∷ es) s a b h =
    let ih = includes-edges_between_absent es s a b (ground arith) in
    elim (Bool-cases (joins e a b)) [ inl j ↦ rw j (ground arith) | inr j ↦ rw j ih ]

includes-edges_between :
    (es : List ArchEdge) (i : ℕ) (e : ArchEdge) (a b : Option String)
    → pairs other_id es ≡ true
    → get_elem? es i ≡ some e
    → includes (edges_between es a b) e.id ≡ joins e a b
unfolding includes edges_between
includes-edges_between [] i e a b h k = cc
includes-edges_between (f ∷ es) zero e a b h k =
    let q = some-injective _ _ k in
    let n = includes-edges_between_absent es f.id a b (ground arith) in
    subst (λ z. includes (edges_between (f ∷ es) a b) z.id ≡ joins z a b) q
      (elim (Bool-cases (joins f a b)) [
        | inl j ↦ rw (j, (eq_iff f.id f.id).1 refl) refl
        | inr j ↦ rw j n
      ])
includes-edges_between (f ∷ es) (suc i) e a b h k =
    let ih = includes-edges_between es i e a b (ground arith) k in
    let d = all-get_elem? (other_id f) es i (ground arith) k in
    elim (Bool-cases (joins f a b)) [
      | inl j ↦ rw (j, str_ne_comm e.id f.id (ground arith)) ih
      | inr j ↦ rw j ih
    ]

-- The edges lit up when the trace has gone on to a stop are those of the map that join the stop to the one
-- before, in one direction or the other.
pub trace_edges_lem :
    (i k : ℕ) (e : ArchEdge)
    → get_elem? edges k ≡ some e
    → includes (trace_edges (some (suc i))) e.id
      ≡ joins e (node_at (some i)) (node_at (some (suc i)))
unfolding trace_edges edges
trace_edges_lem i k e h =
    includes-edges_between edges k e (node_at (some i)) (node_at (some (suc i))) refl h
