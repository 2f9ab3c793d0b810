-- ===== src/Arch/Tests.antt =====
-- The map's first edge, its trace and the evicted scenario.
use llm_serve.Base.{◌-◌, ◌≡◌, refl, true, false, some, [], ◌∷◌, length, get_or, if◌then◌else◌, ltb}
use llm_serve.Arch.{ArchNode, ArchEdge, TraceStep, move, horizontal, middle, request}
use llm_serve.Arch.Nodes.{nodes}
use llm_serve.Arch.Edges.{edges, trace}
use llm_serve.Arch.Diagram.{init, interval, start, find_node}
use llm_serve.Arch.Integrity.{Lands, start_of, end_of, edges_land, trace_found}
use llm_serve.Arch.Replay.{ticks}
use llm_serve.Arch.Tracing.{trace_plays}
use llm_serve.Arch.Lifecycle
use llm_serve.Arch.Lifecycle.{scenarios, scenario, advance, waiting, running, Scenario}
use llm_serve.Arch.Lifecycle.Playback.{scenario_plays}

abbrev first_edge : ArchEdge
first_edge = record {
  id = "e1";
  from_ = "loadgen";
  to_ = "api";
  d = move 210 74 ∷ horizontal 290 ∷ [];
  label = some "POST";
  lx = some 250;
  ly = some 64;
  anchor = some middle;
  kind = request;
}

abbrev first_stop : TraceStep
first_stop = get_or trace 0 (record { node = ""; caption = "" })

abbrev evicted : Scenario
evicted = get_or scenarios 1 Lifecycle.normal

edges_land_example :
    Lands "loadgen" (start_of first_edge.d)
    × Lands "api" (end_of (start_of first_edge.d) first_edge.d)
unfolding edges
edges_land_example = edges_land 0 first_edge refl

trace_found_example : (n : ArchNode) × (find_node nodes first_stop.node ≡ some n)
unfolding trace
trace_found_example = trace_found 0 first_stop refl

trace_plays_example : ticks interval 12 (start init) ≡ (
    if ltb 12 (length trace)
    then record init { step = some 12; playing = true }
    else record init { step = some (length trace - 1); playing = false })
trace_plays_example = trace_plays 12 init

scenario_plays_example :
    let r = Lifecycle.run "evicted" Lifecycle.init in
    let p = (scenario r).path in
    ticks advance 4 r ≡ (
      if ltb 4 (length p)
      then record r { pos = 4; playing = true }
      else record r { pos = length p - 1; playing = false })
scenario_plays_example = scenario_plays 4 "evicted" Lifecycle.init
