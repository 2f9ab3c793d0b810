-- ===== src/Arch/Diagram.antt =====
-- site-src/src/components/SystemDiagram.tsx: the component selected, the one under the pointer, and the
-- trace of a request through the map.
use llm_serve.Base.{
  ℕ, zero, suc, ◌+◌, ◌-◌, Bool, true, false, not, ◌&&◌, ◌||◌, Option, none, some, List, [], ◌∷◌,
  length, get_elem?, if◌then◌else◌, leb, min, String, str_eq,
}
use llm_serve.Arch.{ArchNode, ArchEdge}
use llm_serve.Arch.Nodes.{nodes, loadgen_node}
use llm_serve.Arch.Edges.{edges, trace}

-- `byId.get(id)`: of nodes with one id the last, which is the only one.
unfoldable pub find_node : List ArchNode → String → Option ArchNode
find_node [] id = none
find_node (n ∷ ns) id = elim (find_node ns id) [
  | some m ↦ some m
  | none ↦ if str_eq n.id id then some n else none
]

pub record Point : Type 0 where
  pub x : ℕ
  pub y : ℕ

-- `centre`: the top right corner of a node.
abbrev pub centre : ArchNode → Point
centre n = record { x = n.x + n.w - 16; y = n.y + 16 }

pub record Diagram : Type 0 where
  pub selected : String
  pub hover : Option String
  pub step : Option ℕ
  pub playing : Bool

unfoldable pub init : Diagram
init = record { selected = "sched"; hover = none; step = none; playing = false }

-- `step != null ? TRACE[step]?.node : undefined`
unfoldable pub node_at : Option ℕ → Option String
node_at none = none
node_at (some i) = elim (get_elem? trace i) [ none ↦ none | some t ↦ some t.node ]

-- `a ?? b`
abbrev pub or_else : Option String → String → String
or_else none b = b
or_else (some a) b = a

-- `hover ?? traceNode ?? selected`
unfoldable pub focus_id : Diagram → String
unfolding node_at
focus_id d = or_else d.hover (or_else (node_at d.step) d.selected)

-- `byId.get(id) ?? NODES[0]!`
unfoldable pub node_or_first : String → ArchNode
unfolding find_node
node_or_first id = elim (find_node nodes id) [ none ↦ loadgen_node | some n ↦ n ]

-- `node`, which the detail panel explains.
unfoldable pub detail : Diagram → ArchNode
unfolding node_at node_or_first
detail d = node_or_first (or_else (node_at d.step) d.selected)

-- `dot`, where the packet is drawn.
unfoldable pub dot : Diagram → Option Point
unfolding node_at node_or_first
dot d = elim (node_at d.step) [ none ↦ none | some id ↦ some (centre (node_or_first id)) ]

abbrev pub id_is : Option String → String → Bool
id_is none s = false
id_is (some a) s = str_eq s a

-- Whether an edge joins two places of the trace, in one direction or the other.
unfoldable pub joins : ArchEdge → Option String → Option String → Bool
joins e a b = (id_is a e.from_ && id_is b e.to_) || (id_is b e.from_ && id_is a e.to_)

-- The ids of the edges that the last step of the trace went over.
unfoldable pub edges_between : List ArchEdge → Option String → Option String → List String
edges_between [] a b = []
edges_between (e ∷ es) a b =
    let rest = edges_between es a b in if joins e a b then e.id ∷ rest else rest

unfoldable pub trace_edges : Option ℕ → List String
unfolding edges_between node_at
trace_edges none = []
trace_edges (some zero) = []
trace_edges (some (suc i)) = edges_between edges (node_at (some i)) (node_at (some (suc i)))

unfoldable pub includes : List String → String → Bool
includes [] s = false
includes (x ∷ xs) s = str_eq x s || includes xs s

-- `isHot`
unfoldable pub is_hot : Diagram → ArchEdge → Bool
unfolding trace_edges focus_id includes
is_hot d e =
    includes (trace_edges d.step) e.id || (str_eq e.from_ (focus_id d) || str_eq e.to_ (focus_id d))

-- `(s ?? -1) + 1`
abbrev pub next_step : Option ℕ → ℕ
next_step none = 0
next_step (some i) = suc i

-- The callback of the ticker, which runs while playing.
unfoldable pub interval : Diagram → Diagram
interval d =
    if d.playing
    then (if leb (length trace) (next_step d.step)
        then record d { playing = false }
        else record d { step = some (next_step d.step) })
    else d

unfoldable pub start : Diagram → Diagram
start d = record d { step = some 0; playing = true }

unfoldable pub reset : Diagram → Diagram
reset d = record d { playing = false; step = none }

-- `Math.min(TRACE.length - 1, (s ?? -1) + 1)`
unfoldable pub next : Diagram → Diagram
next d = record d { playing = false; step = some (min (length trace - 1) (next_step d.step)) }

pub data Event : Type 0 where
  tick start_pressed pause next_pressed reset_pressed : Event
  select : String → Event  -- a click on a node, or its Enter or space
  enter : String → Event
  leave : Event

unfoldable pub handle : Event → Diagram → Diagram
unfolding interval start reset next
handle tick d = interval d
handle start_pressed d = start d
handle pause d = record d { playing = not d.playing }
handle next_pressed d = next d
handle reset_pressed d = reset d
handle (select id) d = reset (record d { selected = id })
handle (enter id) d = record d { hover = some id }
handle leave d = record d { hover = none }
