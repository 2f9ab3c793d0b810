-- ===== src/Arch.antt =====
-- The system map of the page: its data, site-src/src/content/architecture.ts, the diagram that traces a
-- request through it, site-src/src/components/SystemDiagram.tsx, and the life of a request,
-- site-src/src/components/Lifecycle.tsx. A path of an edge is kept as its commands.
pub mod Nodes
pub mod Edges
pub mod Diagram
pub mod Integrity
pub mod Replay
pub mod Tracing
pub mod Lifecycle
mod Tests
use llm_serve.Base.{ℕ, Option, List, String}

pub data NodeGroup : Type 0 where
  client service core ops ship : NodeGroup

pub record ArchNode : Type 0 where
  pub id : String
  pub title : String
  pub sub : String
  pub group : NodeGroup
  pub x : ℕ
  pub y : ℕ
  pub w : ℕ
  pub h : ℕ
  pub role : String
  pub decisions : List String
  pub files : List String
  pub limitation : Option String
  pub proof : Option String

-- `M x,y`, `H x` and `V y` of a path
pub data Command : Type 0 where
  move : ℕ → ℕ → Command
  horizontal : ℕ → Command
  vertical : ℕ → Command

pub data Anchor : Type 0 where
  start middle : Anchor

pub data EdgeKind : Type 0 where
  request control metrics returns : EdgeKind

pub record ArchEdge : Type 0 where
  pub id : String
  pub from_ : String
  pub to_ : String
  pub d : List Command
  pub label : Option String
  pub lx : Option ℕ
  pub ly : Option ℕ
  pub anchor : Option Anchor
  pub kind : EdgeKind

pub record TraceStep : Type 0 where
  pub node : String
  pub caption : String

-- `W` and `H`
abbrev pub width : ℕ
width = 190

abbrev pub height : ℕ
height = 88

-- `ARCH_VIEW`, with the 14 that its top lies above the origin.
pub record ViewBox : Type 0 where
  pub above : ℕ
  pub w : ℕ
  pub h : ℕ

abbrev pub arch_view : ViewBox
arch_view = record { above = 14; w = 1040; h = 512 }

-- `GROUP_LABEL`
unfoldable pub group_label : NodeGroup → String
group_label client = "Load"
group_label service = "Service"
group_label core = "Engine core"
group_label ops = "Operations"
group_label ship = "Proof and delivery"
