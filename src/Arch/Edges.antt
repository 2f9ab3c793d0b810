-- ===== src/Arch/Edges.antt =====
-- `EDGES` and `TRACE` of site-src/src/content/architecture.ts.
use llm_serve.Base.{List, [], ◌∷◌, none, some}
use llm_serve.Arch.{
  ArchEdge, TraceStep, move, horizontal, vertical, middle, request, control, metrics, returns,
}

unfoldable pub edges : List ArchEdge
edges =
    record {
      id = "e1";
      from_ = "loadgen";
      to_ = "api";
      d = move 210 74 ∷ horizontal 290 ∷ [];
      label = some "POST";
      lx = some 250;
      ly = some 64;
      anchor = some middle;
      kind = request;
    }
    ∷ record {
      id = "e2";
      from_ = "api";
      to_ = "loop";
      d = move 480 74 ∷ horizontal 560 ∷ [];
      label = some "inbox";
      lx = some 520;
      ly = some 64;
      anchor = some middle;
      kind = request;
    }
    ∷ record {
      id = "e3";
      from_ = "loop";
      to_ = "sched";
      d = move 750 74 ∷ horizontal 830 ∷ [];
      label = some "submit";
      lx = some 790;
      ly = some 64;
      anchor = some middle;
      kind = request;
    }
    ∷ record {
      id = "e4";
      from_ = "sched";
      to_ = "runner";
      d = move 870 118 ∷ vertical 166 ∷ horizontal 655 ∷ vertical 214 ∷ [];
      label = some "step";
      lx = some 762;
      ly = some 158;
      anchor = some middle;
      kind = request;
    }
    ∷ record {
      id = "e5";
      from_ = "sched";
      to_ = "blocks";
      d = move 955 118 ∷ vertical 214 ∷ [];
      label = some "allocate";
      lx = some 962;
      ly = some 172;
      anchor = none;
      kind = control;
    }
    ∷ record {
      id = "e6";
      from_ = "runner";
      to_ = "kv";
      d = move 655 300 ∷ vertical 398 ∷ [];
      label = some "write · gather";
      lx = some 662;
      ly = some 352;
      anchor = none;
      kind = request;
    }
    ∷ record {
      id = "e7";
      from_ = "blocks";
      to_ = "kv";
      d = move 955 300 ∷ vertical 398 ∷ [];
      label = some "block tables";
      lx = some 962;
      ly = some 352;
      anchor = none;
      kind = control;
    }
    ∷ record {
      id = "e8";
      from_ = "sched";
      to_ = "api";
      d = move 925 30 ∷ vertical 8 ∷ horizontal 385 ∷ vertical 30 ∷ [];
      label = some "tokens stream back";
      lx = some 655;
      ly = some 0;
      anchor = some middle;
      kind = returns;
    }
    ∷ record {
      id = "e9";
      from_ = "api";
      to_ = "obs";
      d = move 385 118 ∷ vertical 214 ∷ [];
      label = some "/metrics";
      lx = some 392;
      ly = some 172;
      anchor = none;
      kind = metrics;
    }
    ∷ record {
      id = "e10";
      from_ = "gate";
      to_ = "deploy";
      d = move 115 300 ∷ vertical 398 ∷ [];
      label = some "green only";
      lx = some 122;
      ly = some 352;
      anchor = none;
      kind = control;
    }
    ∷ []

unfoldable pub trace : List TraceStep
trace =
    record {
      node = "loadgen";
      caption =
          "A request is scheduled at a Poisson arrival time and sent, whether or not earlier ones are done.";
    }
    ∷ record {
      node = "api";
      caption =
          "The API validates it (400, 413) and hands it over. A full queue answers 429 instead.";
    }
    ∷ record {
      node = "loop";
      caption =
          "It crosses a thread-safe inbox. Only the engine thread ever touches the scheduler.";
    }
    ∷ record {
      node = "sched";
      caption =
          "It waits in the queue until admission: first come first served, evicted requests first.";
    }
    ∷ record {
      node = "blocks";
      caption =
          "Enough KV blocks are allocated for the prompt, and a block table records where they are.";
    }
    ∷ record {
      node = "runner";
      caption =
          "Prefill runs the whole prompt in one forward pass and yields the first token. Then it joins the decode batch.";
    }
    ∷ record {
      node = "kv";
      caption =
          "Each decode step writes one token of K and V, then gathers the request’s blocks for attention.";
    }
    ∷ record {
      node = "sched";
      caption =
          "Each step emits a token. If memory runs out, the newest admitted request is evicted and recomputed later.";
    }
    ∷ record {
      node = "api";
      caption =
          "Tokens stream back as newline-delimited JSON. A closed connection cancels the request and frees its blocks.";
    }
    ∷ record {
      node = "obs";
      caption =
          "On completion, latency histograms and counters are updated and one JSON log line is written.";
    }
    ∷ []
