-- ===== src/Arch/Nodes.antt =====
-- `NODES` of site-src/src/content/architecture.ts.
use llm_serve.Base.{List, [], ◌∷◌, none, some}
use llm_serve.Arch.{ArchNode, client, service, core, ops, ship, width, height}

abbrev pub loadgen_node : ArchNode
loadgen_node = record {
  id = "loadgen";
  title = "Load generator";
  sub = "Go · open-loop Poisson";
  group = client;
  x = 20;
  y = 30;
  w = width;
  h = height;
  role =
      "Sends requests at scheduled times whether or not earlier ones have finished, so a slow server builds a queue exactly as it would in production.";
  decisions =
      "Time to first token is measured from the scheduled arrival, not from when the goroutine got round to sending, so generator lateness cannot hide server latency."
      ∷ "Goodput counts requests that finish and meet both latency targets. Rejected and unfinished requests count against it."
      ∷ "Warmup is discarded, seeds are fixed, and the run refuses to start if another run holds the port."
      ∷ [];
  files = "bench/main.go" ∷ "bench/report.go" ∷ "scripts/run_bench.sh" ∷ [];
  limitation = none;
  proof = some "Drove all {runs} published runs.";
}

abbrev pub api_node : ArchNode
api_node = record {
  id = "api";
  title = "HTTP API";
  sub = "FastAPI · NDJSON";
  group = service;
  x = 290;
  y = 30;
  w = width;
  h = height;
  role =
      "Turns an HTTP request into a Request object and streams tokens back as they are produced, with a detokeniser that never emits half a UTF-8 character.";
  decisions =
      "Cancels the request when the client disconnects, so abandoned work stops consuming compute and KV memory."
      ∷ "400 for bad input, 413 for a request larger than the whole KV pool, 429 with Retry-After when the queue is full."
      ∷ "One worker per process: the process owns the model and the KV pool, so scale out by replicas."
      ∷ "Readiness is separate from liveness: ready only after the model is loaded and warmed up."
      ∷ [];
  files = "engine/api.py" ∷ "engine/detokenizer.py" ∷ [];
  limitation = none;
  proof = some "Streamed text is tested to equal the decoded token ids, including emoji and CJK.";
}

abbrev loop_node : ArchNode
loop_node = record {
  id = "loop";
  title = "Engine loop";
  sub = "thread · admission cap";
  group = service;
  x = 560;
  y = 30;
  w = width;
  h = height;
  role =
      "Runs the scheduler on a dedicated thread. Only this thread ever touches scheduler state; everything else hands work over through a thread-safe inbox.";
  decisions =
      "No locks around scheduler state, because nothing else is allowed to reach it."
      ∷ "Front-door admission control: when the queue reaches its cap the request is refused instead of queued without bound."
      ∷ [];
  files = "engine/scheduler.py" ∷ [];
  limitation = none;
  proof = some "Queue-cap behaviour is unit tested, and observed under overload at twice capacity.";
}

abbrev sched_node : ArchNode
sched_node = record {
  id = "sched";
  title = "Scheduler";
  sub = "continuous · preemption";
  group = core;
  x = 830;
  y = 30;
  w = width;
  h = height;
  role =
      "The heart of the project. Every iteration it retires finished requests, admits waiting ones, makes room for the next token of every row, and runs one decode step.";
  decisions =
      "Continuous batching: a slot freed this step is refilled next step, instead of waiting for the whole batch to drain."
      ∷ "Strict first-come first-served admission, so a large request is never starved by a stream of small ones."
      ∷ "Preempt and recompute when memory runs out: evict the most recently admitted request among those evicted the fewest times, keep its generated tokens, re-prefill later."
      ∷ "Starvation guard: evicted requests re-enter at the front and are the last to be evicted again."
      ∷ [];
  files = "engine/scheduler.py" ∷ "engine/request.py" ∷ [];
  limitation =
      some
        "Prefill is not chunked, so one long prompt stalls every running request while it is processed.";
  proof =
      some
        "Requests joining, leaving and being evicted mid-generation produce token-identical output.";
}

abbrev obs_node : ArchNode
obs_node = record {
  id = "obs";
  title = "Observability";
  sub = "Prometheus · Grafana";
  group = ops;
  x = 290;
  y = 214;
  w = width;
  h = height;
  role =
      "Operators get latency histograms, queue depth, running batch, KV use, preemptions and outcomes, plus a JSON log line per request with its request id.";
  decisions =
      "State gauges are read from the scheduler at scrape time, so they are never stale and cost the engine thread nothing."
      ∷ "No request id or prompt in any \"label\": unbounded cardinality would take Prometheus down."
      ∷ "Alerts are generated from one source file, and a test checks that every metric a panel or alert queries really exists in the live output."
      ∷ [];
  files =
      "engine/observability.py" ∷ "deploy/prometheus/alerts.yml" ∷ "scripts/build_dashboard.py"
      ∷ [];
  limitation = none;
  proof =
      some "promtool accepts the rules, and every dashboard query returned data under real load.";
}

abbrev runner_node : ArchNode
runner_node = record {
  id = "runner";
  title = "Model runner";
  sub = "own GPT-2 forward";
  group = core;
  x = 560;
  y = 214;
  w = width;
  h = height;
  role =
      "A GPT-2 forward pass written from scratch (Hugging Face supplies weights and tokenizer only). One function handles both prefill and decode, for a batch where every row sits at a different length.";
  decisions =
      "Every row has its own positions and its own mask: query t of row i sits at position start_i + t and may see key j only if j is at most that position and inside the row."
      ∷ "Only the last real token of each row goes through the language-model head."
      ∷ "Single-row cases keep the exact kernels of the first implementation, so numerics match."
      ∷ [];
  files = "engine/model_runner.py" ∷ [];
  limitation = none;
  proof =
      some
        "Greedy tokens are identical to the Hugging Face reference for every fixture, alone or in any batch.";
}

abbrev blocks_node : ArchNode
blocks_node = record {
  id = "blocks";
  title = "Block manager";
  sub = "free list · tables";
  group = core;
  x = 830;
  y = 214;
  w = width;
  h = height;
  role =
      "Hands out fixed-size KV blocks from a free list and keeps a block table per request, so a sequence grows one block at a time and its blocks need not be adjacent.";
  decisions =
      "A block is taken exactly when a token first lands in it: a 16-token sequence holds one block, and the 17th token opens a second."
      ∷ "Worst-case commit admission when preemption is off, so it can never over-commit. Optimistic admission with headroom when preemption is on."
      ∷ "A request that could never fit even in an empty pool is refused up front, otherwise it would be evicted and readmitted forever."
      ∷ [];
  files = "engine/block_manager.py" ∷ [];
  limitation = none;
  proof =
      some
        "Boundary cases (15, 16, 17 and 32 tokens) are fixtures, and a test dumps the block table and compares every K and V bit for bit.";
}

abbrev kv_node : ArchNode
kv_node = record {
  id = "kv";
  title = "KV cache storage";
  sub = "slot pool · paged pool";
  group = core;
  x = 560;
  y = 398;
  w = 460;
  h = height;
  role =
      "One flat pool of blocks per layer. Attention gathers the blocks a request owns into a temporary contiguous buffer and runs ordinary attention on the copy.";
  decisions =
      "Three interchangeable layouts behind one interface: a single cache, a slot pool that reserves the full context per request, and the paged pool."
      ∷ "The pool is zero-filled at start-up so page faults never land on a request."
      ∷ "The cost of a token is 72 KiB across 12 layers, which is why memory decides how many requests can be in flight at once, even though on a CPU the arithmetic sets the ceiling on speed."
      ∷ [];
  files = "engine/cache.py" ∷ [];
  limitation =
      some
        "Attention copies scattered blocks every layer and every step. A production system uses a fused kernel that walks the block table inside attention, which is not possible on a CPU.";
  proof =
      some
        "Paged was {slow_min} to {slow_max} percent slower than contiguous when memory was plentiful, and {speedup} times faster when it was scarce (closed-loop burst).";
}

abbrev gate_node : ArchNode
gate_node = record {
  id = "gate";
  title = "Correctness gate";
  sub = "golden tests · CI";
  group = ship;
  x = 20;
  y = 214;
  w = width;
  h = height;
  role =
      "Greedy decoding is deterministic, so every configuration must reproduce the Hugging Face reference token for token. Wrong output from this kind of system is fluent, so it can only be caught mechanically.";
  decisions =
      "Comparison is exact token-id equality. No test has a tolerance."
      ∷ "Fixtures cover the block boundaries, long prompts, long outputs, mixed batches and neighbours joining and leaving."
      ∷ "Bugs were injected on purpose to check the tests can fail. One got through, which exposed a real gap."
      ∷ [];
  files =
      "tests/test_golden.py" ∷ "tests/test_paged.py" ∷ "tests/test_preemption.py"
      ∷ "scripts/make_fixtures.py" ∷ [];
  limitation = none;
  proof = some "Runs on every push, and nothing ships unless it is green.";
}

abbrev deploy_node : ArchNode
deploy_node = record {
  id = "deploy";
  title = "Delivery";
  sub = "Docker · K8s · Cloudflare";
  group = ship;
  x = 20;
  y = 398;
  w = width;
  h = height;
  role =
      "A non-root image with the weights baked in that runs offline, Kubernetes manifests with probes, zero-downtime rollout, autoscaling and a disruption budget, and this page served from Cloudflare with strict security headers.";
  decisions =
      "Image tag is the model version, so a rollback is a redeploy."
      ∷ "CPU limit equals torch thread count, because threads beyond the quota are throttled and make tail latency worse."
      ∷ [];
  files = "Dockerfile" ∷ "deploy/k8s/" ∷ ".github/workflows/" ∷ [];
  limitation = some "The Kubernetes manifests have not been applied to a live cluster.";
  proof = some "The image runs under the pod security restrictions and returns the golden tokens.";
}

unfoldable pub nodes : List ArchNode
nodes =
    loadgen_node ∷ api_node ∷ loop_node ∷ sched_node ∷ obs_node ∷ runner_node ∷ blocks_node
    ∷ kv_node ∷ gate_node ∷ deploy_node ∷ []
