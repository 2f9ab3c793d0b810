-- ===== src/Lib.antt =====
-- LLM-serve: an inference server's scheduler with its two allocators of KV memory, and the results page
-- that explains and replays the batching and the paged memory.
--
-- The server is engine/. A scheduler (engine/scheduler.py) goes round: finished requests leave, waiting
-- ones move in, and every running one makes a token. The memory of a request comes from one of two
-- allocators with one interface (engine/block_manager.py): contiguous slots of full length, or blocks taken
-- as they are needed. With preemption on, requests are let in by what they need now, and when the blocks
-- run out one that runs is evicted, to be computed anew later; with it off they are let in by the worst
-- case. The runner of the language model is a parameter, a function from rows to tokens.
--
-- The page is a React program under site-src/src. App.tsx puts its sections in order and nav.ts lists them
-- for the sidebar. Two sections run simulations (components/Motion.tsx) of what the server does: requests
-- in six slots, admitted as a batch or one by one, and requests in 48 cells of memory, reserved at once or
-- taken token by token. Both draw on one generator of random numbers (lib/format.ts). Another section draws
-- how a sequence is cut into blocks that a block table scatters over a pool (components/KvDiagram.tsx), a
-- third the system's map and a request's way through it (components/SystemDiagram.tsx on the data of
-- content/architecture.ts, and components/Lifecycle.tsx). The hooks of lib/hooks.ts tie the components to
-- the browser: the section in view, the position of the page, an interval that stops when its component
-- rests.
--
-- - Engine.Request: engine/request.py, without its times. The number of new tokens is an integer, which a
--   client may send below zero; the blocks of a worst case and their sum are integers for it, and a count
--   of tokens that are there is a number. Engine.Blocks: BlockManager of engine/block_manager.py.
--   Engine.Blocks.Service: the calls that the scheduler makes of it, one after the other, in any order.
--   Engine.Slots: SlotManager.
-- - Engine.Allocator: the operations that the scheduler uses of an allocator, as a record, and the laws
--   that it relies on. Engine.Paged and its children fill them with the blocks, in either mode of
--   admission, and Engine.Slots.Whole with the slots.
-- - Engine.Scheduler: the state, `submit` and `has_work` of engine/scheduler.py. Its children Order, Emit,
--   Retire, Admit, Room, Decode and Step: the keys of its sorts, `_emit`, `_retire`, `_pop_admissible` with
--   `_prefill` and `_admit`, `_ensure_capacity` with `_preempt`, `_decode`, and `step` with what comes from
--   outside. The other children are the lemmas on these parts.
-- - Engine.Facade: `Engine.__init__`, `generate_batch`, and EngineLoop with its admission control. Its
--   children Running, Streaming, Granted, Generating and SlotBatch are about an engine that starts empty
--   and is given requests: what it keeps, what it sends, what its allocator answers, and that a batch ends.
-- - Page.Data: SiteData of site-src/src/types.ts. Page.Stall: StallChart of
--   site-src/src/components/Cpu.tsx, in hundredths of a second across and 10^-10 s upwards. Page.Figures:
--   the figures of Hero.tsx, Cpu.tsx, Negatives.tsx, Operations.tsx and Method.tsx.
-- - Base and its children: the names shared by all, Boolean tests, integers and lists over native numbers,
--   swaps as permutations.
-- - Prng: mulberry32 of site-src/src/lib/format.ts, on 32-bit words with the wrap-around written out. A
--   draw is the numerator over 2^32.
-- - Shuffle: the Fisher-Yates loop of site-src/src/components/KvDiagram.tsx and Motion.tsx.
-- - KvDiagram: site-src/src/components/KvDiagram.tsx, from the block arithmetic to the blocks drawn. Sizes
--   in MiB are hundredths, rounded as the page prints them.
-- - Motion.Stream: STREAM and FINAL of site-src/src/components/Motion.tsx. The power of a draw, to 1.7 or
--   1.4, is floored by comparing integer powers.
-- - Motion.Batching: tick, freshBatch and Lane of Motion.tsx. Motion.Memory: memStep and freshMem;
--   Motion.Grid: Grid. Motion.Player: Controls, BatchingSim and PagedSim.
-- - Site.Hooks: site-src/src/lib/hooks.ts. Site.Nav: nav.ts and App.tsx. Site.Sidebar and Site.Problems:
--   the components of these names.
-- - Arch, Arch.Nodes, Arch.Edges: site-src/src/content/architecture.ts. Arch.Diagram: SystemDiagram.tsx.
--   Arch.Lifecycle: Lifecycle.tsx.
-- - Format: the ticks and values of site-src/src/lib/format.ts. Chart: the axis, crosshair, labels and
--   readout of site-src/src/components/LineChart.tsx. Results: site-src/src/lib/series.ts and the state of
--   Results.tsx.
--
-- The scheduler, its allocator and the client share one object for each request. An object that runs is
-- kept in the list of those who run and in the allocator's, found by the request's id; a change to it is
-- written to both. Objects that the scheduler has let go are kept in `left`. A KeyError, a failed assertion
-- or the RuntimeError of the scheduler is an error value. The rounds of `_ensure_capacity` run on fuel, two
-- for each row and one more: a round either serves a row or evicts one. The rounds of `generate_batch` have
-- as fuel any number above the tokens asked for and one more.
--
-- The state of a component of the page is a record, a click or a tick is a function from state to state,
-- and an effect of React is a function of the state and of what it writes. The id -1 of a cell with no
-- request is none, and null and undefined are none. The admission loop of memStep, which has no bound of
-- its own, runs on fuel 13: every round but the last adds a request, and it ends at twelve. The search for
-- a power's floor has as fuel the number of values it may take, the loop of niceTicks the number of ticks
-- asked for, and the search for its power of ten 30 rounds, for axes of up to 10^22 in each tick.
--
-- Not modelled: colours, lengths and animations of what is drawn; the registration of listeners and
-- observers, which the browser reports as events; React's batching of updates; the text of the sections; of
-- the server the model runner, which is a parameter, the HTTP interface, the detokenizer, the times and
-- gauges that are floating-point numbers, NaiveScheduler and the thread that runs the loop; the load
-- generator (bench/) and the scripts.
pub mod Arch
pub mod Base
pub mod Chart
pub mod Engine
pub mod Format
pub mod KvDiagram
pub mod Motion
pub mod Page
pub mod Prng
pub mod Results
pub mod Shuffle
pub mod Site
