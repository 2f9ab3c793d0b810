-- ===== src/Engine/Facade/SlotBatch.antt =====
-- The batch that an engine with contiguous slots generates: engine/scheduler.py.
use llm_serve.Engine.Request.{Request}
use llm_serve.Engine.Slots as Slots
