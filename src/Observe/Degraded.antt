-- ===== src/Observe/Degraded.antt =====
-- What a degradation of the renewal stage does to the status documents
-- (packages/orchestrator/src/reconciler/observe-stage.ts and renewal-stage.ts).
